-- ===== src/File/Whole.antt =====
-- A file that can be read is read whole and in order (src/FileStream.cpp).
use libkolibre_xmlreader.Base.{
  joined, take-nil, take-cons, ℕ, zero, suc, ◌+◌, ◌≤◌, ◌<◌, ◌≡◌, refl, sym, subst, ap, ◌∙◌, Bool,
  true, false, Option, none, some, List, [], ◌∷◌, ◌++◌, if◌then◌else◌, Bytes, length, take, drop,
  arith, length-take, length-drop, take-append-drop,
}
use libkolibre_xmlreader.Base.Outcome.{done}
use libkolibre_xmlreader.Cache.Zlib.{Zlib}
use libkolibre_xmlreader.File.{
  Files, FileStream, new_file, use_file_cache, read_open, read_by, read_file, open_file, file_input,
}
use libkolibre_xmlreader.Http.Error.{access_denied, read_failed}
use libkolibre_xmlreader.Stream.{got, failed, Serves, ends, serves}

-- The bytes in pieces of `n`; as many pieces as there are bytes are enough.
unfoldable pub chunks : ℕ → ℕ → Bytes → List Bytes
chunks zero n bytes = []
chunks (suc m) n [] = []
chunks (suc m) n (x ∷ xs) = take n (x ∷ xs) ∷ chunks m n (drop n (x ∷ xs))

joined-chunks :
    (m n : ℕ) (bytes : Bytes) → length bytes ≤ m → 0 < n → joined (chunks m n bytes) ≡ bytes
unfolding chunks
joined-chunks zero n [] h p = refl
joined-chunks zero n (x ∷ xs) h p = absurd (omega arith)
joined-chunks (suc m) n [] h p = refl
joined-chunks (suc m) n (x ∷ xs) h p =
    ap (λ (b : Bytes). take n (x ∷ xs) ++ b)
      (joined-chunks m n (drop n (x ∷ xs)) (omega (arith, length-drop n (x ∷ xs))) p)
    ∙ take-append-drop n (x ∷ xs)

-- There are no more pieces than bytes.
pub length-chunks : (m n : ℕ) (bytes : Bytes) → 0 < n → length (chunks m n bytes) ≤ length bytes
unfolding chunks
length-chunks zero n bytes p = omega arith
length-chunks (suc m) n [] p = omega arith
length-chunks (suc m) n (x ∷ xs) p =
    omega (arith, length-chunks m n (drop n (x ∷ xs)) p, length-drop n (x ∷ xs))

-- An open file that holds these bytes from its position on is read without error, and as much at a
-- time as is asked for and there.
pub record IsReadable {F : Type 0} (files : Files F) (at : F → Bytes → Type 0) : Type 0 where
  pub reads : (f : F) (bytes : Bytes) (n : ℕ) → at f bytes → (files.read f n).1 ≡ take n bytes
  pub moves : (f : F) (bytes : Bytes) (n : ℕ) → at f bytes → at (files.read f n).0 (drop n bytes)
  pub sound : (f : F) (bytes : Bytes) → at f bytes → files.has_error f ≡ false

module _ {Z F : Type 0} (z : Zlib Z) (files : Files F) (at : F → Bytes → Type 0)
    (readable : IsReadable files at) (fuel n : ℕ) where
  -- The next read is of an open file with these bytes to come.
  record Reads (s : FileStream Z F) (bytes : Bytes) : Type 0 where
    at_file : FileStream Z F
    f : F
    step : read_file z files fuel n s ≡ read_open z files n (some f) at_file
    mode : at_file.mode ≡ libkolibre_xmlreader.File.read
    is_open : at_file.is_open ≡ true
    position : at f bytes
    total : at_file.total_bytes_read ≡ s.total_bytes_read

  abbrev behind : FileStream Z F → F → Bytes → FileStream Z F
  behind s f bytes = record s {
    fp = some (files.read f n).0;
    total_bytes_read = s.total_bytes_read + length (take n bytes);
  }

  read_open-done :
      (s : FileStream Z F) (f : F) (bytes : Bytes)
      → at f bytes
      → read_open z files n (some f) s ≡ done (behind s f bytes, got (take n bytes))
  unfolding read_open
  read_open-done s f bytes p =
      rw (readable.sound (files.read f n).0 (drop n bytes) (readable.moves f bytes n p)) (
        ap
          (λ (b : Bytes). done (
            record s {
              fp = some (files.read f n).0;
              total_bytes_read = s.total_bytes_read + length b;
            },
            got b,
          ))
          (readable.reads f bytes n p))

  again :
      (s : FileStream Z F) (bytes : Bytes) (r : Reads s bytes)
      → Reads (behind r.at_file r.f bytes) (drop n bytes)
  unfolding read_file read_by
  again s bytes r = record {
    at_file = behind r.at_file r.f bytes;
    f = (files.read r.f n).0;
    step =
        ap (λ m. read_by z files m r.at_file.is_open fuel n (behind r.at_file r.f bytes)) r.mode
        ∙ ap
            (λ b.
              read_by z files libkolibre_xmlreader.File.read b fuel n (behind r.at_file r.f bytes))
            r.is_open;
    mode = r.mode;
    is_open = r.is_open;
    position = readable.moves r.f bytes n r.position;
    total = refl;
  }

  at_end :
      (s : FileStream Z F) (r : Reads s [])
      → (t : FileStream Z F) × Serves (file_input z files fuel) n s [] t
        × (t.total_bytes_read ≡ s.total_bytes_read + 0)
  at_end s r = (
    behind r.at_file r.f [],
    ends (
        r.step
        ∙ read_open-done r.at_file r.f [] r.position
        ∙ ap (λ (b : Bytes). done (behind r.at_file r.f [], got b)) (take-nil n)),
    omega (arith, r.total, ap (length {A = ℕ}) (take-nil n)),
  )

  -- Reading the rest of the file gives its chunks.
  pieces_of :
      (m : ℕ) (s : FileStream Z F) (bytes : Bytes)
      → length bytes ≤ m
      → 0 < n
      → Reads s bytes
      → (t : FileStream Z F) × Serves (file_input z files fuel) n s (chunks m n bytes) t
        × (t.total_bytes_read ≡ s.total_bytes_read + length bytes)
  unfolding chunks
  pieces_of zero s [] h p r = at_end s r
  pieces_of (suc m) s [] h p r = at_end s r
  pieces_of zero s (x ∷ xs) h p r = absurd (omega arith)
  pieces_of (suc m) s (x ∷ xs) h p r =
      let (t, served, total) =
        pieces_of m (behind r.at_file r.f (x ∷ xs)) (drop n (x ∷ xs))
          (omega (arith, length-drop n (x ∷ xs))) p (again s (x ∷ xs) r) in
      let q = take-cons n x xs p in
      (
        t,
        subst
            (λ (b : Bytes).
              Serves (file_input z files fuel) n s (b ∷ chunks m n (drop n (x ∷ xs))) t)
            (sym q.2)
            (serves
              (r.step
                ∙ read_open-done r.at_file r.f (x ∷ xs) r.position
                ∙ ap (λ (b : Bytes). done (behind r.at_file r.f (x ∷ xs), got b)) q.2)
              (omega (arith, ap length q.2, length-take n (x ∷ xs))) served),
        omega (arith, total, r.total, length-drop n (x ∷ xs), length-take n (x ∷ xs)),
      )

  -- A new stream for the file, told whether to use the cache.
  abbrev started : Bytes → Bool → FileStream Z F
  started name b = use_file_cache b (new_file name none)

  -- A file that is there and can be read is read whole, in order and to its end: a new stream for it,
  -- whether it is told to use the cache or not, gives the chunks of `n` bytes of the contents, which
  -- joined are the contents, then nothing, and counts each byte. What the operating system does is the
  -- condition: stat and fopen succeed, and fread gives as much of what is to come as is asked for and
  -- there, without error.
  pub pieces_of-new_file :
      (name contents : Bytes) (b : Bool) (size : ℕ) (f : F)
      → 0 < n
      → files.size_of name ≡ some size
      → files.fopen name ≡ some f
      → at f contents
      → (t : FileStream Z F) × Serves
          (file_input z files fuel)
          n
          (use_file_cache b (new_file name none))
          (chunks (length contents) n contents)
          t
        × (joined (chunks (length contents) n contents) ≡ contents)
        × (t.total_bytes_read ≡ length contents)
  unfolding new_file use_file_cache read_file read_by open_file
  pieces_of-new_file name contents b size f p there opens position =
      let (t, served, total) =
        pieces_of (length contents) (started name b) contents (omega arith) p (record {
          at_file = opened;
          f = f;
          step =
              ap
                (λ (o : FileStream Z F × Bool).
                  if o.1 then read_open z files n o.0.fp o.0 else done (o.0, failed))
                (open_file-done there opens);
          mode = refl;
          is_open = refl;
          position = position;
          total = refl;
        }) in
      (t, served, joined-chunks (length contents) n contents (omega arith) p, omega (arith, total))
    where
      opened : FileStream Z F
      opened = record (started name b) { size = size; fp = some f; is_open = true }

      from_open : ℕ → Option F → FileStream Z F × Bool
      from_open k o = elim o [
        | none ↦ (
          record (started name b) {
            size = k;
            error_msg = files.open_error name;
            error_code = read_failed;
          },
          false,
        )
        | some f ↦ (record (started name b) { size = k; fp = some f; is_open = true }, true)
      ]

      from_size : Option ℕ → FileStream Z F × Bool
      from_size o = elim o [
        | none ↦ (
          record (started name b) { error_msg = files.size_error name; error_code = access_denied },
          false,
        )
        | some k ↦ elim (files.fopen name) [
          | none ↦ (
            record (started name b) {
              size = k;
              error_msg = files.open_error name;
              error_code = read_failed;
            },
            false,
          )
          | some f ↦ (record (started name b) { size = k; fp = some f; is_open = true }, true)
        ]
      ]

      open_file-done :
          files.size_of name ≡ some size
          → files.fopen name ≡ some f
          → open_file z files (started name b) ≡ (opened, true)
      open_file-done e e' = ap from_size e ∙ ap (from_open size) e'
