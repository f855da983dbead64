-- ===== src/Cache/Object/Unpack.antt =====
-- Reading a document from its cache object: a row of calls of readBytes of src/CacheObject.cpp.
use libkolibre_xmlreader.Base.{
  ◌%◌, ◌^◌, ℕ, zero, suc, ◌≤◌, ◌<◌, ◌≡◌, sym, ap, ◌∙◌, inl, inr, some, List, [], ◌∷◌, ◌++◌, joined,
  Bytes, length, take-all, arith, length-append,
}
use libkolibre_xmlreader.Base.Outcome.{done}
use libkolibre_xmlreader.Cache.Object.{CacheObject, full, read}
use libkolibre_xmlreader.Cache.Object.Read.{
  read_loop, prepare_read, read_in, read_bytes, init_inflate, leave_write,
}
use libkolibre_xmlreader.Cache.Zlib.{Zlib}
use libkolibre_xmlreader.Cache.Object.Inflate.{inflater, Inflated, HasRead, read_loop-HasRead}

module _ {Z : Type 0} (z : Zlib Z) where
  -- Reading up to `n` bytes at a time gives these pieces, none of them empty, and then nothing.
  pub data ReadsAll (fuel n : ℕ) : CacheObject Z → List Bytes → CacheObject Z → Type 0 where
    ends : {o t : CacheObject Z} → read_bytes z fuel o n ≡ done (t, []) → ReadsAll fuel n o [] t
    reads :
        {o t u : CacheObject Z} {x : ℕ} {xs : Bytes} {rest : List Bytes}
        → read_bytes z fuel o n ≡ done (t, x ∷ xs)
        → length (x ∷ xs) ≤ n
        → ReadsAll fuel n t rest u
        → ReadsAll fuel n o ((x ∷ xs) ∷ rest) u

module _ {Z : Type 0} (z : Zlib Z) (Left : Z → Bytes → Bytes → Type 0) where
  -- An object in the midst of reading.
  record IsReading (o : CacheObject Z) (text : Bytes) : Type 0 where
    pub state : o.state ≡ read
    pub block : (packed : Bytes) × (o.z_buffer ≡ some packed)
    pub left : Left o.stream o.next_in text

  read_bytes-IsReading :
      (fuel n : ℕ) (o : CacheObject Z) (text : Bytes)
      → IsReading o text
      → read_bytes z fuel o n ≡ read_loop z fuel o n
  unfolding read_bytes prepare_read
  read_bytes-IsReading fuel n o text v =
      let (packed, e) = v.block in
      ap (λ b. read_in z o.state b fuel o n) e
      ∙ ap (λ s. read_in z s (some packed) fuel o n) v.state
      ∙ ap
          (λ s.
            read_loop z fuel (init_inflate z (leave_write z s o).state packed (leave_write z s o))
              n)
          v.state
      ∙ ap (λ s. read_loop z fuel (init_inflate z s packed o) n) v.state

  -- The reads from an object on.
  abbrev Reading : ℕ → ℕ → CacheObject Z → Bytes → Type 0
  Reading fuel n o text =
      (u : CacheObject Z) × (pieces : List Bytes) × ReadsAll z fuel n o pieces u
      × (joined pieces ≡ text)

  read_on :
      (fuel n : ℕ) (o : CacheObject Z) (text : Bytes) (o1 : CacheObject Z)
      → 0 < n
      → read_bytes z fuel o n ≡ read_loop z fuel o1 n
      → (t : CacheObject Z) (bytes : Bytes) → read_loop z fuel o1 n ≡ done (t, bytes)
      → (v : HasRead z Left n o1 text t bytes) → (0 < length bytes → Reading fuel n t v.rest)
      → Reading fuel n o text
  read_on fuel n o text o1 pos e t [] run v next = (
    t,
    [],
    ends (e ∙ run),
    elim v.whole [ inl a ↦ absurd (omega (arith, a, pos)) | inr a ↦ sym (v.splits ∙ a) ],
  )
  read_on fuel n o text o1 pos e t (x ∷ xs) run v next =
      let (u, pieces, rows, whole) = next (omega arith) in
      (
        u,
        (x ∷ xs) ∷ pieces,
        reads (e ∙ run) v.fits rows,
        ap (λ y. (x ∷ xs) ++ y) whole ∙ sym v.splits,
      )

  reading :
      (n : ℕ)
      → 0 < n
      → ((s : Z) (input text : Bytes)
          → Left s input text
          → Inflated z Left n input text (z.inflate s input n))
      → (m fuel : ℕ) (o : CacheObject Z) (text : Bytes) → length text < m
      → length o.next_in < fuel
      → IsReading o text
      → Reading fuel n o text
  reading n pos law zero fuel o text bound enough v = absurd (omega arith)
  reading n pos law (suc m) fuel o text bound enough v =
      let (t, bytes, run, w) = read_loop-HasRead z Left n pos law fuel o text enough v.left in
      let (packed, e) = v.block in
      read_on fuel n o text o pos (read_bytes-IsReading fuel n o text v) t bytes run w
        (λ some_bytes.
          reading n pos law m fuel t w.rest
            (omega (arith, ap length w.splits, length-append bytes w.rest, some_bytes, bound))
            (omega (arith, w.shorter, enough))
            (record { state = w.state ∙ v.state; block = (packed, w.block ∙ e); left = w.left }))

  -- From an object that holds what zlib compressed.
  pub Reading-full :
      (n : ℕ)
      → 0 < n
      → ((s : Z) (input text : Bytes)
          → Left s input text
          → Inflated z Left n input text (z.inflate s input n))
      → (fuel : ℕ) (o : CacheObject Z) (packed text : Bytes) → o.state ≡ full
      → o.z_buffer ≡ some packed
      → o.buffer_size ≡ length packed
      → length packed < 2 ^ 31
      → length packed < fuel
      → Left (inflater z o.stream) packed text
      → Reading fuel n o text
  unfolding read_bytes prepare_read
  Reading-full n pos law fuel o packed text state block size small enough left =
      let o1 = record o { stream = inflater z o.stream; state = read; next_in = packed } in
      let e : read_bytes z fuel o n ≡ read_loop z fuel o1 n =
        ap (λ b. read_in z o.state b fuel o n) block
        ∙ ap (λ s. read_in z s (some packed) fuel o n) state
        ∙ ap
            (λ s.
              read_loop z fuel (init_inflate z (leave_write z s o).state packed (leave_write z s o))
                n)
            state
        ∙ ap (λ s. read_loop z fuel (init_inflate z s packed o) n) state
        ∙ ap (λ b. read_loop z fuel (record o1 { next_in = b }) n)
            (take-all (o.buffer_size % 2 ^ 32) packed (omega (arith, size, small))) in
      let (t, bytes, run, w) = read_loop-HasRead z Left n pos law fuel o1 text enough left in
      read_on fuel n o text o1 pos e t bytes run w (λ some_bytes.
        reading n pos law (suc (length text)) fuel t w.rest
          (omega (arith, ap length w.splits, length-append bytes w.rest, some_bytes))
          (omega (arith, w.shorter, enough))
          (record { state = w.state; block = (packed, w.block ∙ block); left = w.left }))
