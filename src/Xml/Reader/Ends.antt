-- ===== src/Xml/Reader/Ends.antt =====
-- How the loop of parse in src/XmlReader.cpp ends, and what becomes of a byte order mark.
use libkolibre_xmlreader.Base.{
  ℕ, zero, suc, ◌<◌, ◌≡◌, ◌⊎◌, inl, inr, refl, sym, ap, ◌∙◌, Bool, true, false, not, Option, none,
  some, List, [], ◌∷◌, ◌++◌, ◌==◌, Bytes, length, starts_with, drop, if◌then◌else◌, arith,
}
use libkolibre_xmlreader.Base.Outcome.{Outcome, done, ◌>>=◌, bind-eq-done, done_inj, if-eq-done}
use libkolibre_xmlreader.Stream.{InputStream, Got, got, failed, raised, Serves}
use libkolibre_xmlreader.Xml.Sax.{Libxml, SaxHandler, XmlReader}
use libkolibre_xmlreader.Xml.Reader.{
  Source, parse_chunk, parse_loop, parse, unmarked, mark, after_read, after_mark, after_chunk,
  is_empty, Parsed,
}
use libkolibre_xmlreader.Xml.Reader.Pieces.{Feeds, feeds, cleared, parse_loop-Feeds, unmarked-long}

-- The stream is read without a failure up to a read of nothing, or of the mark alone.
pub data Ends {S : Type 0} (i : InputStream S) : S → S → Type 0 where
  stops :
      {s t : S} {last : Bytes}
      → i.read_bytes 4096 s ≡ done (t, got last)
      → (last ≡ []) ⊎ (last ≡ mark)
      → Ends i s t
  goes :
      {s t u : S} {bytes : Bytes}
      → i.read_bytes 4096 s ≡ done (t, got bytes)
      → Ends i t u
      → Ends i s u

starts_with-split : (p s : Bytes) → starts_with p s ≡ true → s ≡ p ++ drop (length p) s
starts_with-split [] s h = refl
starts_with-split (c ∷ p) [] h = absurd (cc)
starts_with-split (c ∷ p) (x ∷ xs) h = ground (arith, starts_with-split p xs)

-- The test of the mark, and what it drops.
abbrev strip : Bool → Bytes → Bytes
strip b bytes = if b then drop 3 bytes else bytes

strip-empty :
    (b : Bool) (x : ℕ) (rest : Bytes)
    → starts_with mark (x ∷ rest) ≡ b
    → is_empty (strip b (x ∷ rest)) ≡ true
    → x ∷ rest ≡ mark
strip-empty true x rest p e =
    starts_with-split mark (x ∷ rest) p ∙ ap (◌++◌ mark) (nothing (drop 3 (x ∷ rest)) e)
  where
    nothing : (bytes : Bytes) → is_empty bytes ≡ true → bytes ≡ []
    nothing [] e = refl
    nothing (x ∷ rest) e = cc
strip-empty false x rest p e = absurd (cc)

not-true : (b : Bool) → not b ≡ true → b ≡ false
not-true true e = absurd (cc)
not-true false e = refl

-- What is read but leaves nothing is nothing, or the mark.
unmarked-empty :
    (look : Bool) (bytes : Bytes)
    → is_empty (unmarked look bytes).1 ≡ true
    → (bytes ≡ []) ⊎ (bytes ≡ mark)
unmarked-empty look [] e = inl refl
unmarked-empty false (a ∷ bytes) e = absurd (cc)
unmarked-empty true (a ∷ []) e = absurd (cc)
unmarked-empty true (a ∷ b ∷ []) e = absurd (cc)
unmarked-empty true (a ∷ b ∷ d ∷ rest) e =
    let bytes : Bytes = a ∷ b ∷ d ∷ rest in
    inr (
      strip-empty (starts_with mark bytes) a (b ∷ d ∷ rest) refl (
        ap is_empty (sym (ap (λ (x : Bool × Bytes). x.1) (unmarked-long bytes (omega arith)))) ∙ e))

module _ {A C S H : Type 0} (lib : Libxml C) (source : Source S H) (fuel : ℕ) (s : SaxHandler) where
  abbrev out : Parsed A C S H → Outcome (Option S × H × XmlReader A × C × Bool)
  out (x', r', c', b) = done (some x'.0, x'.1, r', c', b)

  -- A stream whose first read gives a UTF-8 byte order mark and nothing else counts as one at its
  -- end: parse returns true at once and hands nothing to libxml2, whatever the stream has behind the
  -- mark.
  pub parse-mark :
      (k : ℕ) (x : S) (h : H) (y : S × H) (r : XmlReader A) (c : C)
      → source.input.read_bytes 4096 (source.input.use_cache r.use_cache (x, h))
        ≡ done (y, got mark)
      → parse lib source fuel s (suc k) (some x) h r c ≡ done (some y.0, y.1, cleared r, c, true)
  unfolding parse parse_loop
  parse-mark k x h y r c e =
      ap
        (λ w.
          w
          >>= after_read lib source fuel s (parse_loop lib source fuel s k) true (cleared r) c
          >>= out)
        e

  late_mark :
      (k : ℕ) (t u y : S × H) (z : ℕ) (rest : Bytes) (pieces : List Bytes) (r r' : XmlReader A)
      (c c' : C)
      → length pieces < k
      → source.input.read_bytes 4096 t ≡ done (u, got (mark ++ z ∷ rest))
      → Serves source.input 4096 u pieces y
      → Feeds lib fuel s ((z ∷ rest) ∷ pieces) r c r' c'
      → parse_loop lib source fuel s (suc k) true t r c ≡ done (y, r', c', not r'.saw_error)
  unfolding parse_loop
  late_mark k t u y z rest pieces r r' c c' le e served (feeds {r1 = r1} {c1 = c1} q f) =
      ap (λ w. w >>= after_read lib source fuel s (parse_loop lib source fuel s k) true r c) e
      ∙ ap (after_mark lib source fuel s (parse_loop lib source fuel s k) u r c)
          (unmarked-long (mark ++ z ∷ rest) (omega arith))
      ∙ ap (λ w. w >>= after_chunk lib source fuel s (parse_loop lib source fuel s k) false u) q
      ∙ parse_loop-Feeds lib source fuel s k pieces u y r1 r' c1 c' le served f

  -- When the first read gives fewer than three bytes, the mark is looked for in the next one: three
  -- bytes EF BB BF are dropped from the middle of the document, and parse returns true all the same.
  -- The conditions are those of a parse that ends well.
  pub parse-short :
      (k : ℕ) (x : S) (h : H) (y t u : S × H) (a z : ℕ) (short rest : Bytes) (pieces : List Bytes)
      (r r' : XmlReader A) (c c' : C)
      → length (a ∷ short) < 3
      → length pieces < k
      → source.input.read_bytes 4096 (source.input.use_cache r.use_cache (x, h))
        ≡ done (t, got (a ∷ short))
      → source.input.read_bytes 4096 t ≡ done (u, got (mark ++ z ∷ rest))
      → Serves source.input 4096 u pieces y
      → Feeds lib fuel s ((a ∷ short) ∷ (z ∷ rest) ∷ pieces) (cleared r) c r' c'
      → parse lib source fuel s (suc (suc k)) (some x) h r c
        ≡ done (some y.0, y.1, r', c', not r'.saw_error)
  unfolding parse parse_loop
  parse-short k x h y t u a z (b ∷ d ∷ short) rest pieces r r' c c' few le e e' served f =
      absurd (omega arith)
  parse-short k x h y t u a z [] rest pieces r r' c c' few le e e' served (feeds p f) =
      ap
        (λ w.
          w
          >>= after_read lib source fuel s (parse_loop lib source fuel s (suc k)) true (cleared r) c
          >>= out)
        e
      ∙ ap
          (λ w.
            w
            >>= after_chunk lib source fuel s (parse_loop lib source fuel s (suc k)) true t
            >>= out)
          p
      ∙ ap (λ w. w >>= out) (late_mark k t u y z rest pieces _ r' _ c' le e' served f)
  parse-short k x h y t u a z (b ∷ []) rest pieces r r' c c' few le e e' served (feeds p f) =
      ap
        (λ w.
          w
          >>= after_read lib source fuel s (parse_loop lib source fuel s (suc k)) true (cleared r) c
          >>= out)
        e
      ∙ ap
          (λ w.
            w
            >>= after_chunk lib source fuel s (parse_loop lib source fuel s (suc k)) true t
            >>= out)
          p
      ∙ ap (λ w. w >>= out) (late_mark k t u y z rest pieces _ r' _ c' le e' served f)

  -- What the loop shows of a true result.
  abbrev Shows : (Bool → S × H → XmlReader A → C → Outcome (Parsed A C S H)) → Type 0
  Shows loop =
      (look : Bool) (x y : S × H) (r r' : XmlReader A) (c c' : C)
      → loop look x r c ≡ done (y, r', c', true)
      → Ends source.input x y × (r'.saw_error ≡ false)

  chunk-Shows :
      (loop : Bool → S × H → XmlReader A → C → Outcome (Parsed A C S H))
      → Shows loop
      → (look : Bool) (t y : S × H) (r r' : XmlReader A) (c c' : C) (ret : ℕ)
      → after_chunk lib source fuel s loop look t (r, c, ret) ≡ done (y, r', c', true)
      → Ends source.input t y × (r'.saw_error ≡ false)
  chunk-Shows loop ih look t y r r' c c' ret e = elim (if-eq-done (ret == 0) _ _ e) [
    | inl e ↦ ih look t y r r' c c' e
    | inr e ↦ let q : false ≡ true = ap (λ (x : Parsed A C S H). x.3) (done_inj e) in absurd (cc)
  ]

  mark-Shows :
      (loop : Bool → S × H → XmlReader A → C → Outcome (Parsed A C S H))
      → Shows loop
      → (x t y : S × H) (r r' : XmlReader A) (c c' : C) (bytes : Bytes) (look : Bool) (left : Bytes)
      → source.input.read_bytes 4096 x ≡ done (t, got bytes)
      → (is_empty left ≡ true → (bytes ≡ []) ⊎ (bytes ≡ mark))
      → after_mark lib source fuel s loop t r c (look, left) ≡ done (y, r', c', true)
      → Ends source.input x y × (r'.saw_error ≡ false)
  mark-Shows loop ih x t y r r' c c' bytes look [] e1 last e =
      let q : ◌≡◌ {A = Parsed A C S H} (t, r, c, not r.saw_error) (y, r', c', true) = done_inj e in
      (
        stops (e1 ∙ ap (λ (x : Parsed A C S H). done (x.0, got bytes)) q) (last refl),
        ap (λ (x : Parsed A C S H). x.1.saw_error) (sym q)
            ∙ not-true r.saw_error (ap (λ (x : Parsed A C S H). x.3) q),
      )
  mark-Shows loop ih x t y r r' c c' bytes look (a ∷ left) e1 last e =
      let ((r1, c1, ret), _, e2) =
        bind-eq-done (parse_chunk lib fuel s (a ∷ left) r c)
          (after_chunk lib source fuel s loop look t) e in
      let (ends, clean) = chunk-Shows loop ih look t y r1 r' c1 c' ret e2 in (goes e1 ends, clean)

  read-Shows :
      (loop : Bool → S × H → XmlReader A → C → Outcome (Parsed A C S H))
      → Shows loop
      → (look : Bool) (x t y : S × H) (r r' : XmlReader A) (c c' : C) (g : Got)
      → source.input.read_bytes 4096 x ≡ done (t, g)
      → after_read lib source fuel s loop look r c (t, g) ≡ done (y, r', c', true)
      → Ends source.input x y × (r'.saw_error ≡ false)
  read-Shows loop ih look x t y r r' c c' (raised m) e1 e = absurd (cc)
  read-Shows loop ih look x t y r r' c c' failed e1 e = absurd (cc)
  read-Shows loop ih look x t y r r' c c' (got bytes) e1 e =
      mark-Shows loop ih x t y r r' c c' bytes (unmarked look bytes).0 (unmarked look bytes).1 e1
        (unmarked-empty look bytes) e

  parse_loop-true :
      (k : ℕ) (look : Bool) (x y : S × H) (r r' : XmlReader A) (c c' : C)
      → parse_loop lib source fuel s k look x r c ≡ done (y, r', c', true)
      → Ends source.input x y × (r'.saw_error ≡ false)
  unfolding parse_loop
  parse_loop-true zero look x y r r' c c' e = absurd (cc)
  parse_loop-true (suc k) look x y r r' c c' e =
      let ((t, g), e1, e2) =
        bind-eq-done (source.input.read_bytes 4096 x)
          (after_read lib source fuel s (parse_loop lib source fuel s k) look r c) e in
      read-Shows (parse_loop lib source fuel s k)
        (λ look x y r r' c c' e. parse_loop-true k look x y r r' c c' e) look x t y r r' c c' g e1
        e2

  -- parse returns true only when there was a stream, which it read without a failure up to a read of
  -- nothing, or of a byte order mark alone, and the reader has recorded no error.
  pub parse-true :
      (k : ℕ) (d d' : Option S) (h h' : H) (r r' : XmlReader A) (c c' : C)
      → parse lib source fuel s k d h r c ≡ done (d', h', r', c', true)
      → (x : S) × (y : S × H) × (d ≡ some x)
        × (d' ≡ some y.0)
        × Ends source.input (source.input.use_cache r.use_cache (x, h)) y
        × (r'.saw_error ≡ false)
  unfolding parse
  parse-true k none d' h h' r r' c c' e =
      let q : false ≡ true = ap (λ (x : Option S × H × XmlReader A × C × Bool). x.4) (done_inj e) in
      absurd (cc)
  parse-true k (some x) d' h h' r r' c c' e =
      let ((y, r1, c1, b), e1, e2) =
        bind-eq-done
          (parse_loop lib source fuel s k true (source.input.use_cache r.use_cache (x, h))
            (cleared r) c)
          _ e in
      let q : ◌≡◌ {A = Option S × H × XmlReader A × C × Bool} (some y.0, y.1, r1, c1, b)
          (d', h', r', c', true) =
        done_inj e2 in
      let (ends, clean) = parse_loop-true k true _ y (cleared r) r1 c c1 (
        e1
        ∙ ap (λ b. done (y, r1, c1, b))
            (ap (λ (x : Option S × H × XmlReader A × C × Bool). x.4) q)) in
      (
        x,
        y,
        refl,
        sym (ap (λ (x : Option S × H × XmlReader A × C × Bool). x.0) q),
        ends,
        ap (λ (x : Option S × H × XmlReader A × C × Bool). x.2.saw_error) (sym q) ∙ clean,
      )
