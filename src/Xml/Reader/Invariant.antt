-- ===== src/Xml/Reader/Invariant.antt =====
-- What the callbacks keep is kept by the loop of parse in src/XmlReader.cpp.
use libkolibre_xmlreader.Base.{
  ℕ, zero, suc, ◌≡◌, inl, inr, refl, sym, subst, ap, ◌∙◌, Bool, true, false, not, Option, none,
  some, [], ◌∷◌, ◌==◌, Bytes,
}
use libkolibre_xmlreader.Base.Outcome.{Outcome, done, ◌>>=◌, bind-eq-done, done_inj, if-eq-done}
use libkolibre_xmlreader.Http.Error.{XmlError}
use libkolibre_xmlreader.Stream.{Got, got, failed, raised}
use libkolibre_xmlreader.Xml.Sax.{Libxml, SaxHandler, XmlReader, Event, handle}
use libkolibre_xmlreader.Xml.Reader.{
  Source, calls, callback, drive, parse_chunk, parse_loop, unmarked, after_read, after_mark,
  after_chunk, fails, Parsed,
}

module _ {A C : Type 0} (lib : Libxml C) (fuel : ℕ) (s : SaxHandler) (P : XmlReader A → Type 0)
    (each : (e : Event) (r r' : XmlReader A) (c c' : C)
      → calls s e ≡ true
      → handle lib fuel e r c ≡ done (r', c')
      → P r
      → P r') where
  reader_of :
      {r r' : XmlReader A} {c c' : C}
      → ◌≡◌ {A = Outcome (XmlReader A × C)} (done (r, c)) (done (r', c'))
      → r ≡ r'
  reader_of e =
      let q : ◌≡◌ {A = XmlReader A × C} _ _ = done_inj e in ap (λ (x : XmlReader A × C). x.0) q

  callback-Keeps :
      (b : Bool) (e : Event) (r r' : XmlReader A) (c c' : C)
      → calls s e ≡ b
      → callback lib fuel b e r c ≡ done (r', c')
      → P r
      → P r'
  callback-Keeps true e r r' c c' q d p = each e r r' c c' q d p
  callback-Keeps false e r r' c c' q d p = subst P (reader_of d) p

  event-Keeps :
      (next : XmlReader A → C → Outcome (XmlReader A × C)) (r r' : XmlReader A) (c c' : C)
      → ((r1 : XmlReader A) (c1 : C) → next r1 c1 ≡ done (r', c') → P r1 → P r')
      → (event : Option Event)
      → ◌≡◌ {A = Outcome (XmlReader A × C)}
          (elim event [
            | none ↦ done (r, c)
            | some e ↦ callback lib fuel (calls s e) e r c >>= λ (r', c'). next r' c'
          ])
          (done (r', c'))
      → P r
      → P r'
  event-Keeps next r r' c c' ih none d p = subst P (reader_of d) p
  event-Keeps next r r' c c' ih (some e) d p =
      let ((r1, c1), d1, d2) =
        bind-eq-done (callback lib fuel (calls s e) e r c) (λ (r', c'). next r' c') d in
      ih r1 c1 d2 (callback-Keeps (calls s e) e r r1 c c1 refl d1 p)

  drive-Keeps :
      (k : ℕ) (r r' : XmlReader A) (c c' : C) → drive lib fuel k s r c ≡ done (r', c') → P r → P r'
  unfolding drive
  drive-Keeps zero r r' c c' d p = absurd (cc)
  drive-Keeps (suc k) r r' c c' d p =
      event-Keeps (drive lib fuel k s) r r' (lib.callback c).0 c'
        (λ r1 c1 d p. drive-Keeps k r1 r' c1 c' d p) (lib.callback c).1 d p

  parse_chunk-Keeps :
      (bytes : Bytes) (r r' : XmlReader A) (c c' : C) (ret : ℕ)
      → parse_chunk lib fuel s bytes r c ≡ done (r', c', ret)
      → P r
      → P r'
  unfolding parse_chunk
  parse_chunk-Keeps bytes r r' c c' ret d p =
      let ((r1, c1), d1, d2) =
        bind-eq-done (drive lib fuel fuel s r (lib.chunk r.doctype bytes c))
          (λ (r', c'). done (r', c', lib.result c')) d in
      let q : ◌≡◌ {A = XmlReader A × C × ℕ} (r1, c1, lib.result c1) (r', c', ret) = done_inj d2 in
      subst P (ap (λ (x : XmlReader A × C × ℕ). x.0) q)
        (drive-Keeps fuel r r1 (lib.chunk r.doctype bytes c) c1 d1 p)

  module _ {S H : Type 0} (source : Source S H)
      (failing : (e : XmlError) (r : XmlReader A) → P r → P (fails e r)) where
    -- What the loop comes to.
    abbrev pub Kept : XmlReader A → Bool → Type 0
    Kept r b = P r × (b ≡ not r.saw_error)

    abbrev Keeps : (Bool → S × H → XmlReader A → C → Outcome (Parsed A C S H)) → Type 0
    Keeps loop =
        (look : Bool) (x y : S × H) (r r' : XmlReader A) (c c' : C) (b : Bool)
        → loop look x r c ≡ done (y, r', c', b)
        → P r
        → Kept r' b

    ends-Kept :
        {x y : S × H} {r r' : XmlReader A} {c c' : C} {a b : Bool}
        → ◌≡◌ {A = Outcome (Parsed A C S H)} (done (x, r, c, a)) (done (y, r', c', b))
        → Kept r a
        → Kept r' b
    ends-Kept e (p, q) =
        let w : ◌≡◌ {A = Parsed A C S H} _ _ = done_inj e in
        (
          subst P (ap (λ (x : Parsed A C S H). x.1) w) p,
          ap (λ (x : Parsed A C S H). x.3) (sym w)
              ∙ q
              ∙ ap (λ (x : Parsed A C S H). not x.1.saw_error) w,
        )

    after_chunk-Keeps :
        (loop : Bool → S × H → XmlReader A → C → Outcome (Parsed A C S H))
        → Keeps loop
        → (look : Bool) (x y : S × H) (r r' : XmlReader A) (c c' : C) (ret : ℕ) (b : Bool)
        → after_chunk lib source fuel s loop look x (r, c, ret) ≡ done (y, r', c', b)
        → P r
        → Kept r' b
    after_chunk-Keeps loop ih look x y r r' c c' ret b e p = elim (if-eq-done (ret == 0) _ _ e) [
      | inl e ↦ ih look x y r r' c c' b e p
      | inr e ↦ ends-Kept e (failing _ r p, refl)
    ]

    after_mark-Keeps :
        (loop : Bool → S × H → XmlReader A → C → Outcome (Parsed A C S H))
        → Keeps loop
        → (x y : S × H) (r r' : XmlReader A) (c c' : C) (look : Bool) (left : Bytes) (b : Bool)
        → after_mark lib source fuel s loop x r c (look, left) ≡ done (y, r', c', b)
        → P r
        → Kept r' b
    after_mark-Keeps loop ih x y r r' c c' look [] b e p = ends-Kept e (p, refl)
    after_mark-Keeps loop ih x y r r' c c' look (a ∷ left) b e p =
        let ((r1, c1, ret), d, e2) =
          bind-eq-done (parse_chunk lib fuel s (a ∷ left) r c)
            (after_chunk lib source fuel s loop look x) e in
        after_chunk-Keeps loop ih look x y r1 r' c1 c' ret b e2
          (parse_chunk-Keeps (a ∷ left) r r1 c c1 ret d p)

    after_read-Keeps :
        (loop : Bool → S × H → XmlReader A → C → Outcome (Parsed A C S H))
        → Keeps loop
        → (look : Bool) (x y : S × H) (r r' : XmlReader A) (c c' : C) (g : Got) (b : Bool)
        → after_read lib source fuel s loop look r c (x, g) ≡ done (y, r', c', b)
        → P r
        → Kept r' b
    after_read-Keeps loop ih look x y r r' c c' (raised m) b e p = ends-Kept e (failing _ r p, refl)
    after_read-Keeps loop ih look x y r r' c c' failed b e p = ends-Kept e (failing _ r p, refl)
    after_read-Keeps loop ih look x y r r' c c' (got bytes) b e p =
        after_mark-Keeps loop ih x y r r' c c' (unmarked look bytes).0 (unmarked look bytes).1 b e p

    -- The loop of parse keeps what the callbacks keep, and what a failure keeps; and it returns true
    -- just when no error was recorded.
    pub parse_loop-Keeps :
        (k : ℕ) (look : Bool) (x y : S × H) (r r' : XmlReader A) (c c' : C) (b : Bool)
        → parse_loop lib source fuel s k look x r c ≡ done (y, r', c', b)
        → P r
        → Kept r' b
    unfolding parse_loop
    parse_loop-Keeps zero look x y r r' c c' b e p = absurd (cc)
    parse_loop-Keeps (suc k) look x y r r' c c' b e p =
        let ((t, g), _, e2) =
          bind-eq-done (source.input.read_bytes 4096 x)
            (after_read lib source fuel s (parse_loop lib source fuel s k) look r c) e in
        after_read-Keeps (parse_loop lib source fuel s k)
          (λ look x y r r' c c' b e p. parse_loop-Keeps k look x y r r' c c' b e p) look t y r r' c
          c' g b e2 p
