-- ===== src/Xml/Strings/Cut.antt =====
-- How transcode of src/XmlReader.cpp cuts a text to a number of characters.
use libkolibre_xmlreader.Base.{
  ℕ, ◌+◌, ◌-◌, ◌*◌, ◌≡◌, refl, sym, ap, ◌∙◌, inl, inr, Bool, false, ◌||◌, some, List, [], ◌∷◌, ◌++◌,
  joined, map, ltb, leb, if◌then◌else◌, Bytes, length, take, length-take, arith, append_assoc,
  c_str-whole, contains_byte, contains_byte-append, Bool-cases, lt→ltb,
}
use libkolibre_xmlreader.Base.Outcome.{done, fault}
use libkolibre_xmlreader.Http.Stream.{live, duplicate}
use libkolibre_xmlreader.Xml.Strings.{Locale, end_buffer, end_wide, transcode_cut}

front_of : (a b : Bool) → (a || b) ≡ false → a ≡ false
front_of a b h = ground arith

module _ (enc : ℕ → Bytes) where
  -- The bytes of a text.
  abbrev pub encode : List ℕ → Bytes
  encode cs = joined (map enc cs)

  -- The characters at its front that take no more than `n` bytes.
  abbrev pub fitting : ℕ → List ℕ → Bytes
  fitting n [] = []
  fitting n (c ∷ cs) =
      let rest = fitting (n - length (enc c)) cs in
      if leb (length (enc c)) n then enc c ++ rest else []

  fitting-front : (n : ℕ) (cs : List ℕ) → (back : Bytes) × (encode cs ≡ fitting n cs ++ back)
  fitting-front n [] = ([], refl)
  fitting-front n (c ∷ cs) =
      let (back, e) = fitting-front (n - length (enc c)) cs in
      elim (Bool-cases (leb (length (enc c)) n)) [
        | inl h ↦ (
          back,
          ap (◌++◌ (enc c)) e
              ∙ sym (append_assoc (enc c) (fitting (n - length (enc c)) cs) back)
              ∙ ap (λ b. (if b then enc c ++ fitting (n - length (enc c)) cs else []) ++ back)
                  (sym h),
        )
        | inr h ↦ (
          encode (c ∷ cs),
          ap (λ b. (if b then enc c ++ fitting (n - length (enc c)) cs else []) ++ encode (c ∷ cs))
              (sym h),
        )
      ]

  fitting-nul :
      (n : ℕ) (cs : List ℕ)
      → contains_byte 0 (encode cs) ≡ false
      → contains_byte 0 (fitting n cs) ≡ false
  fitting-nul n cs h =
      let (back, e) = fitting-front n cs in
      front_of (contains_byte 0 (fitting n cs)) (contains_byte 0 back)
        (sym (contains_byte-append 0 (fitting n cs) back) ∙ ap (contains_byte 0) (sym e) ∙ h)

-- What the C library documents of a locale, for the texts that it can encode: mbstowcs stores the
-- first characters, and wcstombs the bytes of those that fit whole.
pub record IsCoding (l : Locale) (enc : ℕ → Bytes) (IsText : List ℕ → Type 0) : Type 0 where
  pub decodes : (cs : List ℕ) (n : ℕ) → IsText cs → l.mbstowcs (encode enc cs) n ≡ some (take n cs)
  pub encodes : (cs : List ℕ) (n : ℕ) → IsText cs → l.wcstombs cs n ≡ some (fitting enc n cs)
  pub fronts : (cs : List ℕ) (n : ℕ) → IsText cs → IsText (take n cs)
  pub no_nul : (cs : List ℕ) → IsText cs → contains_byte 0 (encode enc cs) ≡ false

-- Cutting a text to `size` characters gives a copy of the bytes of those of the first `size` characters
-- that take at most 2 * size bytes, as long as that is less than 2 * size bytes; if they take just
-- these, the end is written behind the array, which is undefined. The condition is that the locale
-- can encode the text. The source's comment on transcode calls `size` a number of bytes.
pub transcode_cut_lem :
    (l : Locale) (enc : ℕ → Bytes) (IsText : List ℕ → Type 0) (cs : List ℕ) (room size : ℕ)
    → IsCoding l enc IsText
    → IsText cs
    → transcode_cut l (live room (encode enc cs)) size ≡ (
        let front = fitting enc (size * 2) (take size cs) in
        if ltb (length front) (size * 2) then done (duplicate (some front)) else fault)
unfolding transcode_cut end_wide end_buffer
transcode_cut_lem l enc IsText cs room size law text =
    ap (λ b. end_wide l size (l.mbstowcs b size)) (c_str-whole (encode enc cs) (law.no_nul cs text))
    ∙ ap (end_wide l size) (law.decodes cs size text)
    ∙ ap (λ b. if b then end_buffer size (l.wcstombs (take size cs) (size * 2)) else fault)
        (lt→ltb (length (take size cs)) (size + 1) (omega (arith, length-take size cs)))
    ∙ ap (end_buffer size) (law.encodes (take size cs) (size * 2) (law.fronts cs size text))
    ∙ ap
        (λ b.
          let front = fitting enc (size * 2) (take size cs) in
          if ltb (length front) (size * 2) then done (duplicate (some b)) else fault)
        (c_str-whole (fitting enc (size * 2) (take size cs)) (
          fitting-nul enc (size * 2) (take size cs)
            (law.no_nul (take size cs) (law.fronts cs size text))))
