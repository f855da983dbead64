-- ===== src/Tidy/Modes.antt =====
-- Which documents src/TidyStream.cpp puts through libtidy.
use libkolibre_xmlreader.Base.{
  ℕ, suc, ◌^◌, ◌<◌, ◌≡◌, refl, ap, ◌∙◌, Bool, true, Option, none, some, [], ◌∷◌, ◌++◌, ◌==◌,
  if◌then◌else◌, Bytes, codes, starts_with, length, arith, length-append,
}
use libkolibre_xmlreader.Cache.Object.{sub64}
use libkolibre_xmlreader.Tidy.{new_tidy, rfind, is_smil_at, passthrough, tidy}

rfind-end : (front : Bytes) → rfind (codes ".smil") (front ++ codes ".smil") ≡ some (length front)
unfolding rfind
rfind-end [] = refl
rfind-end (x ∷ front) =
    ap
      (λ (o : Option ℕ). elim o [
        | some i ↦ some (suc i)
        | none ↦ if starts_with (codes ".smil") (x ∷ front ++ codes ".smil") then some 0 else none
      ])
      (rfind-end front)

module _ {S : Type 0} where
  -- A document whose name ends in `.smil` is passed on as it is.
  pub new_tidy-smil :
      (front : Bytes) (s : S)
      → length front < 2 ^ 63
      → (new_tidy (front ++ codes ".smil") s).mode ≡ passthrough
  unfolding new_tidy
  new_tidy-smil front s w =
      ap (λ (o : Option ℕ). if is_smil_at o (front ++ codes ".smil") then passthrough else tidy)
        (rfind-end front)
      ∙ ap (λ (b : Bool). if b then passthrough else tidy) at_end
    where
      at_end : (length front == sub64 (length (front ++ codes ".smil")) 5) ≡ true
      at_end = ground (arith, length-append front (codes ".smil"))

  -- So is each document whose name has four bytes, whatever they are: its length less five wraps around
  -- to the number that stands for no position.
  pub new_tidy-short : (a b c d : ℕ) (s : S) → (new_tidy (a ∷ b ∷ c ∷ d ∷ []) s).mode ≡ passthrough
  unfolding new_tidy rfind
  new_tidy-short a b c d s =
      ap (λ (o : Option ℕ). if is_smil_at o (a ∷ b ∷ c ∷ d ∷ []) then passthrough else tidy) nowhere
    where
      nowhere : rfind (codes ".smil") (a ∷ b ∷ c ∷ d ∷ []) ≡ none
      nowhere = ground arith
