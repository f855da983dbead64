-- ===== src/Tests/Strings.antt =====
-- Cutting texts as transcode of src/XmlReader.cpp does, at concrete inputs.
use libkolibre_xmlreader.Base.{
  ℕ, suc, ◌≡◌, refl, ap, false, some, List, [], ◌∷◌, Bytes, codes, contains_byte, take, arith,
}
use libkolibre_xmlreader.Base.Outcome.{fault}
use libkolibre_xmlreader.Http.Stream.{live}
use libkolibre_xmlreader.Xml.Strings.{Locale, transcode_cut}
use libkolibre_xmlreader.Xml.Strings.Cut.{IsCoding, encode, fitting, transcode_cut_lem}

-- A coding of two bytes for each character.
abbrev two_bytes : ℕ → Bytes
two_bytes c = 195 ∷ suc c ∷ []

abbrev decode : Bytes → List ℕ
decode (a ∷ suc b ∷ rest) = b ∷ decode rest
decode _ = []

abbrev wide : Locale
wide = record {
  mbstowcs = λ text n. some (take n (decode text));
  wcstombs = λ cs n. some (fitting two_bytes n cs);
}

abbrev IsAny : List ℕ → Type 0
IsAny cs = cs ≡ cs

decode-encode : (cs : List ℕ) → decode (encode two_bytes cs) ≡ cs
decode-encode [] = refl
decode-encode (c ∷ cs) = ap (◌∷◌ c) (decode-encode cs)

encode-nul : (cs : List ℕ) → contains_byte 0 (encode two_bytes cs) ≡ false
encode-nul [] = refl
encode-nul (c ∷ cs) = ground (arith, encode-nul cs)

wide-IsCoding : IsCoding wide two_bytes IsAny
wide-IsCoding = record {
  decodes = λ cs n t. ap (λ x. some (take n x)) (decode-encode cs);
  encodes = λ cs n t. refl;
  fronts = λ cs n t. refl;
  no_nul = λ cs t. encode-nul cs;
}

-- Two characters of two bytes each are cut to one, and that runs over the array.
transcode_cut_lem_example : transcode_cut wide (live 5 (encode two_bytes (codes "ab"))) 1 ≡ fault
transcode_cut_lem_example =
    transcode_cut_lem wide two_bytes IsAny (codes "ab") 5 1 wide-IsCoding refl
