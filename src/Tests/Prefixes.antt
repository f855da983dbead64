-- ===== src/Tests/Prefixes.antt =====
-- A search for a prefix (uriForPrefix of src/XmlReader.h) at a concrete input.
use libkolibre_xmlreader.Base.{
  ℕ, ◌≡◌, refl, ap, ◌∙◌, ◌⊎◌, inl, inr, none, some, List, ◌==◌, arith, Bool-cases, codes,
}
use libkolibre_xmlreader.Base.Outcome.{done}
use libkolibre_xmlreader.Xml.Namespaces.{XmlNamespace, Objects, set, root, uri_for_prefix}
use libkolibre_xmlreader.Xml.Namespaces.Balance.{ParentsOlder}
use libkolibre_xmlreader.Xml.Namespaces.Live.{IsLive, ParentsLive}
use libkolibre_xmlreader.Xml.Namespaces.Chain.{Chain, first_uri, uri_for_prefix-first_uri}

-- Three namespaces: the one at 5 has that at 4 for a parent, and this the root at 3.
abbrev prefix_b : XmlNamespace
prefix_b = record { prefix = codes "b"; uri = codes "urn:b"; parent = some 3; ref = 1 }

abbrev prefix_a : XmlNamespace
prefix_a = record { prefix = codes "a"; uri = codes "urn:a"; parent = some 4; ref = 1 }

abbrev three : Objects
three = set (set (set (λ a. none) 3 (some root)) 4 (some prefix_b)) 5 (some prefix_a)

three-parent :
    (b p : ℕ) (o : XmlNamespace)
    → three b ≡ some o
    → o.parent ≡ some p
    → ((b ≡ 5) × (p ≡ 4)) ⊎ ((b ≡ 4) × (p ≡ 3))
three-parent b p o h n = elim (Bool-cases (b == 5)) [
  | inl e ↦
      let f : prefix_a ≡ o = ground (arith, e, h) in
      let g : some 4 ≡ some p = ap (λ (x : XmlNamespace). x.parent) f ∙ n in
      inl (ground (arith, e), ground (arith, g))
  | inr e ↦ elim (Bool-cases (b == 4)) [
    | inl e' ↦
        let f : prefix_b ≡ o = ground (arith, e, e', h) in
        let g : some 3 ≡ some p = ap (λ (x : XmlNamespace). x.parent) f ∙ n in
        inr (ground (arith, e'), ground (arith, g))
    | inr e' ↦ elim (Bool-cases (b == 3)) [
      | inl e'' ↦
          let f : root ≡ o = ground (arith, e, e', e'', h) in
          let g : none ≡ some p = ap (λ (x : XmlNamespace). x.parent) f ∙ n in absurd (cc)
      | inr e'' ↦ absurd (ground (arith, e, e', e'', h))
    ]
  ]
]

three-ParentsOlder : ParentsOlder three
three-ParentsOlder b o p h n = elim (three-parent b p o h n) [
  | inl (e, e') ↦ omega arith
  | inr (e, e') ↦ omega arith
]

three-ParentsLive : ParentsLive three
unfolding ParentsLive IsLive
three-ParentsLive b p o h n = elim (three-parent b p o h n) [
  | inl (e, e') ↦ (prefix_b, ap three e')
  | inr (e, e') ↦ (root, ap three e')
]

three-IsLive : IsLive three 5
unfolding IsLive
three-IsLive = (prefix_a, refl)

uri_for_prefix-first_uri_example :
    (chain : List XmlNamespace) × Chain three (some 5) chain
    × (uri_for_prefix 6 three 5 (codes "b:x") ≡ done (first_uri (codes "b:x") chain))
uri_for_prefix-first_uri_example =
    uri_for_prefix-first_uri 6 three 5 (codes "b:x") three-ParentsOlder three-ParentsLive
      three-IsLive (omega arith)
