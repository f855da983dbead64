-- ===== src/Xml/Namespaces/Chain.antt =====
-- The namespaces from one up through its parents, and what the search for a prefix (uriForPrefix of
-- src/XmlReader.h) finds among them.
use libkolibre_xmlreader.Base.{
  ℕ, zero, suc, ◌≡◌, refl, ap, ◌∙◌, ◌<◌, Bool, true, false, Option, none, some, List, [], ◌∷◌,
  arith, Bytes, starts_with, if◌then◌else◌,
}
use libkolibre_xmlreader.Base.Outcome.{Outcome, done, ◌>>=◌}
use libkolibre_xmlreader.Xml.Namespaces.{XmlNamespace, Objects, uri_for_prefix}
use libkolibre_xmlreader.Xml.Namespaces.Balance.{ParentsOlder, at-live}
use libkolibre_xmlreader.Xml.Namespaces.Live.{IsLive, ParentsLive}

-- From an address on, or from none, these stand one above the other by their parents.
pub data Chain (objects : Objects) : Option ℕ → List XmlNamespace → Type 0 where
  ends :
      {at : Option ℕ} {chain : List XmlNamespace} → at ≡ none → chain ≡ [] → Chain objects at chain
  links :
      {at : Option ℕ} {chain : List XmlNamespace} (a : ℕ) (o : XmlNamespace)
      (rest : List XmlNamespace)
      → at ≡ some a
      → objects a ≡ some o
      → chain ≡ o ∷ rest
      → Chain objects o.parent rest
      → Chain objects at chain

-- The URI of the first whose prefix the name starts with.
abbrev pub first_uri : Bytes → List XmlNamespace → Option Bytes
first_uri name [] = none
first_uri name (o ∷ rest) = if starts_with o.prefix name then some o.uri else first_uri name rest

-- Where the parents of those that are there are there and older, the search for a prefix from one
-- that is there gives the URI of the first, among it and those above it in their order, whose prefix
-- the name starts with, or none when there is no such one. The condition is that the fuel is above
-- the address.
pub uri_for_prefix-first_uri :
    (fuel : ℕ) (objects : Objects) (a : ℕ) (name : Bytes)
    → ParentsOlder objects
    → ParentsLive objects
    → IsLive objects a
    → a < fuel
    → (chain : List XmlNamespace) × Chain objects (some a) chain
      × (uri_for_prefix fuel objects a name ≡ done (first_uri name chain))
unfolding uri_for_prefix IsLive ParentsLive
uri_for_prefix-first_uri zero objects a name older live (o, e) lt = absurd (omega arith)
uri_for_prefix-first_uri (suc fuel) objects a name older live (o, e) lt =
    let (rest, above, found) = by_parent o.parent (λ p n.
      uri_for_prefix-first_uri fuel objects p name older live (live a p o e n)
        (omega (arith, older a o p e n))) in
    (
      o ∷ rest,
      links a o rest refl e refl above,
      ap (λ m. m >>= step) (at-live objects a o e)
          ∙ by_prefix (starts_with o.prefix name) o rest found,
    )
  where
    step : XmlNamespace → Outcome (Option Bytes)
    step o' = elim (starts_with o'.prefix name) [
      | true ↦ done (some o'.uri)
      | false ↦ elim o'.parent [ none ↦ done none | some p ↦ uri_for_prefix fuel objects p name ]
    ]

    Finds : Option ℕ → Type 0
    Finds q =
        (rest : List XmlNamespace) × Chain objects q rest
        × ((elim q [ none ↦ done none | some p ↦ uri_for_prefix fuel objects p name ])
            ≡ done (first_uri name rest))

    by_parent :
        (q : Option ℕ)
        → ((p : ℕ)
            → q ≡ some p
            → (rest : List XmlNamespace) × Chain objects (some p) rest
              × (uri_for_prefix fuel objects p name ≡ done (first_uri name rest)))
        → Finds q
    by_parent none f = ([], ends refl refl, refl)
    by_parent (some p) f = f p refl

    by_prefix :
        (b : Bool) (x : XmlNamespace) (rest : List XmlNamespace)
        → ((elim x.parent [ none ↦ done none | some p ↦ uri_for_prefix fuel objects p name ])
            ≡ done (first_uri name rest))
        → (elim b [
          | true ↦ done (some x.uri)
          | false ↦ elim x.parent [ none ↦ done none | some p ↦ uri_for_prefix fuel objects p name ]
        ])
          ≡ done (if b then some x.uri else first_uri name rest)
    by_prefix true x rest d = refl
    by_prefix false x rest d = d
