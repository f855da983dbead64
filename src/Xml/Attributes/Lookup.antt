-- ===== src/Xml/Attributes/Lookup.antt =====
-- What the attributes of src/XmlAttributes.cpp answer, for the NULL or the array that libxml2 gives.
use libkolibre_xmlreader.Base.{
  ℕ, suc, ◌+◌, ◌*◌, ◌≡◌, refl, ap, ◌∙◌, false, Option, none, some, List, [], ◌∷◌, ◌++◌,
  if◌then◌else◌, arith, Bytes, bytes_eq, codes, contains_byte, find, find-append, length,
}
use libkolibre_xmlreader.Base.Outcome.{Outcome, done, fault, ◌>>=◌}
use libkolibre_xmlreader.Xml.Attributes.{
  XmlAttributes, count, new_attributes, read_at, q_name, behind_colon, local_name,
}

abbrev pub Attribute : Type 0
Attribute = Bytes × Bytes

-- The array for a list of names with their values.
abbrev pub array_of : List Attribute → List (Option Bytes)
array_of [] = none ∷ []
array_of ((k, v) ∷ rest) = some k ∷ some v ∷ array_of rest

abbrev pub attributes_of : List Attribute → XmlAttributes
attributes_of pairs = record { length = length pairs; attributes = array_of pairs }

-- How an array ends behind its attributes: with NULL, or with a name that has no value, where the
-- constructor stops counting, and whatever stands behind it.
pub data End : Type 0 where
  null : End
  valueless : Bytes → List (Option Bytes) → End

abbrev pub ending : End → List (Option Bytes)
ending null = none ∷ []
ending (valueless k rest) = some k ∷ none ∷ rest

abbrev pub array_with : List Attribute → End → List (Option Bytes)
array_with [] e = ending e
array_with ((k, v) ∷ rest) e = some k ∷ some v ∷ array_with rest e

-- What libxml2 gives for the attributes of an element: NULL, or an array.
pub data Given : Type 0 where
  absent : Given
  present : List Attribute → End → Given

abbrev pub pairs_of : Given → List Attribute
pairs_of absent = []
pairs_of (present pairs e) = pairs

abbrev pub array_given : Given → Option (List (Option Bytes))
array_given absent = none
array_given (present pairs e) = some (array_with pairs e)

abbrev pub attributes_given : Given → XmlAttributes
attributes_given absent = record { length = 0; attributes = [] }
attributes_given (present pairs e) = record {
  length = length pairs;
  attributes = array_with pairs e;
}

-- The value that goes with the first name that matches.
abbrev pub first_value : Bytes → List Attribute → Option Bytes
first_value name [] = none
first_value name ((k, v) ∷ rest) = if bytes_eq name k then some v else first_value name rest

count-array_with :
    (pairs : List Attribute) (e : End) → count (array_with pairs e) ≡ done (length pairs)
unfolding count
count-array_with [] null = refl
count-array_with [] (valueless k rest) = refl
count-array_with ((k, v) ∷ rest) e =
    ap (λ (m : Outcome ℕ). m >>= λ n. done (suc n)) (count-array_with rest e)

read_at-array_with :
    (front : List Attribute) (k v : Bytes) (back : List Attribute) (e : End)
    → (read_at (array_with (front ++ (k, v) ∷ back) e) (length front * 2) ≡ done (some k))
      × (read_at (array_with (front ++ (k, v) ∷ back) e) (length front * 2 + 1) ≡ done (some v))
unfolding read_at
read_at-array_with [] k v back e = (refl, refl)
read_at-array_with (p ∷ front) k v back e =
    let (a, b) = read_at-array_with front k v back e in
    let q : length (p ∷ front) * 2 ≡ suc (suc (length front * 2)) = omega arith in
    let q' : length (p ∷ front) * 2 + 1 ≡ suc (suc (length front * 2 + 1)) = omega arith in
    (
      ap (read_at (array_with (p ∷ front ++ (k, v) ∷ back) e)) q ∙ a,
      ap (read_at (array_with (p ∷ front ++ (k, v) ∷ back) e)) q' ∙ b,
    )

array_of-array_with : (pairs : List Attribute) → array_of pairs ≡ array_with pairs null
array_of-array_with [] = refl
array_of-array_with ((k, v) ∷ rest) = ap (λ x. some k ∷ some v ∷ x) (array_of-array_with rest)

pub new_attributes-array_given :
    (g : Given) → new_attributes (array_given g) ≡ done (attributes_given g)
unfolding new_attributes
new_attributes-array_given absent = refl
new_attributes-array_given (present pairs e) =
    ap (λ (m : Outcome ℕ). m >>= λ n. done (record { length = n; attributes = array_with pairs e }))
      (count-array_with pairs e)

-- A prefixed attribute has no local name: for a name with a colon that is not its first byte, the
-- pointer that localName makes stands before the name.
pub local_name-prefixed :
    (front : List Attribute) (c : ℕ) (prefix local v : Bytes) (back : List Attribute)
    → contains_byte b':' (c ∷ prefix) ≡ false
    → local_name (attributes_of (front ++ (c ∷ prefix ++ b':' ∷ local, v) ∷ back)) (length front)
      ≡ fault
unfolding local_name q_name
local_name-prefixed front c prefix local v back h =
    ap
      (λ (m : Outcome (Option Bytes)). m >>= λ p. elim p [
        | none ↦ done none
        | some name ↦ behind_colon name (find (codes ":") name)
      ])
      (ap (λ x. read_at x (length front * 2))
          (array_of-array_with (front ++ (c ∷ prefix ++ b':' ∷ local, v) ∷ back))
        ∙ (read_at-array_with front (c ∷ prefix ++ b':' ∷ local) v back null).0)
    ∙ ap (behind_colon (c ∷ prefix ++ b':' ∷ local)) (find-append b':' (c ∷ prefix) local h)
