-- ===== src/Xml/Attributes.antt =====
-- src/XmlAttributes.h and src/XmlAttributes.cpp. libxml2 gives an array of pointers to names and
-- values in turn, which ends in NULL. An array is the list of what stands in it; a read behind its
-- end has no defined behaviour.
pub mod Lookup
use libkolibre_xmlreader.Base.{
  ℕ, zero, suc, ◌+◌, ◌*◌, Option, none, some, List, [], ◌∷◌, if◌then◌else◌, Bytes, bytes_eq, codes,
  find,
}
use libkolibre_xmlreader.Base.Outcome.{Outcome, done, fault, ◌>>=◌}

pub record XmlAttributes : Type 0 where
  pub length : ℕ
  pub attributes : List (Option Bytes)

-- `for (p = aptr; *p && p[1] != NULL; p += 2) _length++`
count : List (Option Bytes) → Outcome ℕ
count [] = fault
count (none ∷ rest) = done 0
count (some name ∷ []) = fault
count (some name ∷ none ∷ rest) = done 0
count (some name ∷ some value ∷ rest) = count rest >>= λ n. done (suc n)

-- The constructors; `none` is a NULL pointer, or no argument.
unfoldable pub new_attributes : Option (List (Option Bytes)) → Outcome XmlAttributes
unfolding count
new_attributes none = done (record { length = 0; attributes = [] })
new_attributes (some array) = count array >>= λ n. done (record { length = n; attributes = array })

read_at : List (Option Bytes) → ℕ → Outcome (Option Bytes)
read_at [] i = fault
read_at (p ∷ rest) zero = done p
read_at (p ∷ rest) (suc i) = read_at rest i

-- qName and getQName
unfoldable pub q_name : XmlAttributes → ℕ → Outcome (Option Bytes)
unfolding read_at
q_name a index = read_at a.attributes (index * 2)

-- value and getValue of an index
unfoldable pub value_at : XmlAttributes → ℕ → Outcome (Option Bytes)
unfolding read_at
value_at a index = read_at a.attributes (index * 2 + 1)

-- The loop of value and getValue of a name, with as many attributes to go.
search_value : Bytes → ℕ → List (Option Bytes) → Outcome (Option Bytes)
search_value name zero rest = done none
search_value name (suc n) (some k ∷ v ∷ rest) =
    if bytes_eq name k then done v else search_value name n rest
search_value name (suc n) _ = fault

-- value and getValue of a name
unfoldable pub value : XmlAttributes → Bytes → Outcome (Option Bytes)
unfolding search_value
value a name = search_value name a.length a.attributes

-- `_names(index) + (_names(index) - colonPtr)`, where the colon stands at a position: no pointer
-- into the name, but for position 0.
behind_colon : Bytes → Option ℕ → Outcome (Option Bytes)
behind_colon name none = done (some name)
behind_colon name (some zero) = done (some name)
behind_colon name (some (suc p)) = fault

unfoldable pub local_name : XmlAttributes → ℕ → Outcome (Option Bytes)
unfolding behind_colon q_name
local_name a index = q_name a index >>= λ p. elim p [
  | none ↦ done none
  | some name ↦ behind_colon name (find (codes ":") name)
]

-- split, which is disabled.
unfoldable pub split : XmlAttributes → XmlAttributes
split a = a
