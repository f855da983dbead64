-- ===== src/Tests/Elements.antt =====
-- Runs of the attributes and namespaces of an element at concrete inputs.
use libkolibre_xmlreader.Base.{◌≡◌, refl, inl, none, some, List, [], ◌∷◌, codes}
use libkolibre_xmlreader.Base.Outcome.{fault}
use libkolibre_xmlreader.Xml.Attributes.{local_name}
use libkolibre_xmlreader.Xml.Attributes.Lookup.{
  Attribute, End, valueless, attributes_of, local_name-prefixed,
}
use libkolibre_xmlreader.Xml.Namespaces.{new_stack}
use libkolibre_xmlreader.Xml.Namespaces.Nesting.{IsSound}

abbrev id : Attribute
id = (codes "id", codes "1")

abbrev lang : Attribute
lang = (codes "xml:lang", codes "sv")

abbrev two : List Attribute
two = id ∷ lang ∷ []

-- As for `<td id=1 xml:lang=sv nowrap class=x>`: the value of `class` is not found.
abbrev cell : End
cell = valueless (codes "nowrap") (some (codes "class") ∷ some (codes "x") ∷ none ∷ [])

local_name-prefixed_example : local_name (attributes_of two) 1 ≡ fault
local_name-prefixed_example =
    local_name-prefixed (id ∷ []) b'x' (codes "ml") (codes "lang") (codes "sv") [] refl

abbrev pub declaring : List Attribute
declaring = (codes "xmlns:a", codes "urn:a") ∷ id ∷ (codes "xmlns", codes "urn:b") ∷ []

pub new_stack-IsSound : IsSound new_stack
new_stack-IsSound = record { older = λ b o q e h. cc; fresh = λ b le. refl; top = inl refl }
