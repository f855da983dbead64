-- ===== src/Xml/Namespaces.antt =====
-- XmlNamespace and nsStackItem of src/XmlReader.h, and pushNamespaces, popNamespaces and xmlNamespace
-- of src/XmlReader.cpp, with what startElementHandler and endElementHandler do to the namespaces.
--
-- The objects stand in a store: an address that holds nothing was never given out, or its object was
-- deleted. A new object gets the next address. `m_ref` is a natural number: an object whose counter
-- would fall to zero or below is deleted, so that no smaller number is ever read.
pub mod Balance
pub mod Live
pub mod Chain
pub mod Declaring
pub mod Nesting
pub mod Teardown
use libkolibre_xmlreader.Base.{
  ℕ, zero, suc, ◌+◌, ◌-◌, Bool, true, false, Option, none, some, List, [], ◌∷◌, ◌==◌, leb,
  if◌then◌else◌, Bytes, bytes_eq, codes, starts_with, drop,
}
use libkolibre_xmlreader.Base.Outcome.{Outcome, done, fault, spins, ◌>>=◌}
use libkolibre_xmlreader.Xml.Attributes.{XmlAttributes}

pub record XmlNamespace : Type 0 where
  pub prefix : Bytes
  pub uri : Bytes
  pub parent : Option ℕ
  pub ref : ℕ

abbrev pub Objects : Type 0
Objects = ℕ → Option XmlNamespace

abbrev pub at : Objects → ℕ → Outcome XmlNamespace
at objects a = elim (objects a) [ none ↦ fault | some o ↦ done o ]

abbrev pub set : Objects → ℕ → Option XmlNamespace → Objects
set objects a p b = if b == a then p else objects b

-- ref
unfoldable pub ref_of : Objects → ℕ → Outcome Objects
ref_of objects a = at objects a >>= λ o. done (set objects a (some (record o { ref = o.ref + 1 })))

-- deref
unfoldable pub deref : ℕ → Objects → ℕ → Outcome Objects
deref zero objects a = spins
deref (suc fuel) objects a = at objects a >>= λ o.
    let less = set objects a (some (record o { ref = o.ref - 1 })) in
    elim (leb o.ref 1) [
      | true ↦ (elim o.parent [ none ↦ done less | some p ↦ deref fuel less p ]) >>= λ rest.
          done (set rest a none)
      | false ↦ done less
    ]

-- uriForPrefix: the comparison is over the length of the object's own prefix.
unfoldable pub uri_for_prefix : ℕ → Objects → ℕ → Bytes → Outcome (Option Bytes)
uri_for_prefix zero objects a name = spins
uri_for_prefix (suc fuel) objects a name = at objects a >>= λ o. elim (starts_with o.prefix name) [
  | true ↦ done (some o.uri)
  | false ↦ elim o.parent [ none ↦ done none | some p ↦ uri_for_prefix fuel objects p name ]
]

-- The stack: what its top item holds, and the items below it.
pub record Namespaces : Type 0 where
  pub objects : Objects
  pub next : ℕ
  pub top : Option ℕ
  pub below : List (Option ℕ)

-- The reader's constructor makes a stack of one item, which holds NULL.
abbrev pub new_stack : Namespaces
new_stack = record { objects = λ a. none; next = 0; top = none; below = [] }

abbrev pub or_empty : Option Bytes → Bytes
or_empty none = []
or_empty (some s) = s

-- `new XmlNamespace (p, u, parent)`, whose result is the next address.
unfoldable pub new_namespace : Option Bytes → Option Bytes → ℕ → Objects → ℕ → Outcome Objects
unfolding ref_of
new_namespace p u parent objects next = ref_of objects parent >>= λ referred. done (
    set referred next
      (some (record { prefix = or_empty p; uri = or_empty u; parent = some parent; ref = 0 })))

-- `new XmlNamespace ()`
abbrev pub root : XmlNamespace
root = record { prefix = []; uri = []; parent = none; ref = 0 }

-- Whether an attribute declares a namespace, and for which prefix.
pub data Declares : Type 0 where
  nothing default_namespace : Declares
  prefixed : Bytes → Declares

abbrev pub declares : Bytes → Declares
declares name =
    if bytes_eq name (codes "xmlns")
    then default_namespace
    else if starts_with (codes "xmlns:") name
    then prefixed (drop 6 name)
    else nothing

-- The loop of pushNamespaces, with as many attributes to go. The result has the next address and the
-- namespace that is the last.
unfoldable pub declare : ℕ → List (Option Bytes) → Objects → ℕ → ℕ → Outcome (Objects × ℕ × ℕ)
unfolding new_namespace
declare zero attributes objects next ns = done (objects, next, ns)
declare (suc n) (some name ∷ value ∷ rest) objects next ns = elim (declares name) [
  | default_namespace ↦
      new_namespace none value ns objects next >>= λ o. declare n rest o (next + 1) next
  | prefixed p ↦
      new_namespace (some p) value ns objects next >>= λ o. declare n rest o (next + 1) next
  | nothing ↦ declare n rest objects next ns
]
declare (suc n) _ objects next ns = fault

-- The namespace that pushNamespaces starts from.
abbrev pub current : Namespaces → Objects × ℕ × ℕ
current s = elim s.top [
  | some ns ↦ (s.objects, s.next, ns)
  | none ↦ (set s.objects s.next (some root), s.next + 1, s.next)
]

unfoldable pub push_namespaces : XmlAttributes → Namespaces → Outcome (Namespaces × ℕ)
unfolding declare ref_of
push_namespaces attributes s =
    let (objects, next, ns) = current s in
    declare attributes.length attributes.attributes objects next ns >>= λ (o, n, last).
    ref_of o last >>= λ o'.
    done (record { objects = o'; next = n; top = some last; below = s.top ∷ s.below }, last)

unfoldable pub pop_namespaces : Namespaces → Namespaces × Option ℕ
pop_namespaces s = elim s.below [
  | item ∷ rest ↦ (record s { top = item; below = rest }, s.top)
  | [] ↦ (record s { top = none }, s.top)
]

-- What endElementHandler does to the namespaces.
unfoldable pub end_element : ℕ → Namespaces → Outcome Namespaces
unfolding pop_namespaces deref
end_element fuel s =
    let (s', ns) = pop_namespaces s in
    elim ns [
      | none ↦ done s'
      | some a ↦ deref fuel s'.objects a >>= λ o. done (record s' { objects = o })
    ]
