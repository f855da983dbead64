-- ===== src/Xml/Namespaces/Live.antt =====
-- The namespaces above one that is there are there (XmlNamespace of src/XmlReader.h).
use libkolibre_xmlreader.Base.{
  ℕ, ◌+◌, ◌≡◌, refl, sym, subst, ap, ◌∙◌, inl, inr, Option, none, some, List, [], ◌∷◌, ◌==◌, arith,
  Bool-cases, length, Bytes,
}
use libkolibre_xmlreader.Base.Outcome.{Outcome, done, ◌>>=◌, bind-eq-done, done_inj}
use libkolibre_xmlreader.Xml.Attributes.Lookup.{Attribute, array_of, attributes_of}
use libkolibre_xmlreader.Xml.Namespaces.{
  XmlNamespace, Objects, set, ref_of, Namespaces, root, Declares, nothing, default_namespace,
  prefixed, declares, declare, new_namespace, current, push_namespaces,
}
use libkolibre_xmlreader.Xml.Namespaces.Balance.{more, ref_of-live}

-- Something stands at the address.
unfoldable pub IsLive : Objects → ℕ → Type 0
IsLive objects a = (o : XmlNamespace) × (objects a ≡ some o)

unfoldable pub ParentsLive : Objects → Type 0
ParentsLive objects =
    (a p : ℕ) (o : XmlNamespace) → objects a ≡ some o → o.parent ≡ some p → IsLive objects p

IsLive-set :
    (objects : Objects) (a p : ℕ) (o : XmlNamespace)
    → IsLive objects p
    → IsLive (set objects a (some o)) p
unfolding IsLive
IsLive-set objects a p o (q, e) = elim (Bool-cases (p == a)) [
  | inl same ↦ (o, ground (arith, same))
  | inr other ↦ (q, ground (arith, other, e))
]

here-IsLive : (objects : Objects) (a : ℕ) (o : XmlNamespace) → IsLive (set objects a (some o)) a
unfolding IsLive
here-IsLive objects a o = (o, ground arith)

ParentsLive-set :
    (objects : Objects) (a : ℕ) (o : XmlNamespace)
    → ParentsLive objects
    → ((p : ℕ) → o.parent ≡ some p → IsLive objects p)
    → ParentsLive (set objects a (some o))
unfolding ParentsLive
ParentsLive-set objects a o old new b p x h n = elim (Bool-cases (b == a)) [
  | inl same ↦
      let f : o ≡ x = ground (arith, same, h) in
      IsLive-set objects a p o (new p (ap (λ (y : XmlNamespace). y.parent) f ∙ n))
  | inr other ↦ IsLive-set objects a p o (old b p x (ground (arith, other, h)) n)
]

-- What stands in the namespaces once the loop of pushNamespaces is done.
abbrev AreLive : Objects → ℕ → Type 0
AreLive objects a = ParentsLive objects × IsLive objects a

set-AreLive :
    (objects : Objects) (a : ℕ) (o o' : XmlNamespace)
    → ParentsLive objects
    → objects a ≡ some o
    → o'.parent ≡ o.parent
    → AreLive (set objects a (some o')) a
unfolding ParentsLive IsLive
set-AreLive objects a o o' live e q =
    (ParentsLive-set objects a o' live (λ p n. live a p o e (sym q ∙ n)), (o', ground arith))

ref_of-AreLive :
    (objects h : Objects) (a : ℕ) → AreLive objects a → ref_of objects a ≡ done h → AreLive h a
unfolding IsLive
ref_of-AreLive objects h a (live, (o, e)) d =
    subst (λ (x : Objects). AreLive x a) (done_inj (sym (ref_of-live objects a o e) ∙ d))
      (set-AreLive objects a o (more o) live e refl)

new_namespace-AreLive :
    (p u : Option Bytes) (a : ℕ) (objects h : Objects) (next : ℕ)
    → AreLive objects a
    → new_namespace p u a objects next ≡ done h
    → AreLive h next
unfolding new_namespace IsLive
new_namespace-AreLive p u a objects h next live d =
    let (x, d1, d2) = bind-eq-done (ref_of objects a) _ d in
    let (parents, here) = ref_of-AreLive objects x a live d1 in
    subst (λ (y : Objects). AreLive y next) (done_inj d2)
      (
        ParentsLive-set x next _ parents
            (λ q n. let same : a ≡ q = cc in subst (IsLive x) same here),
        here-IsLive x next _,
      )

declare-AreLive :
    (pairs : List Attribute) (objects h : Objects) (next next' a a' : ℕ)
    → AreLive objects a
    → declare (length pairs) (array_of pairs) objects next a ≡ done (h, next', a')
    → AreLive h a'
unfolding declare
declare-AreLive [] objects h next next' a a' live d =
    let q : ◌≡◌ {A = Objects × ℕ × ℕ} (objects, next, a) (h, next', a') = done_inj d in
    subst (λ (x : Objects × ℕ × ℕ). AreLive x.0 x.2) q live
declare-AreLive ((k, v) ∷ rest) objects h next next' a a' live d =
    by_name (declares k) d (λ o n b l e. declare-AreLive rest o h n next' b a' l e)
  where
    Next : Type 0
    Next =
        (o : Objects) (n b : ℕ)
        → AreLive o b
        → declare (length rest) (array_of rest) o n b ≡ done (h, next', a')
        → AreLive h a'

    by_name :
        (x : Declares)
        → ◌≡◌ {A = Outcome (Objects × ℕ × ℕ)}
            (elim x [
              | default_namespace ↦ new_namespace none (some v) a objects next >>= λ o.
                  declare (length rest) (array_of rest) o (next + 1) next
              | prefixed p ↦ new_namespace (some p) (some v) a objects next >>= λ o.
                  declare (length rest) (array_of rest) o (next + 1) next
              | nothing ↦ declare (length rest) (array_of rest) objects next a
            ])
            (done (h, next', a'))
        → Next
        → AreLive h a'
    by_name nothing d ih = ih objects next a live d
    by_name default_namespace d ih =
        let (o, d1, d2) = bind-eq-done (new_namespace none (some v) a objects next) _ d in
        ih o (next + 1) next (new_namespace-AreLive none (some v) a objects o next live d1) d2
    by_name (prefixed p) d ih =
        let (o, d1, d2) = bind-eq-done (new_namespace (some p) (some v) a objects next) _ d in
        ih o (next + 1) next (new_namespace-AreLive (some p) (some v) a objects o next live d1) d2

-- What pushNamespaces leaves, when it starts where all is there.
pub push_namespaces-IsLive :
    (pairs : List Attribute) (s t : Namespaces) (last : ℕ)
    → ParentsLive s.objects
    → ((a : ℕ) → s.top ≡ some a → IsLive s.objects a)
    → push_namespaces (attributes_of pairs) s ≡ done (t, last)
    → ParentsLive t.objects × IsLive t.objects last × (t.top ≡ some last)
unfolding push_namespaces IsLive
push_namespaces-IsLive pairs s t last live top d =
    let c : Objects × ℕ × ℕ = current s in
    let ((o, n, l), d1, d2) =
      bind-eq-done (declare (length pairs) (array_of pairs) c.0 c.1 c.2) _ d in
    let (o', d3, d4) = bind-eq-done (ref_of o l) _ d2 in
    let (parents, here) =
      ref_of-AreLive o o' l (declare-AreLive pairs c.0 o c.1 n c.2 l (from_top s.top top) d1) d3 in
    let q : ◌≡◌ {A = Namespaces × ℕ}
        (record { objects = o'; next = n; top = some l; below = s.top ∷ s.below }, l) (t, last) =
      done_inj d4 in
    subst
      (λ (x : Namespaces × ℕ).
        ParentsLive x.0.objects × IsLive x.0.objects x.1 × (x.0.top ≡ some x.1))
      q (parents, here, refl)
  where
    start_of : Option ℕ → Objects × ℕ × ℕ
    start_of x = elim x [
      | some ns ↦ (s.objects, s.next, ns)
      | none ↦ (set s.objects s.next (some root), s.next + 1, s.next)
    ]

    from_top :
        (x : Option ℕ)
        → ((a : ℕ) → x ≡ some a → IsLive s.objects a)
        → AreLive (start_of x).0 (start_of x).2
    from_top none f = (
      ParentsLive-set s.objects s.next root live (λ p n. absurd (cc)),
      here-IsLive s.objects s.next root,
    )
    from_top (some a) f = (live, f a refl)
