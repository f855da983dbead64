-- ===== src/Xml/Namespaces/Declaring.antt =====
-- The declarations of an element: pushNamespaces of src/XmlReader.cpp makes a namespace for each, and
-- what that leaves of the others.
use libkolibre_xmlreader.Base.{
  ℕ, zero, suc, ◌+◌, ◌≡◌, refl, ap, ◌∙◌, ◌<◌, ◌≤◌, inl, inr, Option, none, some, List, [], ◌∷◌,
  ◌==◌, arith, Bool-cases, Bytes, length,
}
use libkolibre_xmlreader.Base.Outcome.{Outcome, done, fault, spins, ◌>>=◌}
use libkolibre_xmlreader.Xml.Attributes.Lookup.{
  Attribute, array_of, End, array_with, Given, absent, present, pairs_of, attributes_given,
  attributes_of,
}
use libkolibre_xmlreader.Xml.Namespaces.{
  XmlNamespace, Objects, set, deref, or_empty, Declares, nothing, default_namespace, prefixed,
  declares, declare, new_namespace, Namespaces, current, push_namespaces, ref_of,
}
use libkolibre_xmlreader.Xml.Namespaces.Balance.{
  ParentsOlder, less, more, set-set, set_same, deref-live, let_go-child, ref_of-live,
  ParentsOlder-set, deref-set,
}

-- With enough fuel, deref of `a` makes `objects` these.
abbrev pub Restores : Objects → ℕ → Objects → Type 0
Restores objects a h = (f : ℕ) → a < f → deref f objects a ≡ done h

-- No object has been made at an address from here on.
abbrev pub FreshFrom : ℕ → Objects → Type 0
FreshFrom n objects = (b : ℕ) → n ≤ b → objects b ≡ none

abbrev pub child : Option Bytes → Option Bytes → ℕ → XmlNamespace
child p u a = record { prefix = or_empty p; uri = or_empty u; parent = some a; ref = 0 }

-- The objects once a namespace below `a` was made.
abbrev pub with_child : Objects → ℕ → XmlNamespace → ℕ → XmlNamespace → Objects
with_child objects a o n c = set (set objects a (some (more o))) n (some c)

module _ (objects : Objects) (a : ℕ) (o : XmlNamespace) (n : ℕ) (p u : Option Bytes)
    (live : objects a ≡ some o) (old : ParentsOlder objects) (lt : a < n) where
  abbrev c : XmlNamespace
  c = child p u a

  new_namespace-live : new_namespace p u a objects n ≡ done (with_child objects a o n c)
  unfolding new_namespace
  new_namespace-live =
      ap (λ (m : Outcome Objects). m >>= λ r. done (set r n (some c)))
        (ref_of-live objects a o live)

  pub older : ParentsOlder (set objects a (some (more o)))
  older = ParentsOlder-set objects a o (more o) old live refl

  child-ParentsOlder : ParentsOlder (with_child objects a o n c)
  child-ParentsOlder b x q h e = elim (Bool-cases (b == n)) [
    | inl same ↦
        let f : c ≡ x = ground (arith, same, h) in
        let g : some a ≡ some q = ap (λ (y : XmlNamespace). y.parent) f ∙ e in
        ground (arith, same, g, lt)
    | inr other ↦ older b x q (ground (arith, other, h)) e
  ]

  -- A namespace that only the element holds is deleted at the element's end, and its parent let go.
  child-Restores :
      (h : Objects)
      → h n ≡ none
      → Restores (set objects a (some (more o))) a h
      → Restores (set (with_child objects a o n c) n (some (more c))) n h
  child-Restores h dead r zero lt' = absurd (omega arith)
  child-Restores h dead r (suc f) lt' =
      deref-live f (set (with_child objects a o n c) n (some (more c))) n (more c) (ground arith)
      ∙ let_go-child f (set (with_child objects a o n c) n (some (more c))) n (more c) a refl refl
      ∙ ap (λ (x : Objects). deref f x a >>= finish)
          (set-set (with_child objects a o n c) n (some (more c)) (some (less (more c)))
            ∙ set-set (set objects a (some (more o))) n (some c) (some (less (more c))))
      ∙ ap (λ (m : Outcome Objects). m >>= finish)
          (deref-set f (set objects a (some (more o))) a n (some (less (more c))) older lt
            ∙ ap (λ (m : Outcome Objects). m >>= λ x. done (set x n (some (less (more c)))))
                (r f (omega arith)))
      ∙ ap done (set-set h n (some (less (more c))) none ∙ set_same h n none dead)
    where
      finish : Objects → Outcome Objects
      finish x = done (set x n none)

-- What a run of the loop of pushNamespaces comes to: the objects, the next address and the last
-- namespace, which its owner can let go, and then the objects are `h`.
pub record Declared (run : Outcome (Objects × ℕ × ℕ)) (h : Objects) (next : ℕ) : Type 0 where
  pub objects : Objects
  pub n : ℕ
  pub last : ℕ
  pub o : XmlNamespace
  pub runs : run ≡ done (objects, n, last)
  pub live : objects last ≡ some o
  pub older : ParentsOlder objects
  pub fresh : FreshFrom n objects
  pub grows : next ≤ n
  pub below : last < n
  pub restores : Restores (set objects last (some (more o))) last h

pub set_fresh :
    (objects : Objects) (n a : ℕ) (o : XmlNamespace) (x : Option XmlNamespace)
    → a < n
    → FreshFrom n objects
    → FreshFrom (n + 1) (set (set objects a (some o)) n x)
set_fresh objects n a o x lt fresh b le = ground (arith, fresh b (omega arith), lt, le)

pub declare-Declared :
    (pairs : List Attribute) (objects : Objects) (n a : ℕ) (o : XmlNamespace) (h : Objects)
    → objects a ≡ some o
    → ParentsOlder objects
    → FreshFrom n objects
    → FreshFrom n h
    → a < n
    → Restores (set objects a (some (more o))) a h
    → Declared (declare (length pairs) (array_of pairs) objects n a) h n
unfolding declare
declare-Declared [] objects n a o h live old fresh fresh' lt r = record {
  objects = objects;
  n = n;
  last = a;
  o = o;
  runs = refl;
  live = live;
  older = old;
  fresh = fresh;
  grows = omega arith;
  below = lt;
  restores = r;
}
declare-Declared ((k, v) ∷ rest) objects n a o h live old fresh fresh' lt r =
    go (declares k) (declare-Declared rest objects n a o h live old fresh fresh' lt r) (λ p.
      declare-Declared rest (with_child objects a o n (child p (some v) a)) (n + 1) n
        (child p (some v) a) h (ground arith)
        (child-ParentsOlder objects a o n p (some v) live old lt)
        (set_fresh objects n a (more o) (some (child p (some v) a)) lt fresh)
        (λ b le. fresh' b (omega arith)) (omega arith)
        (child-Restores objects a o n p (some v) live old lt h (fresh' n (omega arith)) r))
  where
    others : Objects → ℕ → ℕ → Outcome (Objects × ℕ × ℕ)
    others x n' a' = declare (length rest) (array_of rest) x n' a'

    step : Declares → Outcome (Objects × ℕ × ℕ)
    step d = elim d [
      | default_namespace ↦ new_namespace none (some v) a objects n >>= λ x. others x (n + 1) n
      | prefixed p ↦ new_namespace (some p) (some v) a objects n >>= λ x. others x (n + 1) n
      | nothing ↦ others objects n a
    ]

    made :
        (p : Option Bytes)
        → Declared (others (with_child objects a o n (child p (some v) a)) (n + 1) n) h (n + 1)
        → Declared (new_namespace p (some v) a objects n >>= λ x. others x (n + 1) n) h n
    made p d = record {
      objects = d.objects;
      n = d.n;
      last = d.last;
      o = d.o;
      runs =
          ap (λ (m : Outcome Objects). m >>= λ x. others x (n + 1) n)
            (new_namespace-live objects a o n p (some v) live old lt)
          ∙ d.runs;
      live = d.live;
      older = d.older;
      fresh = d.fresh;
      grows = omega (arith, d.grows);
      below = d.below;
      restores = d.restores;
    }

    go :
        (d : Declares)
        → Declared (others objects n a) h n
        → ((p : Option Bytes)
            → Declared (others (with_child objects a o n (child p (some v) a)) (n + 1) n) h (n + 1))
        → Declared (step d) h n
    go default_namespace same new = made none (new none)
    go (prefixed p) same new = made (some p) (new (some p))
    go nothing same new = same

-- What stands behind the attributes that are counted declares nothing.
declare-array_with :
    (pairs : List Attribute) (e : End) (objects : Objects) (n a : ℕ)
    → declare (length pairs) (array_with pairs e) objects n a
      ≡ declare (length pairs) (array_of pairs) objects n a
unfolding declare
declare-array_with [] e objects n a = refl
declare-array_with ((k, v) ∷ rest) e objects n a =
    on (λ x n' a'. declare-array_with rest e x n' a') (declares k)
  where
    step : List (Option Bytes) → Declares → Outcome (Objects × ℕ × ℕ)
    step tail d = elim d [
      | default_namespace ↦
          new_namespace none (some v) a objects n >>= λ x. declare (length rest) tail x (n + 1) n
      | prefixed p ↦ new_namespace (some p) (some v) a objects n >>= λ x.
          declare (length rest) tail x (n + 1) n
      | nothing ↦ declare (length rest) tail objects n a
    ]

    Same : Type 0
    Same =
        (x : Objects) (n' a' : ℕ)
        → declare (length rest) (array_with rest e) x n' a'
          ≡ declare (length rest) (array_of rest) x n' a'

    after :
        Same
        → (m : Outcome Objects)
        → (m >>= λ x. declare (length rest) (array_with rest e) x (n + 1) n)
          ≡ (m >>= λ x. declare (length rest) (array_of rest) x (n + 1) n)
    after same (done x) = same x (n + 1) n
    after same fault = refl
    after same spins = refl

    on : Same → (d : Declares) → step (array_with rest e) d ≡ step (array_of rest) d
    on same nothing = same objects n a
    on same default_namespace = after same (new_namespace none (some v) a objects n)
    on same (prefixed p) = after same (new_namespace (some p) (some v) a objects n)

pub push_namespaces-attributes_given :
    (g : Given) (s : Namespaces)
    → push_namespaces (attributes_given g) s ≡ push_namespaces (attributes_of (pairs_of g)) s
unfolding push_namespaces declare
push_namespaces-attributes_given absent s = refl
push_namespaces-attributes_given (present pairs e) s =
    let (objects, n, ns) = current s in
    ap (λ m. m >>= pushed) (declare-array_with pairs e objects n ns)
  where
    pushed : Objects × ℕ × ℕ → Outcome (Namespaces × ℕ)
    pushed (x, n, last) = ref_of x last >>= λ x'.
        done (record { objects = x'; next = n; top = some last; below = s.top ∷ s.below }, last)
