-- ===== src/Xml/Namespaces/Nesting.antt =====
-- The start and the end of an element (startElementHandler and endElementHandler of
-- src/XmlReader.cpp): what pushNamespaces takes is given back.
use libkolibre_xmlreader.Base.{
  ℕ, zero, suc, ◌+◌, ◌≡◌, refl, ap, ◌∙◌, ◌<◌, ◌≤◌, ◌⊎◌, inl, inr, Option, none, some, List, ◌∷◌,
  ◌==◌, arith, Bool-cases, length,
}
use libkolibre_xmlreader.Base.Outcome.{Outcome, done, ◌>>=◌}
use libkolibre_xmlreader.Xml.Attributes.Lookup.{Attribute, array_of, attributes_of}
use libkolibre_xmlreader.Xml.Namespaces.{
  XmlNamespace, Objects, set, ref_of, Namespaces, root, declare, current, push_namespaces,
  end_element,
}
use libkolibre_xmlreader.Xml.Namespaces.Balance.{
  ParentsOlder, less, more, set-set, set_same, deref-live, let_go-kept, let_go-root, ref_of-live,
  ParentsOlder-set,
}
use libkolibre_xmlreader.Xml.Namespaces.Declaring.{FreshFrom, Restores, declare-Declared}

-- The namespaces are as the reader leaves them between two events: parents are older, no object has
-- been made at the next address or behind it, and the top of the stack holds NULL, or an object that
-- is there and has an owner.
pub record IsSound (s : Namespaces) : Type 0 where
  pub older : ParentsOlder s.objects
  pub fresh : FreshFrom s.next s.objects
  pub top :
      (s.top ≡ none)
      ⊎ ((a : ℕ) × (o : XmlNamespace) × (s.top ≡ some a)
          × (s.objects a ≡ some o)
          × (a < s.next)
          × (0 < o.ref))

root-Restores :
    (objects : Objects) (n : ℕ)
    → objects n ≡ none
    → Restores (set (set objects n (some root)) n (some (more root))) n objects
root-Restores objects n e zero lt = absurd (omega arith)
root-Restores objects n e (suc f) lt =
    deref-live f (set (set objects n (some root)) n (some (more root))) n (more root) (ground arith)
    ∙ let_go-root f (set (set objects n (some root)) n (some (more root))) n (more root) refl refl
    ∙ ap done (
        set-set (set objects n (some root)) n (some (more root)) none
        ∙ set-set objects n (some root) none
        ∙ set_same objects n none e)

root-ParentsOlder :
    (objects : Objects) (n : ℕ) → ParentsOlder objects → ParentsOlder (set objects n (some root))
root-ParentsOlder objects n old b x q h e = elim (Bool-cases (b == n)) [
  | inl same ↦
      let f : root ≡ x = ground (arith, same, h) in
      let g : none ≡ some q = ap (λ (y : XmlNamespace). y.parent) f ∙ e in cc
  | inr other ↦ old b x q (ground (arith, other, h)) e
]

owned-Restores :
    (objects : Objects) (a : ℕ) (o : XmlNamespace)
    → objects a ≡ some o
    → 0 < o.ref
    → Restores (set objects a (some (more o))) a objects
owned-Restores objects a o live owned zero lt = absurd (omega arith)
owned-Restores objects a o live owned (suc f) lt =
    let same : less (more o) ≡ o = ap (λ (k : ℕ). record o { ref = k }) (omega arith) in
    deref-live f (set objects a (some (more o))) a (more o) (ground arith)
    ∙ let_go-kept f (set objects a (some (more o))) a (more o) (ground arith)
    ∙ ap done (
        set-set objects a (some (more o)) (some (less (more o)))
        ∙ ap (λ (x : XmlNamespace). set objects a (some x)) same
        ∙ set_same objects a (some o) live)

-- The namespace that pushNamespaces starts from, which can be let go again.
record Starts (s : Namespaces) : Type 0 where
  objects : Objects
  n : ℕ
  a : ℕ
  o : XmlNamespace
  starts : current s ≡ (objects, n, a)
  live : objects a ≡ some o
  older : ParentsOlder objects
  fresh : FreshFrom n objects
  grows : s.next ≤ n
  below : a < n
  restores : Restores (set objects a (some (more o))) a s.objects

current-Starts : (s : Namespaces) → IsSound s → Starts s
current-Starts s v = elim v.top [
  | inl empty ↦ record {
    objects = set s.objects s.next (some root);
    n = s.next + 1;
    a = s.next;
    o = root;
    starts = from_top none empty;
    live = ground arith;
    older = root-ParentsOlder s.objects s.next v.older;
    fresh = λ b le. ground (arith, v.fresh b (omega arith), le);
    grows = omega arith;
    below = omega arith;
    restores = root-Restores s.objects s.next (v.fresh s.next (omega arith));
  }
  | inr (a, o, top, live, lt, owned) ↦ record {
    objects = s.objects;
    n = s.next;
    a = a;
    o = o;
    starts = from_top (some a) top;
    live = live;
    older = v.older;
    fresh = v.fresh;
    grows = omega arith;
    below = lt;
    restores = owned-Restores s.objects a o live owned;
  }
]
  where
    start_of : Option ℕ → Objects × ℕ × ℕ
    start_of t = elim t [
      | some ns ↦ (s.objects, s.next, ns)
      | none ↦ (set s.objects s.next (some root), s.next + 1, s.next)
    ]

    from_top : (t : Option ℕ) → s.top ≡ t → current s ≡ start_of t
    from_top t e = ap start_of e

-- The start of an element and its end leave the namespaces as they were, whatever attributes the
-- element has, in a reader whose namespaces are sound: pushNamespaces does its work and leaves them
-- sound; endElementHandler, with as much fuel as addresses were given out by then, makes the stack and
-- all objects with their counters what they were before. Only the addresses that were given out are
-- not used again.
pub end_element-push_namespaces :
    (pairs : List Attribute) (s : Namespaces)
    → IsSound s
    → (t : Namespaces) × (last : ℕ) × (push_namespaces (attributes_of pairs) s ≡ done (t, last))
      × IsSound t
      × ((fuel : ℕ) → t.next ≤ fuel → end_element fuel t ≡ done (record s { next = t.next }))
unfolding push_namespaces end_element
end_element-push_namespaces pairs s v =
    let c = current-Starts s v in
    let d =
      declare-Declared pairs c.objects c.n c.a c.o s.objects c.live c.older c.fresh
        (λ b le. v.fresh b (omega (arith, c.grows, le))) c.below c.restores in
    let t : Namespaces = record {
      objects = set d.objects d.last (some (more d.o));
      next = d.n;
      top = some d.last;
      below = s.top ∷ s.below;
    } in
    (
      t,
      d.last,
      ap (λ (x : Objects × ℕ × ℕ). declare (length pairs) (array_of pairs) x.0 x.1 x.2 >>= pushed)
            c.starts
          ∙ ap (λ (m : Outcome (Objects × ℕ × ℕ)). m >>= pushed) d.runs
          ∙ ap
              (λ (m : Outcome Objects). m >>= λ x. done (
                record { objects = x; next = d.n; top = some d.last; below = s.top ∷ s.below },
                d.last,
              ))
              (ref_of-live d.objects d.last d.o d.live),
      record {
        older = ParentsOlder-set d.objects d.last d.o (more d.o) d.older d.live refl;
        fresh = λ b le. ground (arith, d.fresh b le, d.below, le);
        top = inr (d.last, more d.o, refl, ground arith, d.below, omega arith);
      },
      λ fuel le.
          ap (λ (m : Outcome Objects). m >>= λ x. done (record s { next = d.n; objects = x }))
            (d.restores fuel (omega (arith, d.below, le))),
    )
  where
    pushed : Objects × ℕ × ℕ → Outcome (Namespaces × ℕ)
    pushed (x, n, last) = ref_of x last >>= λ x'.
        done (record { objects = x'; next = n; top = some last; below = s.top ∷ s.below }, last)
