-- ===== src/Xml/Namespaces/Balance.antt =====
-- The counters of the namespaces of src/XmlReader.h: the branches of deref, and that deref of an
-- object does not see younger ones.
use mathlib.Core.Path.{fun_ext}
use libkolibre_xmlreader.Base.{
  ℕ, zero, suc, ◌+◌, ◌-◌, ◌≡◌, refl, sym, ap, ◌∙◌, ◌<◌, inl, inr, true, false, Option, none, some,
  ◌==◌, leb, arith, Bool-cases, Option-cases,
}
use libkolibre_xmlreader.Base.Outcome.{Outcome, done, fault, spins, ◌>>=◌}
use libkolibre_xmlreader.Xml.Namespaces.{XmlNamespace, Objects, at, set, ref_of, deref}

-- Parents are older than their children.
abbrev pub ParentsOlder : Objects → Type 0
ParentsOlder objects =
    (b : ℕ) (o : XmlNamespace) (q : ℕ) → objects b ≡ some o → o.parent ≡ some q → q < b

pub at-live :
    (objects : Objects) (a : ℕ) (o : XmlNamespace) → objects a ≡ some o → at objects a ≡ done o
at-live objects a o e = ap (λ x. elim x [ none ↦ fault | some o ↦ done o ]) e

pub set-set :
    (objects : Objects) (a : ℕ) (x y : Option XmlNamespace)
    → set (set objects a x) a y ≡ set objects a y
set-set objects a x y = fun_ext (λ b. ground arith)

pub set_comm :
    (objects : Objects) (a n : ℕ) (x y : Option XmlNamespace)
    → a < n
    → set (set objects n x) a y ≡ set (set objects a y) n x
set_comm objects a n x y h = fun_ext (λ b. ground arith)

pub set_same :
    (objects : Objects) (a : ℕ) (x : Option XmlNamespace)
    → objects a ≡ x
    → set objects a x ≡ objects
set_same objects a x e = fun_ext (λ b. ground (arith, e))

abbrev pub less : XmlNamespace → XmlNamespace
less o = record o { ref = o.ref - 1 }

abbrev pub more : XmlNamespace → XmlNamespace
more o = record o { ref = o.ref + 1 }

-- The parts of deref behind the look at the object: its parent is let go and it is deleted.
freed : ℕ → Objects → ℕ → XmlNamespace → Option ℕ → Outcome Objects
unfolding deref
freed fuel objects a o parent =
    (elim parent [
      | none ↦ done (set objects a (some (less o)))
      | some p ↦ deref fuel (set objects a (some (less o))) p
    ])
    >>= λ rest. done (set rest a none)

pub let_go : ℕ → Objects → ℕ → XmlNamespace → Outcome Objects
unfolding freed
let_go fuel objects a o = elim (leb o.ref 1) [
  | true ↦ freed fuel objects a o o.parent
  | false ↦ done (set objects a (some (less o)))
]

pub deref-live :
    (fuel : ℕ) (objects : Objects) (a : ℕ) (o : XmlNamespace)
    → objects a ≡ some o
    → deref (suc fuel) objects a ≡ let_go fuel objects a o
unfolding deref let_go freed
deref-live fuel objects a o e =
    ap (λ (m : Outcome XmlNamespace). m >>= let_go fuel objects a) (at-live objects a o e)

-- An object with another owner stays.
pub let_go-kept :
    (fuel : ℕ) (objects : Objects) (a : ℕ) (o : XmlNamespace)
    → leb o.ref 1 ≡ false
    → let_go fuel objects a o ≡ done (set objects a (some (less o)))
unfolding let_go
let_go-kept fuel objects a o k = rw (k, let_go) refl

pub let_go-root :
    (fuel : ℕ) (objects : Objects) (a : ℕ) (o : XmlNamespace)
    → leb o.ref 1 ≡ true
    → o.parent ≡ none
    → let_go fuel objects a o ≡ done (set objects a none)
unfolding let_go freed
let_go-root fuel objects a o k n =
    rw (k, let_go)
      (ap (freed fuel objects a o) n ∙ ap done (set-set objects a (some (less o)) none))

pub let_go-child :
    (fuel : ℕ) (objects : Objects) (a : ℕ) (o : XmlNamespace) (p : ℕ)
    → leb o.ref 1 ≡ true
    → o.parent ≡ some p
    → let_go fuel objects a o
      ≡ (deref fuel (set objects a (some (less o))) p >>= λ rest. done (set rest a none))
unfolding let_go freed
let_go-child fuel objects a o p k n = rw (k, let_go) (ap (freed fuel objects a o) n)

pub ref_of-live :
    (objects : Objects) (a : ℕ) (o : XmlNamespace)
    → objects a ≡ some o
    → ref_of objects a ≡ done (set objects a (some (more o)))
unfolding ref_of
ref_of-live objects a o e =
    ap (λ (m : Outcome XmlNamespace). m >>= λ o. done (set objects a (some (more o))))
      (at-live objects a o e)

pub ParentsOlder-set :
    (objects : Objects) (a : ℕ) (o o' : XmlNamespace)
    → ParentsOlder objects
    → objects a ≡ some o
    → o'.parent ≡ o.parent
    → ParentsOlder (set objects a (some o'))
ParentsOlder-set objects a o o' old e q b p r h n = elim (Bool-cases (b == a)) [
  | inl same ↦
      let f : o' ≡ p = ground (arith, same, h) in
      old b o r (ground (arith, same, e)) (sym q ∙ ap (λ (x : XmlNamespace). x.parent) f ∙ n)
  | inr other ↦ old b p r (ground (arith, other, h)) n
]

bind_swap :
    (m : Outcome Objects) (a n : ℕ) (x y : Option XmlNamespace)
    → a < n
    → ((m >>= λ h. done (set h n x)) >>= λ r. done (set r a y))
      ≡ ((m >>= λ r. done (set r a y)) >>= λ h. done (set h n x))
bind_swap (done h) a n x y lt = ap done (set_comm h a n x y lt)
bind_swap fault a n x y lt = refl
bind_swap spins a n x y lt = refl

deref-dead :
    (fuel : ℕ) (objects : Objects) (a : ℕ) → objects a ≡ none → deref (suc fuel) objects a ≡ fault
unfolding deref let_go
deref-dead fuel objects a e =
    ap
      (λ (x : Option XmlNamespace).
        elim x [ none ↦ fault | some o ↦ done o ] >>= let_go fuel objects a)
      e

-- deref of an object does not see younger ones.
pub deref-set :
    (fuel : ℕ) (objects : Objects) (a n : ℕ) (x : Option XmlNamespace)
    → ParentsOlder objects
    → a < n
    → deref fuel (set objects n x) a ≡ (deref fuel objects a >>= λ h. done (set h n x))
unfolding deref
deref-set zero objects a n x old lt = refl
deref-set (suc fuel) objects a n x old lt = elim (Option-cases (objects a)) [
  | inl dead ↦
      deref-dead fuel (set objects n x) a (ground (arith, dead, lt))
      ∙ ap (λ (m : Outcome Objects). m >>= λ h. done (set h n x))
          (sym (deref-dead fuel objects a dead))
  | inr (o, live) ↦
      deref-live fuel (set objects n x) a o (ground (arith, live, lt))
      ∙ elim (Bool-cases (leb o.ref 1)) [
        | inr keep ↦
            let_go-kept fuel (set objects n x) a o keep
            ∙ ap done (set_comm objects a n x _ lt)
            ∙ ap (λ (m : Outcome Objects). m >>= λ h. done (set h n x))
                (sym (let_go-kept fuel objects a o keep))
        | inl last ↦ elim (Option-cases o.parent) [
          | inl no_parent ↦
              let_go-root fuel (set objects n x) a o last no_parent
              ∙ ap done (set_comm objects a n x _ lt)
              ∙ ap (λ (m : Outcome Objects). m >>= λ h. done (set h n x))
                  (sym (let_go-root fuel objects a o last no_parent))
          | inr (p, child) ↦
              let_go-child fuel (set objects n x) a o p last child
              ∙ ap (λ (h : Objects). deref fuel h p >>= λ rest. done (set rest a none))
                  (set_comm objects a n x _ lt)
              ∙ ap (λ (m : Outcome Objects). m >>= λ rest. done (set rest a none))
                  (deref-set fuel (set objects a (some (less o))) p n x
                    (ParentsOlder-set objects a o (less o) old live refl)
                    (omega (arith, old a o p live child)))
              ∙ bind_swap (deref fuel (set objects a (some (less o))) p) a n x none lt
              ∙ ap (λ (m : Outcome Objects). m >>= λ h. done (set h n x))
                  (sym (let_go-child fuel objects a o p last child))
        ]
      ]
      ∙ ap (λ (m : Outcome Objects). m >>= λ h. done (set h n x))
          (sym (deref-live fuel objects a o live))
]
