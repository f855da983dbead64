-- ===== src/Xml/Namespaces/Teardown.antt =====
-- What the destructor of src/XmlReader.cpp does to the namespaces.
use libkolibre_xmlreader.Base.{
  ◌+◌, ℕ, zero, suc, ◌≡◌, refl, ◌<◌, Option, none, some, List, [], ◌∷◌, arith, length,
}
use libkolibre_xmlreader.Base.Outcome.{Outcome, done, spins}
use libkolibre_xmlreader.Xml.Namespaces.{Objects, Namespaces, pop_namespaces}

-- Items are popped up to the first that holds NULL. No namespace is let go.
unfoldable pub pop_all : ℕ → Namespaces → Outcome Namespaces
unfolding pop_namespaces
pop_all zero s = spins
pop_all (suc fuel) s =
    let (s', ns) = pop_namespaces s in
    let rest = pop_all fuel s' in elim ns [ none ↦ done s' | some a ↦ rest ]

abbrev stack : Objects → ℕ → Option ℕ → List (Option ℕ) → Namespaces
stack objects next top below = record { objects = objects; next = next; top = top; below = below }

pop_stack :
    (fuel : ℕ) (objects : Objects) (next : ℕ) (top : Option ℕ) (below : List (Option ℕ))
    → length below + 1 < fuel
    → (t : Namespaces) × (pop_all fuel (stack objects next top below) ≡ done t)
      × (t.objects ≡ objects)
unfolding pop_all
pop_stack zero objects next top below lt = absurd (omega arith)
pop_stack (suc fuel) objects next none [] lt = (_, refl, refl)
pop_stack (suc fuel) objects next none (item ∷ rest) lt = (_, refl, refl)
pop_stack (suc zero) objects next (some a) [] lt = absurd (omega arith)
pop_stack (suc (suc fuel)) objects next (some a) [] lt = (_, refl, refl)
pop_stack (suc fuel) objects next (some a) (item ∷ rest) lt =
    pop_stack fuel objects next item rest (omega (arith, lt))

-- The loop ends when the fuel is two more than there are items below the top, and it leaves all objects
-- as they are: those that the stack held are not let go.
pop_all-done :
    (fuel : ℕ) (s : Namespaces)
    → length s.below + 1 < fuel
    → (t : Namespaces) × (pop_all fuel s ≡ done t) × (t.objects ≡ s.objects)
pop_all-done fuel s lt = pop_stack fuel s.objects s.next s.top s.below lt
