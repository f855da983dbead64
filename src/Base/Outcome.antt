-- ===== src/Base/Outcome.antt =====
-- What a piece of the C++ code comes to: a value, undefined behaviour (a write through NULL, a copy
-- outside of a block or onto itself, an iterator that is not valid), or no end within the fuel.
use mathlib.Core.Bool.{Bool, true, false}
use mathlib.Core.Logic.{◌⊎◌, inl, inr}
use mathlib.Core.Path.{◌≡◌, refl}
use libkolibre_xmlreader.Base.Tests.{if◌then◌else◌}

pub data Outcome {ℓ} (A : Type ℓ) : Type ℓ where
  done : A → Outcome A
  fault : Outcome A
  spins : Outcome A

module _ {ℓ κ} {A : Type ℓ} {B : Type κ} where
  infixl 5 ◌>>=◌
  abbrev pub ◌>>=◌ : Outcome A → (A → Outcome B) → Outcome B
  done a >>= f = f a
  fault >>= f = fault
  spins >>= f = spins

  pub bind-eq-done :
      (m : Outcome A) (f : A → Outcome B) {b : B}
      → (m >>= f) ≡ done b
      → (a : A) × (m ≡ done a) × (f a ≡ done b)
  bind-eq-done (done a) f h = (a, refl, h)
  bind-eq-done fault f h = cc
  bind-eq-done spins f h = cc

pub done_inj {ℓ} : {A : Type ℓ} {a b : A} → done a ≡ done b → a ≡ b
done_inj e = cc

-- One of the branches gives the value.
pub if-eq-done {ℓ} :
    {A : Type ℓ} (c : Bool) (m n : Outcome A) {a : A}
    → (if c then m else n) ≡ done a
    → (m ≡ done a) ⊎ (n ≡ done a)
if-eq-done true m n h = inl h
if-eq-done false m n h = inr h
