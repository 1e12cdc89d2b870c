-- ===== src/Base/Outcome.antt =====
-- How a piece of C code ends: with a value, in undefined behaviour (an access outside an object),
-- or, for a loop that is counted down by fuel, before it was done.
use mathlib.Core.Path.{◌≡◌}
use mathlib.Core.Bool.{Bool, true, false}
use cosc402_assignment.Base.Tests.{if◌then◌else◌}

pub data Outcome (A : Type 0) : Type 0 where
  done : A → Outcome A
  fault : Outcome A
  out_of_fuel : Outcome A

-- The code ends with a value, of which `P` holds.
pub data Returns {A : Type 0} (P : A → Type 0) : Outcome A → Type 0 where
  returns : {a : A} → P a → Returns P (done a)

module _ {A : Type 0} where
  infixl 5 ◌>>=◌
  abbrev pub ◌>>=◌ : {B : Type 0} → Outcome A → (A → Outcome B) → Outcome B
  done a >>= f = f a
  fault >>= f = fault
  out_of_fuel >>= f = out_of_fuel

  pub mono : {P Q : A → Type 0} {r : Outcome A} → Returns P r → ((a : A) → P a → Q a) → Returns Q r
  mono (returns p) weaken = returns (weaken _ p)

  pub bind :
      {B : Type 0} {P : A → Type 0} {Q : B → Type 0} {r : Outcome A} {f : A → Outcome B}
      → Returns P r
      → ((a : A) → P a → Returns Q (f a))
      → Returns Q (r >>= f)
  bind (returns p) next = next _ p

pub Returns-else :
    {A : Type 0} {P : A → Type 0} {f : Bool} (x : Outcome A) {y : Outcome A}
    → f ≡ false
    → Returns P y
    → Returns P (if f then x else y)
Returns-else {f = true} z e r = absurd (cc e)
Returns-else {f = false} z e r = r

pub Returns-then :
    {A : Type 0} {P : A → Type 0} {f : Bool} {x : Outcome A} (y : Outcome A)
    → f ≡ true
    → Returns P x
    → Returns P (if f then x else y)
Returns-then {f = true} z e r = r
Returns-then {f = false} z e r = absurd (cc e)
