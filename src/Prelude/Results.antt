-- ===== src/Prelude/Results.antt =====
-- Go's (value, error) results, and a sequence of early returns `if test { return err }`.
use mathlib.Core.Path.{◌≡◌, refl}
use mathlib.Core.Logic.{◌⊎◌, inl, inr}
use mathlib.Core.Bool.{Bool, true, false}
use mathlib.Core.Option.{Option, none, some}
use mathlib.Core.List.{List, [], ◌∷◌}
use native.Mathlib.Omega.{arith}
use portflow.Prelude.Tests.{if◌then◌else◌}

-- A value, or an error of the caller's error type.
pub data Result {ℓ} (E A : Type ℓ) : Type ℓ where
  ok : A → Result E A
  err : E → Result E A

-- `value, err := …` and the branch on `err`.
abbrev pub on_result {ℓ κ} : {E A : Type ℓ} {B : Type κ} → Result E A → (E → B) → (A → B) → B
on_result (err e) failed went_well = failed e
on_result (ok a) failed went_well = went_well a

pub Result-cases {ℓ} :
    {E A : Type ℓ} (r : Result E A) → ((e : E) × (r ≡ err e)) ⊎ ((a : A) × (r ≡ ok a))
Result-cases (err e) = inl (e, refl)
Result-cases (ok a) = inr (a, refl)

module _ {ℓ} {E : Type ℓ} where
  -- The error of the first test that holds; `none` is the nil error.
  unfoldable pub first_failure : List (Bool × E) → Option E
  first_failure [] = none
  first_failure ((test, e) ∷ guards) = if test then some e else first_failure guards

  -- The first error of two sequences that are run one after the other.
  unfoldable pub or_else : Option E → Option E → Option E
  or_else none later = later
  or_else (some e) later = some e

  abbrev pub Passes : List (Bool × E) → Type ℓ
  Passes [] = Unit
  Passes ((test, e) ∷ guards) = (test ≡ false) × Passes guards

  pub first_failure-none : (guards : List (Bool × E)) → first_failure guards ≡ none → Passes guards
  unfolding first_failure
  first_failure-none [] h = tt
  first_failure-none ((true, e) ∷ guards) h = ground arith
  first_failure-none ((false, e) ∷ guards) h = (refl, first_failure-none guards h)

  pub none-first_failure : (guards : List (Bool × E)) → Passes guards → first_failure guards ≡ none
  unfolding first_failure
  none-first_failure [] h = refl
  none-first_failure ((test, e) ∷ guards) h = ground (arith, none-first_failure guards h.1)

  pub or_else-none :
      (first later : Option E) → or_else first later ≡ none → (first ≡ none) × (later ≡ none)
  unfolding or_else
  or_else-none none later h = (refl, h)
  or_else-none (some e) later h = ground arith
