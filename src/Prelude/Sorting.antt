-- ===== src/Prelude/Sorting.antt =====
-- sort.Slice with a `less` test, as an insertion sort. Go's sort is not stable: where `less` calls
-- two entries equal it leaves their order open, and this is one order that it may give.
use mathlib.Core.Logic.{inl, inr}
use mathlib.Core.Bool.{Bool}
use mathlib.Core.List.{List, [], ◌∷◌, Perm}
use mathlib.Core.List.Perm
use portflow.Prelude.Tests.{if◌then◌else◌, Bool-cases}
use portflow.Prelude.Lists.{All}

module _ {ℓ} {A : Type ℓ} (less : A → A → Bool) where
  -- Behind the entries that are less.
  unfoldable pub place : A → List A → List A
  place a [] = a ∷ []
  place a (x ∷ xs) = if less x a then x ∷ place a xs else a ∷ x ∷ xs

  unfoldable pub sort_by : List A → List A
  unfolding place
  sort_by [] = []
  sort_by (x ∷ xs) = place x (sort_by xs)

  pub place-perm : (a : A) (xs : List A) → Perm (place a xs) (a ∷ xs)
  unfolding place
  place-perm a [] = Perm.refl (a ∷ [])
  place-perm a (x ∷ xs) = elim (Bool-cases (less x a)) [
    | inl lower ↦ rw lower (Perm.trans (Perm.cons x (place-perm a xs)) (Perm.swap a x xs))
    | inr upper ↦ rw upper (Perm.refl (a ∷ x ∷ xs))
  ]

  -- The sorted list holds the same entries.
  pub sort_by-perm : (xs : List A) → Perm (sort_by xs) xs
  unfolding sort_by
  sort_by-perm [] = Perm.refl []
  sort_by-perm (x ∷ xs) = Perm.trans (place-perm x (sort_by xs)) (Perm.cons x (sort_by-perm xs))

  pub place-All {κ} : (P : A → Type κ) (a : A) (xs : List A) → P a → All P xs → All P (place a xs)
  unfolding place
  place-All P a [] h all = (h, tt)
  place-All P a (x ∷ xs) h all = elim (Bool-cases (less x a)) [
    | inl lower ↦ rw lower (all.0, place-All P a xs h all.1)
    | inr upper ↦ rw upper (h, all)
  ]

  pub sort_by-All {κ} : (P : A → Type κ) (xs : List A) → All P xs → All P (sort_by xs)
  unfolding sort_by
  sort_by-All P [] all = tt
  sort_by-All P (x ∷ xs) all = place-All P x (sort_by xs) all.0 (sort_by-All P xs all.1)
