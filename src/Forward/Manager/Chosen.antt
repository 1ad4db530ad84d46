-- ===== src/Forward/Manager/Chosen.antt =====
-- What the next listeners of a protocol hold under an identifier.
use portflow.Prelude.{
  String, ◌≡◌, refl, true, false, Option, none, some, [], ◌∷◌, ◌==◌, arith, Bool-cases,
  Option-cases, inl, inr, subst, eq_iff, on_option,
}
use portflow.Dict.{Dict, lookup, Distinct}
use portflow.Forward.Prepare.{PreparedRule}
use portflow.Forward.Manager.{Listener, runs, next_listeners}

-- A rule's next listener: the started one, or the old one with the rule's settings.
unfoldable pub chosen :
    (Listener → PreparedRule → Listener)
    → Dict Listener
    → Dict Listener
    → String
    → PreparedRule
    → Option Listener
chosen retarget held started k prepared =
    on_option (lookup k started)
      (on_option (lookup k held) none λ listener. some (retarget listener prepared)) some

pub next_listeners_found :
    (own : String) (retarget : Listener → PreparedRule → Listener) (held started : Dict Listener)
    (desired : Dict PreparedRule) (k : String) (prepared : PreparedRule) (listener : Listener)
    → lookup k desired ≡ some prepared
    → runs own prepared ≡ true
    → chosen retarget held started k prepared ≡ some listener
    → lookup k (next_listeners own retarget held started desired) ≡ some listener
unfolding next_listeners lookup chosen
next_listeners_found own retarget held started [] k prepared listener found is e =
    absurd (ground (arith, found))
next_listeners_found own retarget held started ((id, first) ∷ desired) k prepared listener found is
      e =
    elim (Bool-cases (id == k)) [
      | inr other ↦ ground (
        arith,
        other,
        next_listeners_found own retarget held started desired k prepared listener
            (ground (arith, other)) is e,
      )
      | inl same ↦
          let key : k ≡ id = ground (arith, eq_iff id k, same) in
          let value : prepared ≡ first = ground (arith, same) in
          let head = λ (p : PreparedRule) (j : String).
            (runs own p ≡ true) × (chosen retarget held started j p ≡ some listener) in
          let both : head first id =
            subst (λ (j : String). head first j) key
              (subst (λ (p : PreparedRule). head p k) value (is, e)) in
          elim (Option-cases (lookup id started)) [
            | inr (other, f) ↦ ground (arith, same, both.0, both.1, f)
            | inl f ↦ elim (Option-cases (lookup id held)) [
              | inr (other, g) ↦ ground (arith, same, both.0, both.1, f, g)
              | inl g ↦ absurd (ground (arith, both.1, f, g))
            ]
          ]
    ]

pub next_listeners_absent :
    (own : String) (retarget : Listener → PreparedRule → Listener) (held started : Dict Listener)
    (desired : Dict PreparedRule) (k : String)
    → Distinct desired
    → ((prepared : PreparedRule) → lookup k desired ≡ some prepared → runs own prepared ≡ false)
    → lookup k (next_listeners own retarget held started desired) ≡ none
unfolding next_listeners lookup
next_listeners_absent own retarget held started [] k d absent = refl
next_listeners_absent own retarget held started ((id, first) ∷ desired) k d absent = ground (
  arith,
  next_listeners_absent own retarget held started desired k d.1
      λ prepared found. ground (arith, absent prepared, d.0, eq_iff id k),
  absent first,
  eq_iff id k,
)
