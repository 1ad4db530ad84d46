-- ===== src/Forward/Manager/Ownership/Turnover.antt =====
-- From the listeners before an Apply to those after it, for one protocol: which handles stay, which
-- come, and which sockets are closed.
use portflow.Prelude.{
  ℕ, String, ◌≡◌, sym, ap, ◌∙◌, true, false, some, [], ◌∷◌, ◌==◌, ◌&&◌, ◌||◌, not, eqb, arith,
  Bool-cases, Option-cases, inl, inr, eq_iff, ◌⊎◌, subst,
}
use portflow.Dict.{Dict, lookup, Distinct}
use portflow.Forward.Prepare.{PreparedRule}
use portflow.Forward.Manager.{Listener, runs, next_listeners}
use portflow.Forward.Manager.Growth.{has_handle}
use portflow.Forward.Manager.Chosen.{chosen, next_listeners_found, next_listeners_absent}
use portflow.Forward.Manager.Ownership.Opened.{AreAlone, handle_at}
use portflow.Forward.Manager.Ownership.Replaced.{
  stays_at, replaced, handle_here, replaced_from, replaced_found,
}
use portflow.Forward.Manager.Ownership.Turning.{IsTurning}

module _ (own : String) (retarget : Listener → PreparedRule → Listener)
    (held started : Dict Listener)
    (same_handle : (l : Listener) (p : PreparedRule) → (retarget l p).handle ≡ l.handle) where
  pub next_origin :
      (desired : Dict PreparedRule) (k : String) (n : Listener)
      → lookup k (next_listeners own retarget held started desired) ≡ some n
      → (lookup k started ≡ some n)
        ⊎ ((l : Listener) × (lookup k held ≡ some l) × (n.handle ≡ l.handle))
  unfolding next_listeners lookup
  next_origin [] k n e = absurd (ground (arith, e))
  next_origin ((id, first) ∷ desired) k n e =
      let before = λ (later : lookup k (next_listeners own retarget held started desired) ≡ some n).
        next_origin desired k n later in
      elim (Bool-cases (runs own first)) [
        | inr never ↦ before (ground (arith, never, e))
        | inl is ↦ elim (Bool-cases (id == k)) [
          | inr other ↦ before (ground (arith, is, other, e))
          | inl same ↦
              let key : id ≡ k = ground (arith, eq_iff id k, same) in
              elim (Option-cases (lookup id started)) [
                | inr (s, f) ↦
                    let value : s ≡ n = ground (arith, is, same, f, e) in
                    inl (subst (λ (j : String). lookup j started ≡ some n) key (f ∙ ap some value))
                | inl f ↦ elim (Option-cases (lookup id held)) [
                  | inl g ↦ before (ground (arith, is, f, g, e))
                  | inr (l, g) ↦
                      let value : n ≡ retarget l first = ground (arith, is, same, f, g, e) in
                      inr (
                        l,
                        subst (λ (j : String). lookup j held ≡ some l) key g,
                        ap (λ (m : Listener). m.handle) value ∙ same_handle l first,
                      )
                ]
              ]
        ]
      ]

  pub next_listeners-Distinct :
      (desired : Dict PreparedRule)
      → Distinct desired
      → Distinct (next_listeners own retarget held started desired)
  unfolding next_listeners
  next_listeners-Distinct [] d = tt
  next_listeners-Distinct ((id, first) ∷ desired) d = ground (
    arith,
    next_listeners-Distinct desired d.1,
    next_listeners_absent own retarget held started desired id d.1
        λ p found. absurd (ground (arith, d.0, found)),
  )

module _ (own : String) (retarget : Listener → PreparedRule → Listener)
    (held started : Dict Listener) (desired : Dict PreparedRule) (calls : ℕ)
    (same_handle : (l : Listener) (p : PreparedRule) → (retarget l p).handle ≡ l.handle)
    (t : IsTurning own held started desired calls) where
  abbrev next : Dict Listener
  next = next_listeners own retarget held started desired

  next_started : (k : String) (l : Listener) → lookup k started ≡ some l → lookup k next ≡ some l
  unfolding chosen
  next_started k l e =
      let rule = t.called_for k l e in
      next_listeners_found own retarget held started desired k rule.0 l rule.1 rule.2
        (ground (arith, e))

  pub next-AreAlone : AreAlone next
  next-AreAlone k j l m e f same =
      elim (next_origin own retarget held started same_handle desired k l e) [
        | inl s ↦ elim (next_origin own retarget held started same_handle desired j m f) [
          | inl r ↦ t.alone k j l m s r same
          | inr (x, r, is) ↦ absurd (omega (arith, t.new k l s, t.held_old j x r, same, is))
        ]
        | inr (y, s, was) ↦ elim (next_origin own retarget held started same_handle desired j m f) [
          | inl r ↦ absurd (omega (arith, t.new j m r, t.held_old k y s, same, was))
          | inr (x, r, is) ↦ t.held_alone k j y x s r (omega (arith, same, is, was))
        ]
      ]

  pub next-Distinct : Distinct next
  next-Distinct = next_listeners-Distinct own retarget held started same_handle desired t.unrepeated

  -- A handle of the next listeners is new or old.
  pub handle_origin :
      (h : ℕ) → has_handle h next ≡ true → (has_handle h started || has_handle h held) ≡ true
  handle_origin h e =
      let (k, n, found, same) = handle_at h next next-Distinct e in
      elim (next_origin own retarget held started same_handle desired k n found) [
        | inl s ↦ ground (arith, handle_here h k n started s same)
        | inr (l, s, was) ↦ ground (arith, handle_here h k l held s (sym was ∙ same))
      ]

  pub handle_started : (h : ℕ) → has_handle h started ≡ true → has_handle h next ≡ true
  handle_started h e =
      let (k, l, found, same) = handle_at h started t.distinct e in
      handle_here h k l next (next_started k l found) same

  -- An old handle that stands among the next ones stands under its identifier.
  stays_put :
      (h : ℕ) (k : String) (l : Listener)
      → lookup k held ≡ some l
      → l.handle ≡ h
      → has_handle h next ≡ true
      → stays_at h k next ≡ true
  stays_put h k l found same e =
      let (j, n, at, is) = handle_at h next next-Distinct e in
      elim (next_origin own retarget held started same_handle desired j n at) [
        | inl s ↦ absurd (omega (arith, t.new j n s, t.held_old k l found, same, is))
        | inr (x, s, was) ↦
            let key : j ≡ k = t.held_alone j k x l s found (omega (arith, was, is, same)) in
            let here = subst (λ (i : String). lookup i next ≡ some n) key at in
            ground (arith, here, is)
      ]

  old_replaced : (h : ℕ) → has_handle h held ≡ true → replaced h held next ≡ not (has_handle h next)
  old_replaced h e =
      let (k, l, found, same) = handle_at h held t.held_distinct e in
      elim (Bool-cases (has_handle h next)) [
        | inr gone ↦
            let out : stays_at h k next ≡ false = elim (Option-cases (lookup k next)) [
              | inl none_there ↦ ground (arith, none_there)
              | inr (n, there) ↦ elim (Bool-cases (eqb n.handle h)) [
                | inr differs ↦ ground (arith, there, differs)
                | inl is ↦ absurd (ground (arith, handle_here h k n next there, is, gone))
              ]
            ] in
            replaced_found h k l held next found same out ∙ ground (arith, gone)
        | inl there ↦ elim (Bool-cases (replaced h held next)) [
          | inr kept ↦ kept ∙ ground (arith, there)
          | inl closed ↦
              let (j, x, at, is, goes) = replaced_from h held next t.held_distinct closed in
              absurd (ground (arith, stays_put h j x at is there, goes))
        ]
      ]

  others_replaced : (h : ℕ) → has_handle h held ≡ false → replaced h held next ≡ false
  others_replaced h e = elim (Bool-cases (replaced h held next)) [
    | inr kept ↦ kept
    | inl closed ↦
        let (j, x, at, is, goes) = replaced_from h held next t.held_distinct closed in
        absurd (ground (arith, handle_here h j x held at is, e))
  ]

  pub replaced_lem : (h : ℕ) → replaced h held next ≡ (has_handle h held && not (has_handle h next))
  replaced_lem h = elim (Bool-cases (has_handle h held)) [
    | inl was ↦ ground (arith, was, old_replaced h was)
    | inr new ↦ ground (arith, new, others_replaced h new)
  ]
