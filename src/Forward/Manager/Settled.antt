-- ===== src/Forward/Manager/Settled.antt =====
-- The loops of Apply that end without an error.
use portflow.Prelude.{
  ℕ, String, ◌≡◌, ◌∙◌, refl, true, false, none, some, [], ◌∷◌, ◌==◌, arith, ◌⊎◌, Bool-cases,
  Option-cases, inl, inr, subst, eq_iff, eq_refl, ap, sym,
}
use portflow.Dict.{Dict, lookup, Distinct}
use portflow.Dict.Laws.{lookup-insert}
use portflow.Forward.Prepare.{PreparedRule}
use portflow.Forward.Manager.{
  Host, Sockets, Listener, runs, stays, start_one, start_all, new_listener,
}
use portflow.Forward.Manager.Growth.{Apart, start_one-Apart, first_unstarted}

-- A rule that runs over the protocol was started, or it stays where it is.
unfoldable pub Settled : Dict Listener → Dict Listener → String → PreparedRule → Type 0
Settled held started k prepared =
    ((handle : ℕ) × (lookup k started ≡ some (new_listener handle prepared)))
    ⊎ ((lookup k started ≡ none) × (stays held k prepared ≡ true))

module _ (host : Host) (network own : String) (held : Dict Listener) where
  start_one_elsewhere :
      (id k : String) (prepared : PreparedRule) (started : Dict Listener) (sockets : Sockets)
      → (id == k) ≡ false
      → lookup k (start_one host network own held id prepared (started, sockets)).1.0
        ≡ lookup k started
  unfolding start_one
  start_one_elsewhere id k prepared started sockets apart =
      ground (arith, lookup-insert id k (new_listener sockets.calls prepared) started)

  start_all_elsewhere :
      (desired : Dict PreparedRule) (k : String) (started : Dict Listener) (sockets : Sockets)
      → lookup k desired ≡ none
      → lookup k (start_all host network own held desired (started, sockets)).1.0 ≡ lookup k started
  unfolding start_all lookup
  start_all_elsewhere [] k started sockets e = refl
  start_all_elsewhere ((id, prepared) ∷ desired) k started sockets e =
      let next = (start_one host network own held id prepared (started, sockets)).1 in
      ground (
        arith,
        start_one_elsewhere id k prepared started sockets,
        start_all_elsewhere desired k next.0 next.1,
      )

  start_one-Settled :
      (id : String) (prepared : PreparedRule) (started : Dict Listener) (sockets : Sockets)
      → lookup id started ≡ none
      → runs own prepared ≡ true
      → (start_one host network own held id prepared (started, sockets)).0 ≡ none
      → Settled held
          (start_one host network own held id prepared (started, sockets)).1.0
          id
          prepared
  unfolding start_one Settled
  start_one-Settled id prepared started sockets new is fine =
      elim (Bool-cases (stays held id prepared)) [
        | inl s ↦ inr (ground (arith, s), s)
        | inr s ↦ inl (
          sockets.calls,
          ground (
            arith,
            s,
            lookup-insert id id (new_listener sockets.calls prepared) started,
            eq_refl id,
          ),
        )
      ]

  pub start_all-Settled :
      (desired : Dict PreparedRule) (k : String) (prepared : PreparedRule) (started : Dict Listener)
      (sockets : Sockets)
      → Distinct desired
      → Apart desired started
      → lookup k desired ≡ some prepared
      → runs own prepared ≡ true
      → (start_all host network own held desired (started, sockets)).0 ≡ none
      → Settled held (start_all host network own held desired (started, sockets)).1.0 k prepared
  unfolding start_all Settled lookup
  start_all-Settled [] k prepared started sockets d a found is fine = absurd (ground (arith, found))
  start_all-Settled ((id, first) ∷ desired) k prepared started sockets d a found is fine =
      let head = start_one host network own held id first (started, sockets) in
      elim (Option-cases head.0) [
        | inr (e, failed) ↦ absurd (ground (arith, failed))
        | inl opened ↦
            let rest_fine : (start_all host network own held desired (head.1.0, head.1.1)).0
                ≡ none =
              ground (arith, opened) in
            elim (Bool-cases (id == k)) [
              | inr other ↦
                  rw (start_all, opened)
                    (start_all-Settled desired k prepared head.1.0 head.1.1 d.1
                      (start_one-Apart host network own held sockets id first desired started
                        sockets d.0 a)
                      (ground (arith, other)) is rest_fine)
              | inl same ↦
                  let key : id ≡ k = ground (arith, eq_iff id k, same) in
                  let value : first ≡ prepared = ground (arith, same) in
                  let runs_first : runs own first ≡ true = ap (runs own) value ∙ is in
                  let rest =
                    start_all_elsewhere desired k head.1.0 head.1.1 (ground (arith, key, d.0)) in
                  elim (start_one-Settled id first started sockets
                    (first_unstarted id first desired started a) runs_first opened) [
                      | inl (handle, e) ↦
                          rw (start_all, opened)
                            (inl (
                              handle,
                              rest
                                  ∙ subst
                                      (λ (j : String).
                                        lookup j head.1.0 ≡ some (new_listener handle prepared))
                                      key (e ∙ ap (λ p. some (new_listener handle p)) value),
                            ))
                      | inr (e, s) ↦
                          rw (start_all, opened)
                            (inr (
                              rest ∙ subst (λ (j : String). lookup j head.1.0 ≡ none) key e,
                              subst (λ (j : String). stays held j prepared ≡ true) key
                                  (ap (stays held id) (sym value) ∙ s),
                            ))
                    ]
            ]
      ]
