-- ===== src/Forward/Manager/Ownership/Opened.antt =====
-- The handles that listeners have, and those that a loop of Apply gives out: each to one listener.
use portflow.Prelude.{
  ℕ, ◌<◌, ◌≤◌, String, ◌≡◌, true, some, [], ◌∷◌, ◌==◌, ◌||◌, not, eqb, arith, Bool-cases,
  Option-cases, inl, inr, eq_iff, eq_refl, ◌⊎◌,
}
use portflow.Dict.{Dict, lookup, Distinct}
use portflow.Dict.Laws.{lookup-insert}
use portflow.Dict.Entries.{insert-Distinct}
use portflow.Forward.Prepare.{PreparedRule}
use portflow.Forward.Manager.{
  Host, Sockets, Listener, Started, new_listener, runs, stays, start_one, start_all,
}
use portflow.Forward.Manager.Growth.{has_handle}

-- Two listeners under different identifiers have different handles.
abbrev pub AreAlone : Dict Listener → Type 0
AreAlone listeners =
    (k j : String) (l m : Listener)
    → lookup k listeners ≡ some l
    → lookup j listeners ≡ some m
    → l.handle ≡ m.handle
    → k ≡ j

pub handle_found :
    (k : String) (l : Listener) (listeners : Dict Listener)
    → lookup k listeners ≡ some l
    → has_handle l.handle listeners ≡ true
unfolding has_handle lookup
handle_found k l [] e = absurd (ground (arith, e))
handle_found k l ((id, other) ∷ rest) e = ground (arith, handle_found k l rest)

pub handle_at :
    (h : ℕ) (listeners : Dict Listener)
    → Distinct listeners
    → has_handle h listeners ≡ true
    → (k : String) × (l : Listener) × (lookup k listeners ≡ some l) × (l.handle ≡ h)
unfolding has_handle lookup
handle_at h [] d e = absurd (ground (arith, e))
handle_at h ((id, other) ∷ rest) d e = elim (Bool-cases (eqb other.handle h)) [
  | inl same ↦ (id, other, ground (arith, eq_refl id), ground (arith, same))
  | inr differs ↦
      let found = handle_at h rest d.1 (ground (arith, e, differs)) in
      (found.0, found.1, ground (arith, d.0, eq_iff id found.0, found.2), found.3)
]

-- What a loop has started: new handles, each under one identifier.
pub record IsOpened (base : Sockets) (state : Started) : Type 0 where
  pub distinct : Distinct state.0
  pub alone : AreAlone state.0
  pub under : (k : String) (l : Listener) → lookup k state.0 ≡ some l → l.handle < state.1.calls
  pub over : (k : String) (l : Listener) → lookup k state.0 ≡ some l → base.calls ≤ l.handle
  pub later : base.calls ≤ state.1.calls

module _ (host : Host) (network own : String) (held : Dict Listener) (base : Sockets) where
  start_one-IsOpened :
      (id : String) (prepared : PreparedRule) (started : Dict Listener) (sockets : Sockets)
      → IsOpened base (started, sockets)
      → IsOpened base (start_one host network own held id prepared (started, sockets)).1
  unfolding start_one
  start_one-IsOpened id prepared started sockets s =
      elim (Bool-cases (not (runs own prepared) || stays held id prepared)) [
        | inl skipped ↦ rw skipped s
        | inr needed ↦
            elim (Option-cases
              (host.listen network prepared.listen_host prepared.listen_port sockets.calls)) [
                | inr (text, failed) ↦
                    rw (needed, failed)
                      (record {
                        distinct = s.distinct;
                        alone = s.alone;
                        under = λ k l e. ground (arith, s.under k l);
                        over = s.over;
                        later = ground (arith, s.later);
                      })
                | inl bound ↦
                    let new = new_listener sockets.calls prepared in
                    let read = λ (k : String). lookup-insert id k new started in
                    rw (needed, bound)
                      (record {
                        distinct = insert-Distinct id new started s.distinct;
                        alone = λ k j l m e f same. ground (
                          arith,
                          read k,
                          read j,
                          eq_iff id k,
                          eq_iff id j,
                          s.alone k j l m,
                          s.under k l,
                          s.under j m,
                        );
                        under = λ k l e. ground (arith, read k, s.under k l);
                        over = λ k l e. ground (arith, read k, s.over k l, s.later);
                        later = ground (arith, s.later);
                      })
              ]
      ]

  pub start_all-IsOpened :
      (desired : Dict PreparedRule) (state : Started)
      → IsOpened base state
      → IsOpened base (start_all host network own held desired state).1
  unfolding start_all
  start_all-IsOpened [] state s = s
  start_all-IsOpened ((id, prepared) ∷ desired) state s =
      let next = start_one host network own held id prepared state in
      let opened = start_one-IsOpened id prepared state.0 state.1 s in
      elim (Option-cases next.0) [
        | inr (e, failed) ↦ rw (start_all, failed) opened
        | inl fine ↦ rw (start_all, fine) (start_all-IsOpened desired next.1 opened)
      ]

  start_one_only :
      (id : String) (prepared : PreparedRule) (started : Dict Listener) (sockets : Sockets)
      (k : String) (l : Listener)
      → lookup k (start_one host network own held id prepared (started, sockets)).1.0 ≡ some l
      → (lookup k started ≡ some l) ⊎ ((id ≡ k) × (runs own prepared ≡ true))
  unfolding start_one
  start_one_only id prepared started sockets k l e = elim (Bool-cases (id == k)) [
    | inr other ↦
        inl
          (ground (arith, other, lookup-insert id k (new_listener sockets.calls prepared) started))
    | inl same ↦ elim (Bool-cases (runs own prepared)) [
      | inl is ↦ inr (ground (arith, eq_iff id k, same), is)
      | inr never ↦ inl (ground (arith, never))
    ]
  ]

  from_one :
      (id : String) (prepared : PreparedRule) (desired : Dict PreparedRule)
      (started : Dict Listener) (sockets : Sockets) (k : String) (l : Listener)
      → lookup k (start_one host network own held id prepared (started, sockets)).1.0 ≡ some l
      → (lookup k started ≡ some l)
        ⊎ ((p : PreparedRule) × (lookup k ((id, prepared) ∷ desired) ≡ some p)
            × (runs own p ≡ true))
  unfolding lookup
  from_one id prepared desired started sockets k l e =
      elim (start_one_only id prepared started sockets k l e) [
        | inl old ↦ inl old
        | inr (same, is) ↦ inr (prepared, ground (arith, eq_iff id k, same), is)
      ]

  -- Only rules that run over the protocol are started.
  pub start_all_only :
      (desired : Dict PreparedRule) (started : Dict Listener) (sockets : Sockets) (k : String)
      (l : Listener)
      → Distinct desired
      → lookup k (start_all host network own held desired (started, sockets)).1.0 ≡ some l
      → (lookup k started ≡ some l)
        ⊎ ((p : PreparedRule) × (lookup k desired ≡ some p) × (runs own p ≡ true))
  unfolding start_all lookup
  start_all_only [] started sockets k l d e = inl e
  start_all_only ((id, prepared) ∷ desired) started sockets k l d e =
      let next = start_one host network own held id prepared (started, sockets) in
      elim (Option-cases next.0) [
        | inr (problem, failed) ↦
            from_one id prepared desired started sockets k l (ground (arith, failed, e))
        | inl fine ↦
            let later : lookup k (start_all host network own held desired next.1).1.0 ≡ some l =
              ground (arith, fine, e) in
            elim (start_all_only desired next.1.0 next.1.1 k l d.1 later) [
              | inl here ↦ from_one id prepared desired started sockets k l here
              | inr (p, found, is) ↦ inr (p, ground (arith, d.0, eq_iff id k, found), is)
            ]
      ]
