-- ===== src/Forward/Manager/Calls.antt =====
-- The manager over a history of calls of Apply and Close, and who owns its sockets meanwhile.
use portflow.Prelude.{
  ℕ, ◌≡◌, false, Option, some, List, [], ◌∷◌, ◌&&◌, arith, Result-cases, inl, inr, on_option,
  if-both,
}
use portflow.Dict.{Dict}
use portflow.Domain.{Net, ForwardRule, protocol_tcp}
use portflow.Forward.Prepare.{PreparedRule, prepare_rules}
use portflow.Forward.Manager.{
  Host, Sockets, Listener, Manager, ApplyError, start_all, close_all, commit_apply, apply_udp,
  apply, close_manager, manager_closed,
}
use portflow.Forward.Manager.Growth.{is_open, is_open-close_all}
use portflow.Forward.Manager.Ownership.Owned.{IsOwned}
use portflow.Forward.Manager.Ownership.{apply-IsOwned, close_manager-IsOwned}

-- A call of the manager: Apply at a time with some rules, or Close.
pub data Call : Type 0 where
  applies : ℕ → List ForwardRule → Call
  closes : Call

-- The manager after the calls, one behind the other.
unfoldable pub run_manager : Net → Host → Manager → List Call → Manager
unfolding apply close_manager
run_manager net host manager [] = manager
run_manager net host manager (applies now rules ∷ calls) =
    run_manager net host (apply net host now manager rules).1 calls
run_manager net host manager (closes ∷ calls) = run_manager net host (close_manager manager) calls

-- The sockets are the listeners', and a closed manager has none open.
pub record IsKept (manager : Manager) : Type 0 where
  pub owned : IsOwned manager
  pub quiet : (h : ℕ) → manager.closed && is_open h manager.sockets.opened ≡ false

apply_udp_closed :
    (host : Host) (now : ℕ) (manager : Manager) (desired : Dict PreparedRule)
    (state : Dict Listener × Sockets)
    → (apply_udp host now manager desired state).1.closed ≡ manager.closed
unfolding apply_udp commit_apply
apply_udp_closed host now manager desired (started, sockets) = ground arith

-- On a closed manager Apply does nothing, and it never closes one.
apply_quiet :
    (net : Net) (host : Host) (now : ℕ) (manager : Manager) (rules : List ForwardRule) (h : ℕ)
    → manager.closed && is_open h manager.sockets.opened ≡ false
    → (apply net host now manager rules).1.closed
        && is_open h (apply net host now manager rules).1.sockets.opened
      ≡ false
unfolding apply
apply_quiet net host now manager rules h quiet =
    elim (Result-cases (prepare_rules net rules manager.node_id)) [
      | inl (problem, f) ↦ rw (apply, f) quiet
      | inr (desired, f) ↦
          let state =
            start_all host "tcp" protocol_tcp manager.forwarders desired ([], manager.sockets) in
          let after = λ (result : Option ApplyError × Manager).
            result.1.closed && is_open h result.1.sockets.opened ≡ false in
          rw (apply, f)
            (if-both after manager.closed (some manager_closed, manager)
              (on_option state.0 (apply_udp host now manager desired state.1)
                λ e. (some e, record manager { sockets = close_all state.1.0 state.1.1 }))
              (λ shut. quiet)
              (λ running. ground (arith, apply_udp_closed host now manager desired state.1)))
    ]

apply-IsKept :
    (net : Net) (host : Host) (now : ℕ) (manager : Manager) (rules : List ForwardRule)
    → IsKept manager
    → IsKept (apply net host now manager rules).1
apply-IsKept net host now manager rules kept = record {
  owned = apply-IsOwned net host now manager rules kept.owned;
  quiet = λ h. apply_quiet net host now manager rules h (kept.quiet h);
}

close_manager_quiet :
    (manager : Manager)
    → IsKept manager
    → (h : ℕ) → is_open h (close_manager manager).sockets.opened ≡ false
unfolding close_manager
close_manager_quiet manager kept h = ground (
  arith,
  kept.quiet h,
  is_open-close_all h manager.udp_forwarders (close_all manager.forwarders manager.sockets),
  is_open-close_all h manager.forwarders manager.sockets,
  kept.owned.accounted h,
)

close_manager-IsKept : (manager : Manager) → IsKept manager → IsKept (close_manager manager)
close_manager-IsKept manager kept = record {
  owned = close_manager-IsOwned manager kept.owned;
  quiet = λ h. ground (arith, close_manager_quiet manager kept h);
}

-- Let the sockets be the listeners' when the calls begin: an open socket is the handle of a
-- listener, each listener's handle is an open socket that no other listener has, and none is open
-- when the manager is closed. Then all this holds again after any calls of Apply and Close, one
-- behind the other, whatever rules they bring and whichever of their sockets fail to open.
pub run_manager-IsKept :
    (net : Net) (host : Host) (manager : Manager) (calls : List Call)
    → IsKept manager
    → IsKept (run_manager net host manager calls)
unfolding run_manager
run_manager-IsKept net host manager [] kept = kept
run_manager-IsKept net host manager (applies now rules ∷ calls) kept =
    run_manager-IsKept net host (apply net host now manager rules).1 calls
      (apply-IsKept net host now manager rules kept)
run_manager-IsKept net host manager (closes ∷ calls) kept =
    run_manager-IsKept net host (close_manager manager) calls (close_manager-IsKept manager kept)
