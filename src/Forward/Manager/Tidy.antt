-- ===== src/Forward/Manager/Tidy.antt =====
-- The handles of the manager's open sockets, and the number of those given out.
use portflow.Prelude.{
  ℕ, ◌<◌, String, ◌≡◌, refl, true, false, Option, some, List, [], ◌∷◌, eqb, arith, Option-cases,
  Result-cases, inl, inr, on_option, if◌then◌else◌, if-both,
}
use portflow.Dict.{Dict, lookup}
use portflow.Domain.{Net, ForwardRule, protocol_tcp, protocol_udp}
use portflow.Forward.Prepare.{PreparedRule, prepare_rules}
use portflow.Forward.Manager.{
  Host, Sockets, Listener, Manager, ApplyError, Started, start_one, start_all, close_socket,
  close_all, close_replaced, commit_apply, next_listeners, retarget_tcp, retarget_udp, apply_udp,
  apply, manager_closed,
}
use portflow.Forward.Manager.Growth.{is_open, is_open-close_all, is_open-without}
use portflow.Forward.Manager.Rollback.{IsTidy}

abbrev pub AreBelow : Sockets → Type 0
AreBelow sockets = (h : ℕ) → is_open h sockets.opened ≡ true → h < sockets.calls

calls-close_all :
    (listeners : Dict Listener) (sockets : Sockets)
    → (close_all listeners sockets).calls ≡ sockets.calls
unfolding close_all
calls-close_all [] sockets = refl
calls-close_all ((id, listener) ∷ rest) sockets =
    calls-close_all rest (close_socket listener.handle sockets)

close_all-AreBelow :
    (listeners : Dict Listener) (sockets : Sockets)
    → AreBelow sockets
    → AreBelow (close_all listeners sockets)
close_all-AreBelow listeners sockets b h e =
    ground (arith, b h, is_open-close_all h listeners sockets, calls-close_all listeners sockets)

closed_AreBelow :
    (closing : ℕ) (sockets : Sockets) → AreBelow sockets → AreBelow (close_socket closing sockets)
closed_AreBelow closing sockets b h e =
    ground (arith, b h, is_open-without h closing sockets.opened)

pub close_replaced-AreBelow :
    (held next : Dict Listener) (sockets : Sockets)
    → AreBelow sockets
    → AreBelow (close_replaced held next sockets)
unfolding close_replaced
close_replaced-AreBelow [] next sockets b = b
close_replaced-AreBelow ((id, listener) ∷ rest) next sockets b =
    let remains = on_option (lookup id next) false λ other. eqb other.handle listener.handle in
    close_replaced-AreBelow rest next
      (if remains then sockets else close_socket listener.handle sockets)
      (if-both AreBelow remains sockets (close_socket listener.handle sockets) (λ e. b)
        λ e. closed_AreBelow listener.handle sockets b)

module _ (host : Host) (network own : String) (held : Dict Listener) where
  start_one-AreBelow :
      (id : String) (prepared : PreparedRule) (state : Started)
      → AreBelow state.1
      → AreBelow (start_one host network own held id prepared state).1.1
  unfolding start_one is_open
  start_one-AreBelow id prepared (started, sockets) b h e = ground (arith, b h)

  pub start_all-AreBelow :
      (desired : Dict PreparedRule) (state : Started)
      → AreBelow state.1
      → AreBelow (start_all host network own held desired state).1.1
  unfolding start_all
  start_all-AreBelow [] state b = b
  start_all-AreBelow ((id, prepared) ∷ desired) state b =
      let next = start_one host network own held id prepared state in
      let below = start_one-AreBelow id prepared state b in
      elim (Option-cases next.0) [
        | inr (e, failed) ↦ rw (start_all, failed) below
        | inl fine ↦ rw (start_all, fine) (start_all-AreBelow desired next.1 below)
      ]

apply_udp-AreBelow :
    (host : Host) (now : ℕ) (manager : Manager) (desired : Dict PreparedRule) (state : Started)
    → AreBelow state.1
    → AreBelow (apply_udp host now manager desired state).1.sockets
unfolding apply_udp commit_apply
apply_udp-AreBelow host now manager desired (started, sockets) b =
    let state = start_all host "udp" protocol_udp manager.udp_forwarders desired ([], sockets) in
    let below =
      start_all-AreBelow host "udp" protocol_udp manager.udp_forwarders desired ([], sockets) b in
    elim (Option-cases state.0) [
      | inr (problem, failed) ↦
          rw (apply_udp, failed)
            (close_all-AreBelow state.1.0 (close_all started state.1.1)
              (close_all-AreBelow started state.1.1 below))
      | inl fine ↦
          rw (apply_udp, fine)
            (close_replaced-AreBelow manager.udp_forwarders
              (next_listeners protocol_udp retarget_udp manager.udp_forwarders state.1.0 desired)
              (close_replaced manager.forwarders
                (next_listeners protocol_tcp (retarget_tcp host) manager.forwarders started desired)
                state.1.1)
              (close_replaced-AreBelow manager.forwarders
                (next_listeners protocol_tcp (retarget_tcp host) manager.forwarders started desired)
                state.1.1 below))
    ]

-- Apply keeps the handles of open sockets given out, whether it succeeds or not.
pub apply-IsTidy :
    (net : Net) (host : Host) (now : ℕ) (manager : Manager) (rules : List ForwardRule)
    → IsTidy manager
    → IsTidy (apply net host now manager rules).1
unfolding apply
apply-IsTidy net host now manager rules tidy =
    elim (Result-cases (prepare_rules net rules manager.node_id)) [
      | inl (problem, f) ↦ rw (apply, f) tidy
      | inr (desired, f) ↦
          let state =
            start_all host "tcp" protocol_tcp manager.forwarders desired ([], manager.sockets) in
          let below =
            start_all-AreBelow host "tcp" protocol_tcp manager.forwarders desired
              ([], manager.sockets) tidy.below in
          rw (apply, f)
            (if-both (λ (result : Option ApplyError × Manager). IsTidy result.1) manager.closed
              (some manager_closed, manager)
              (on_option state.0 (apply_udp host now manager desired state.1)
                λ e. (some e, record manager { sockets = close_all state.1.0 state.1.1 }))
              (λ shut. tidy)
              (λ running. elim (Option-cases state.0) [
                | inr (problem, failed) ↦
                    rw failed (record { below = close_all-AreBelow state.1.0 state.1.1 below })
                | inl fine ↦
                    rw fine
                      (record { below = apply_udp-AreBelow host now manager desired state.1 below })
              ]))
    ]
