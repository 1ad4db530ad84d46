-- ===== src/Forward/Manager/Rollback.antt =====
-- The Apply of internal/forward/tcp.go that returns an error.
use portflow.Prelude.{
  ℕ, ◌<◌, ◌≡◌, refl, true, Option, some, List, [], arith, Option-cases, Result-cases, inl, inr,
  on_option, if-both,
}
use portflow.Dict.{Dict, Distinct}
use portflow.Forward.Prepare.Distinct.{prepare_rules-Distinct}
use portflow.Domain.{Net, ForwardRule, protocol_tcp, protocol_udp}
use portflow.Forward.Prepare.{PreparedRule, prepare_rules}
use portflow.Forward.Manager.{
  Host, Sockets, Manager, ApplyError, Started, start_all, close_all, apply_udp, apply,
  manager_closed,
}
use portflow.Forward.Manager.Growth.{Grown, is_open, is_open-close_all, start_all_lem}

-- What a rollback leaves of a grown set of sockets: the base's.
shrunk :
    (base : Sockets) (state : Started) (h : ℕ)
    → ((g : ℕ) → is_open g base.opened ≡ true → g < base.calls)
    → Grown base state
    → is_open h (close_all state.0 state.1).opened ≡ is_open h base.opened
shrunk base state h below g =
    ground (arith, is_open-close_all h state.0 state.1, g.opened h, g.fresh h, below h)

-- No handle is given out twice.
pub record IsTidy (manager : Manager) : Type 0 where
  pub below : (h : ℕ) → is_open h manager.sockets.opened ≡ true → h < manager.sockets.calls

-- The rules, limits and sockets are as they were.
pub record Untouched (before after : Manager) : Type 0 where
  pub same_forwarders : after.forwarders ≡ before.forwarders
  pub same_udp_forwarders : after.udp_forwarders ≡ before.udp_forwarders
  pub same_limiters : after.limiters ≡ before.limiters
  pub same_closed : after.closed ≡ before.closed
  pub same_sockets : (h : ℕ) → is_open h after.sockets.opened ≡ is_open h before.sockets.opened

untouched : (manager : Manager) → Untouched manager manager
untouched manager = record {
  same_forwarders = refl;
  same_udp_forwarders = refl;
  same_limiters = refl;
  same_closed = refl;
  same_sockets = λ h. refl;
}

rolled_back :
    (manager : Manager) (sockets : Sockets)
    → ((h : ℕ) → is_open h sockets.opened ≡ is_open h manager.sockets.opened)
    → Untouched manager (record manager { sockets = sockets })
rolled_back manager sockets same = record {
  same_forwarders = refl;
  same_udp_forwarders = refl;
  same_limiters = refl;
  same_closed = refl;
  same_sockets = same;
}

-- Where the UDP listeners fail, what the TCP listeners opened is closed behind them.
shrunk_twice :
    (base : Sockets) (tcp udp : Started) (h : ℕ)
    → ((g : ℕ) → is_open g base.opened ≡ true → g < base.calls)
    → Grown base tcp
    → Grown tcp.1 udp
    → is_open h (close_all udp.0 (close_all tcp.0 udp.1)).opened ≡ is_open h base.opened
shrunk_twice base tcp udp h below g k = ground (
  arith,
  is_open-close_all h udp.0 (close_all tcp.0 udp.1),
  is_open-close_all h tcp.0 udp.1,
  g.opened h,
  g.fresh h,
  g.later,
  k.opened h,
  k.fresh h,
  below h,
)

apply_udp-Untouched :
    (host : Host) (now : ℕ) (manager : Manager) (desired : Dict PreparedRule) (state : Started)
    (e : ApplyError)
    → IsTidy manager
    → Distinct desired
    → Grown manager.sockets state
    → (apply_udp host now manager desired state).0 ≡ some e
    → Untouched manager (apply_udp host now manager desired state).1
unfolding apply_udp
apply_udp-Untouched host now manager desired (started, sockets) e tidy d grown failed =
    let state = start_all host "udp" protocol_udp manager.udp_forwarders desired ([], sockets) in
    elim (Option-cases state.0) [
      | inl fine ↦ absurd (ground (arith, fine))
      | inr (problem, f) ↦
          rw (apply_udp, f)
            (rolled_back manager (close_all state.1.0 (close_all started state.1.1)) λ h.
              shrunk_twice manager.sockets (started, sockets) state.1 h tidy.below grown
                (start_all_lem host "udp" protocol_udp manager.udp_forwarders sockets desired d))
    ]

-- An Apply that returns an error, for whatever reason, leaves the listeners, the limiters and the
-- closed mark as they were, and the open sockets are those that were open before, where every open
-- socket has a handle that was given out.
pub apply-Untouched :
    (net : Net) (host : Host) (now : ℕ) (manager : Manager) (rules : List ForwardRule)
    (e : ApplyError)
    → IsTidy manager
    → (apply net host now manager rules).0 ≡ some e
    → Untouched manager (apply net host now manager rules).1
unfolding apply
apply-Untouched net host now manager rules e tidy failed =
    elim (Result-cases (prepare_rules net rules manager.node_id)) [
      | inl (problem, f) ↦ rw (apply, f) (untouched manager)
      | inr (desired, f) ↦
          let d = prepare_rules-Distinct net rules manager.node_id desired f in
          let state =
            start_all host "tcp" protocol_tcp manager.forwarders desired ([], manager.sockets) in
          let grown =
            start_all_lem host "tcp" protocol_tcp manager.forwarders manager.sockets desired d in
          let after = λ (result : Option ApplyError × Manager).
            result.0 ≡ some e → Untouched manager result.1 in
          let kept : after (apply net host now manager rules) =
            rw (apply, f)
              (if-both after manager.closed (some manager_closed, manager)
                (on_option state.0 (apply_udp host now manager desired state.1)
                  λ e'. (some e', record manager { sockets = close_all state.1.0 state.1.1 }))
                (λ shut is. untouched manager)
                (λ running. elim (Option-cases state.0) [
                  | inr (problem, k) ↦ rw k λ is.
                      rolled_back manager (close_all state.1.0 state.1.1)
                        λ h. shrunk manager.sockets state.1 h tidy.below grown
                  | inl fine ↦
                      rw fine (apply_udp-Untouched host now manager desired state.1 e tidy d grown)
                ])) in
          kept failed
    ]
