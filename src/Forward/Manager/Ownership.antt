-- ===== src/Forward/Manager/Ownership.antt =====
-- The open sockets of the manager of internal/forward/tcp.go and the listeners that have them, across
-- Apply and Close.
mod Opened
mod Replaced
mod Turning
mod Turnover
pub mod Owned
mod Next
use portflow.Prelude.{
  ℕ, ◌≡◌, refl, sym, ◌∙◌, Bool, true, false, Option, none, some, List, [], ◌∷◌, ◌&&◌, ◌||◌, not,
  arith, Option-cases, Result-cases, inl, inr, on_option, subst, if-both, ok, err, ap,
}
use portflow.Dict.{Dict, lookup, Distinct}
use portflow.Domain.{Net, ForwardRule, protocol_tcp, protocol_udp}
use portflow.Forward.Prepare.{PreparedRule, prepare_rules}
use portflow.Forward.Prepare.Distinct.{prepare_rules-Distinct}
use portflow.Forward.Manager.{
  Host, Sockets, Listener, Manager, ApplyError, start_all, close_all, commit_apply, apply_udp,
  apply, close_manager, manager_closed,
}
use portflow.Forward.Manager.Growth.{is_open, has_handle, is_open-close_all}
use portflow.Forward.Manager.Rollback.{IsTidy, Untouched, apply-Untouched}
use portflow.Forward.Manager.Tidy.{apply-IsTidy}
use portflow.Forward.Manager.Ownership.Owned.{AreOwned, IsOwned, nothing-AreOwned}
use portflow.Forward.Manager.Ownership.Next.{tcp_state, next-AreOwned}

Untouched-IsOwned :
    (before after : Manager)
    → IsOwned before
    → Untouched before after
    → IsTidy after
    → IsOwned after
Untouched-IsOwned before after owned same tidy =
    subst (λ (tcp : Dict Listener). AreOwned tcp after.udp_forwarders after.sockets)
      (sym same.same_forwarders)
      (subst (λ (udp : Dict Listener). AreOwned before.forwarders udp after.sockets)
        (sym same.same_udp_forwarders)
        (record {
          tcp_distinct = owned.tcp_distinct;
          udp_distinct = owned.udp_distinct;
          tcp_alone = owned.tcp_alone;
          udp_alone = owned.udp_alone;
          apart = owned.apart;
          accounted = λ h. same.same_sockets h ∙ owned.accounted h;
          below = tidy.below;
        }))

apply_udp-IsOwned :
    (host : Host) (now : ℕ) (manager : Manager) (desired : Dict PreparedRule) (d : Distinct desired)
    (owned : IsOwned manager)
    → (apply_udp host now manager desired (tcp_state host manager desired d owned)).0 ≡ none
    → IsOwned (apply_udp host now manager desired (tcp_state host manager desired d owned)).1
unfolding apply_udp commit_apply
apply_udp-IsOwned host now manager desired d owned e =
    elim (Option-cases
      (start_all host "udp" protocol_udp manager.udp_forwarders desired
        ([], (tcp_state host manager desired d owned).1)).0) [
          | inr (problem, failed) ↦ absurd (ground (arith, failed, e))
          | inl fine ↦ rw (apply_udp, fine) (next-AreOwned host manager desired d owned)
        ]

-- A successful Apply.
accepted-IsOwned :
    (net : Net) (host : Host) (now : ℕ) (manager : Manager) (rules : List ForwardRule)
    → IsOwned manager
    → (apply net host now manager rules).0 ≡ none
    → IsOwned (apply net host now manager rules).1
unfolding apply
accepted-IsOwned net host now manager rules owned fine =
    elim (Result-cases (prepare_rules net rules manager.node_id)) [
      | inl (problem, f) ↦ absurd (ground (arith, f, fine))
      | inr (desired, f) ↦
          let d = prepare_rules-Distinct net rules manager.node_id desired f in
          let state =
            start_all host "tcp" protocol_tcp manager.forwarders desired ([], manager.sockets) in
          let after =
            λ (result : Option ApplyError × Manager). result.0 ≡ none → IsOwned result.1 in
          let kept : after (apply net host now manager rules) =
            rw (apply, f)
              (if-both after manager.closed (some manager_closed, manager)
                (on_option state.0 (apply_udp host now manager desired state.1)
                  λ e. (some e, record manager { sockets = close_all state.1.0 state.1.1 }))
                (λ shut is. owned)
                (λ running. elim (Option-cases state.0) [
                  | inr (problem, failed) ↦ rw failed λ is. absurd (ground (arith, is))
                  | inl opened ↦ rw opened (apply_udp-IsOwned host now manager desired d owned)
                ])) in
          kept fine
    ]

IsOwned-IsTidy : (manager : Manager) → IsOwned manager → IsTidy manager
IsOwned-IsTidy manager owned = record { below = owned.below }

-- Apply keeps the sockets owned, whether it succeeds or not.
pub apply-IsOwned :
    (net : Net) (host : Host) (now : ℕ) (manager : Manager) (rules : List ForwardRule)
    → IsOwned manager
    → IsOwned (apply net host now manager rules).1
apply-IsOwned net host now manager rules owned =
    let after = apply net host now manager rules in
    elim (Option-cases after.0) [
      | inl fine ↦ accepted-IsOwned net host now manager rules owned fine
      | inr (e, failed) ↦
          let tidy = IsOwned-IsTidy manager owned in
          Untouched-IsOwned manager after.1 owned
            (apply-Untouched net host now manager rules e tidy failed)
            (apply-IsTidy net host now manager rules tidy)
    ]

pub close_manager-IsOwned : (manager : Manager) → IsOwned manager → IsOwned (close_manager manager)
unfolding close_manager
close_manager-IsOwned manager owned =
    let tcp_shut = close_all manager.forwarders manager.sockets in
    let shut = close_all manager.udp_forwarders tcp_shut in
    if-both IsOwned manager.closed manager
      (record manager {
        forwarders = [];
        udp_forwarders = [];
        limiters = [];
        closed = true;
        sockets = shut;
      })
      (λ e. owned)
      (λ e. nothing-AreOwned shut λ h. ground (
        arith,
        is_open-close_all h manager.udp_forwarders tcp_shut,
        is_open-close_all h manager.forwarders manager.sockets,
        owned.accounted h,
      ))
