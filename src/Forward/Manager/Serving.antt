-- ===== src/Forward/Manager/Serving.antt =====
-- The Apply of internal/forward/tcp.go that succeeds.
use portflow.Prelude.{
  ℕ, String, ◌≡◌, refl, true, false, Option, none, some, List, [], arith, Option-cases, inl, inr,
  subst, ok, eq_refl, on_option, if-both, sym,
}
use portflow.Dict.{Dict, lookup, Distinct}
use portflow.Forward.Prepare.Distinct.{prepare_rules-Distinct}
use portflow.Domain.{Net, ForwardRule, protocol_tcp, protocol_udp}
use portflow.Forward.Prepare.{PreparedRule, prepare_rules}
use portflow.Forward.Manager.{
  Host, Sockets, Listener, Manager, ApplyError, Started, runs, stays, start_all, next_listeners,
  retarget_tcp, retarget_udp, commit_apply, apply_udp, apply, new_listener, same_address,
  manager_closed, close_all,
}
use portflow.Forward.Manager.Growth.{empty-Apart}
use portflow.Forward.Manager.Settled.{Settled, start_all-Settled}
use portflow.Forward.Manager.Chosen.{chosen, next_listeners_found, next_listeners_absent}

-- The listeners of a protocol are those of the desired rules that run over it.
pub record Serves (own : String) (desired : Dict PreparedRule) (listeners : Dict Listener)
    : Type 0 where
  pub listening :
      (k : String) (prepared : PreparedRule)
      → lookup k desired ≡ some prepared
      → runs own prepared ≡ true
      → (listener : Listener) × (lookup k listeners ≡ some listener)
        × (same_address prepared listener ≡ true)
        × (listener.config.rule ≡ prepared.rule)
  pub silent :
      (k : String)
      → ((prepared : PreparedRule) → lookup k desired ≡ some prepared → runs own prepared ≡ false)
      → lookup k listeners ≡ none

new_listener-same_address :
    (handle : ℕ) (prepared : PreparedRule)
    → same_address prepared (new_listener handle prepared) ≡ true
new_listener-same_address handle prepared = ground (arith, eq_refl prepared.listen_host)

-- Settings for a listener at the rule's address leave it there and give it the rule.
Retargets : (Listener → PreparedRule → Listener) → Type 0
Retargets retarget =
    (listener : Listener) (prepared : PreparedRule)
    → same_address prepared listener ≡ true
    → (same_address prepared (retarget listener prepared) ≡ true)
      × ((retarget listener prepared).config.rule ≡ prepared.rule)

retarget_udp-Retargets : Retargets retarget_udp
unfolding Retargets
retarget_udp-Retargets listener prepared same = (same, refl)

retarget_tcp-Retargets :
    (host : Host)
    → ((a b : ForwardRule) → host.deep_equal a b ≡ true → a ≡ b)
    → Retargets (retarget_tcp host)
unfolding Retargets
retarget_tcp-Retargets host sound listener prepared same =
    if-both
      (λ (next : Listener).
        (same_address prepared next ≡ true) × (next.config.rule ≡ prepared.rule))
      (host.deep_equal listener.config.rule prepared.rule) listener
      (record listener { config = prepared })
      (λ equal. (same, sound listener.config.rule prepared.rule equal)) (λ changed. (same, refl))

next_listeners-Serves :
    (own : String) (retarget : Listener → PreparedRule → Listener) (held started : Dict Listener)
    (desired : Dict PreparedRule)
    → Distinct desired
    → Retargets retarget
    → ((k : String) (prepared : PreparedRule)
        → lookup k desired ≡ some prepared
        → runs own prepared ≡ true
        → Settled held started k prepared)
    → Serves own desired (next_listeners own retarget held started desired)
unfolding Settled Retargets chosen stays
next_listeners-Serves own retarget held started desired d keeps settled = record {
  listening = λ k prepared found is.
      let taken = λ (listener : Listener).
        next_listeners_found own retarget held started desired k prepared listener found is in
      elim (settled k prepared found is) [
        | inl (handle, e) ↦ (
          new_listener handle prepared,
          taken (new_listener handle prepared) (ground (arith, e)),
          new_listener-same_address handle prepared,
          refl,
        )
        | inr (e, s) ↦ elim (Option-cases (lookup k held)) [
          | inl f ↦ absurd (ground (arith, s, f))
          | inr (listener, f) ↦
              let same : same_address prepared listener ≡ true = ground (arith, s, f) in
              (
                retarget listener prepared,
                taken (retarget listener prepared) (ground (arith, e, f)),
                (keeps listener prepared same).0,
                (keeps listener prepared same).1,
              )
        ]
      ];
  silent = λ k absent. next_listeners_absent own retarget held started desired k d absent;
}

started-Serves :
    (host : Host) (network own : String) (held : Dict Listener) (sockets : Sockets)
    (retarget : Listener → PreparedRule → Listener) (desired : Dict PreparedRule)
    → Distinct desired
    → Retargets retarget
    → (start_all host network own held desired ([], sockets)).0 ≡ none
    → Serves own desired (
        next_listeners own retarget held
          (start_all host network own held desired ([], sockets)).1.0
          desired)
started-Serves host network own held sockets retarget desired d keeps fine =
    next_listeners-Serves own retarget held
      (start_all host network own held desired ([], sockets)).1.0 desired d keeps
      λ k prepared found is.
        start_all-Settled host network own held desired k prepared [] sockets d
          (empty-Apart desired) found is fine

apply_udp-Serves :
    (host : Host) (now : ℕ) (manager : Manager) (desired : Dict PreparedRule) (state : Started)
    → Distinct desired
    → (apply_udp host now manager desired state).0 ≡ none
    → Serves protocol_udp desired (apply_udp host now manager desired state).1.udp_forwarders
      × ((apply_udp host now manager desired state).1.forwarders
          ≡ next_listeners protocol_tcp (retarget_tcp host) manager.forwarders state.0 desired)
unfolding apply_udp commit_apply
apply_udp-Serves host now manager desired (started, sockets) d e =
    elim (Option-cases
      (start_all host "udp" protocol_udp manager.udp_forwarders desired ([], sockets)).0) [
        | inr (problem, failed) ↦ absurd (ground (arith, failed))
        | inl fine ↦
            rw (apply_udp, fine)
              (
                started-Serves host "udp" protocol_udp manager.udp_forwarders sockets retarget_udp
                    desired d retarget_udp-Retargets fine,
                refl,
              )
      ]

-- An Apply that succeeds, on rules that prepareRules makes the prepared rules `desired` of, and where
-- rules that reflect.DeepEqual takes as equal are equal: each prepared rule that runs over TCP has a
-- TCP listener under its identifier, at its address and with its rule, and there is no TCP listener
-- under another identifier; the same holds of UDP.
pub apply-Serves :
    (net : Net) (host : Host) (now : ℕ) (manager : Manager) (rules : List ForwardRule)
    (desired : Dict PreparedRule)
    → ((a b : ForwardRule) → host.deep_equal a b ≡ true → a ≡ b)
    → prepare_rules net rules manager.node_id ≡ ok desired
    → (apply net host now manager rules).0 ≡ none
    → Serves protocol_tcp desired (apply net host now manager rules).1.forwarders
      × Serves protocol_udp desired (apply net host now manager rules).1.udp_forwarders
unfolding apply
apply-Serves net host now manager rules desired sound prepared fine =
    let d = prepare_rules-Distinct net rules manager.node_id desired prepared in
    let state =
      start_all host "tcp" protocol_tcp manager.forwarders desired ([], manager.sockets) in
    let after = λ (result : Option ApplyError × Manager).
      result.0 ≡ none
      → Serves protocol_tcp desired result.1.forwarders
        × Serves protocol_udp desired result.1.udp_forwarders in
    let served : after (apply net host now manager rules) =
      rw (apply, prepared)
        (if-both after manager.closed (some manager_closed, manager)
          (on_option state.0 (apply_udp host now manager desired state.1)
            λ e. (some e, record manager { sockets = close_all state.1.0 state.1.1 }))
          (λ shut is. absurd (ground (arith, is)))
          (λ running. elim (Option-cases state.0) [
            | inr (problem, failed) ↦ rw failed λ is. absurd (ground (arith, is))
            | inl opened ↦ rw opened λ is.
                let udp = apply_udp-Serves host now manager desired state.1 d is in
                (
                  subst (λ (listeners : Dict Listener). Serves protocol_tcp desired listeners)
                      (sym udp.1)
                      (started-Serves host "tcp" protocol_tcp manager.forwarders manager.sockets
                        (retarget_tcp host) desired d (retarget_tcp-Retargets host sound) opened),
                  udp.0,
                )
          ])) in
    served fine
