-- ===== src/Forward/Manager/Running.antt =====
-- The manager as the forwarder that the agent's runtime drives: `forward.NewManager` in
-- cmd/agent/main.go, handed to agent.NewRuntime. Calls of Apply come one after another.
use portflow.Prelude.{
  ℕ, ◌+◌, String, ◌≡◌, ◌≢◌, refl, sym, true, false, Option, none, some, List, [], arith, on_option,
  subst, Option-cases, Result-cases, inl, inr, ok, err,
}
use portflow.Dict.{Dict, lookup}
use portflow.Domain.{Net, ForwardRule, protocol_tcp, protocol_udp}
use portflow.Forward.{Forwarder, Stats}
use portflow.Forward.Prepare.{PreparedRule, PrepareError, prepare_rules, prepare_all}
use portflow.Forward.Manager.{Host, Sockets, Listener, Manager, ApplyError, apply}
use portflow.Forward.Manager.Rollback.{IsTidy, apply-Untouched}
use portflow.Forward.Manager.Serving.{Serves, apply-Serves}
use portflow.Forward.Manager.Tidy.{apply-IsTidy}

-- NewManager, with its options' functions in the host and the sockets that the process has.
abbrev pub new_manager : String → Sockets → Manager
new_manager node_id sockets = record {
  forwarders = [];
  udp_forwarders = [];
  limiters = [];
  node_id = node_id;
  closed = false;
  sockets = sockets;
}

-- A manager, the number of calls of Apply so far, and the rules of the last one that succeeded.
pub record Running : Type 0 where
  pub manager : Manager
  pub turn : ℕ
  pub accepted : List ForwardRule

-- The n-th call of Apply runs at the time `clock n`; `text` is what an error says.
module _ (net : Net) (host : Host) (clock : ℕ → ℕ) (text : ApplyError → List ℕ) where
  unfoldable pub run_apply : Running → List ForwardRule → Option (List ℕ) × Running
  run_apply running rules =
      let (problem, manager) = apply net host (clock running.turn) running.manager rules in
      (
        on_option problem none λ e. some (text e),
        record {
          manager = manager;
          turn = running.turn + 1;
          accepted = on_option problem rules λ e. running.accepted;
        },
      )

  pub run_apply_accepted :
      (running : Running) (rules : List ForwardRule)
      → (run_apply running rules).0 ≡ none
      → (run_apply running rules).1.accepted ≡ rules
  unfolding run_apply
  run_apply_accepted running rules e = ground arith

  pub run_apply_refused :
      (running : Running) (rules : List ForwardRule)
      → (run_apply running rules).0 ≢ none
      → (run_apply running rules).1.accepted ≡ running.accepted
  unfolding run_apply
  run_apply_refused running rules e = ground arith

  -- `report` stands for Stats.
  abbrev pub manager_forwarder : (Running → Stats) → Forwarder Running
  manager_forwarder report = record {
    apply = run_apply;
    stats = report;
    serves = λ running. running.accepted;
    apply-ok = run_apply_accepted;
    apply-err = run_apply_refused;
  }

-- The listeners are those that these rules call for on this node, and no others.
pub record IsServing (net : Net) (manager : Manager) (rules : List ForwardRule) : Type 0 where
  pub prepared : Dict PreparedRule
  pub called_for : prepare_rules net rules manager.node_id ≡ ok prepared
  pub over_tcp : Serves protocol_tcp prepared manager.forwarders
  pub over_udp : Serves protocol_udp prepared manager.udp_forwarders

pub record IsRunning (net : Net) (running : Running) : Type 0 where
  pub tidy : IsTidy running.manager
  pub serving : IsServing net running.manager running.accepted

apply-node_id :
    (net : Net) (host : Host) (now : ℕ) (manager : Manager) (rules : List ForwardRule)
    → (apply net host now manager rules).1.node_id ≡ manager.node_id
unfolding apply
apply-node_id net host now manager rules = ground arith

apply_invalid :
    (net : Net) (host : Host) (now : ℕ) (manager : Manager) (rules : List ForwardRule)
    (problem : PrepareError)
    → prepare_rules net rules manager.node_id ≡ err problem
    → (apply net host now manager rules).0 ≢ none
unfolding apply
apply_invalid net host now manager rules problem invalid fine = ground (arith, invalid, fine)

nothing-Serves : (own : String) → Serves own [] []
unfolding lookup
nothing-Serves own = record {
  listening = λ k prepared found running. absurd (ground (arith, found));
  silent = λ k idle. refl;
}

pub new_manager-IsServing :
    (net : Net) (node_id : String) (sockets : Sockets)
    → IsServing net (new_manager node_id sockets) []
unfolding prepare_rules prepare_all lookup
new_manager-IsServing net node_id sockets = record {
  prepared = [];
  called_for = refl;
  over_tcp = nothing-Serves protocol_tcp;
  over_udp = nothing-Serves protocol_udp;
}

module _ (net : Net) (host : Host) (clock : ℕ → ℕ) (text : ApplyError → List ℕ)
    (sound : (a b : ForwardRule) → host.deep_equal a b ≡ true → a ≡ b) where
  accepted-IsServing :
      (running : Running) (rules : List ForwardRule)
      → let after = apply net host (clock running.turn) running.manager rules in
        after.0 ≡ none → IsServing net after.1 rules
  accepted-IsServing running rules fine =
      let now = clock running.turn in
      elim (Result-cases (prepare_rules net rules running.manager.node_id)) [
        | inl (problem, f) ↦
            absurd (apply_invalid net host now running.manager rules problem f fine)
        | inr (desired, f) ↦
            let served = apply-Serves net host now running.manager rules desired sound f fine in
            record {
              prepared = desired;
              called_for = rw (apply-node_id net host now running.manager rules) f;
              over_tcp = served.0;
              over_udp = served.1;
            }
      ]

  refused-IsServing :
      (running : Running) (rules : List ForwardRule) (e : ApplyError)
      → IsRunning net running
      → let after = apply net host (clock running.turn) running.manager rules in
        after.0 ≡ some e → IsServing net after.1 running.accepted
  refused-IsServing running rules e r failed =
      let now = clock running.turn in
      let same = apply-Untouched net host now running.manager rules e r.tidy failed in
      let s = r.serving in
      record {
        prepared = s.prepared;
        called_for = rw (apply-node_id net host now running.manager rules) s.called_for;
        over_tcp =
            subst (λ (listeners : Dict Listener). Serves protocol_tcp s.prepared listeners)
              (sym same.same_forwarders) s.over_tcp;
        over_udp =
            subst (λ (listeners : Dict Listener). Serves protocol_udp s.prepared listeners)
              (sym same.same_udp_forwarders) s.over_udp;
      }

  -- A call of Apply keeps the listeners those of the rules that the last successful call was given.
  pub run_apply-IsRunning :
      (running : Running) (rules : List ForwardRule)
      → IsRunning net running
      → IsRunning net (run_apply net host clock text running rules).1
  unfolding run_apply
  run_apply-IsRunning running rules r =
      let now = clock running.turn in
      let tidy = apply-IsTidy net host now running.manager rules r.tidy in
      elim (Option-cases (apply net host now running.manager rules).0) [
        | inl fine ↦ record {
          tidy = tidy;
          serving = rw fine (accepted-IsServing running rules fine);
        }
        | inr (e, failed) ↦ record {
          tidy = tidy;
          serving = rw failed (refused-IsServing running rules e r failed);
        }
      ]
