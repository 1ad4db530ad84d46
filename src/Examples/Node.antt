-- ===== src/Examples/Node.antt =====
-- The node n1: its runtime with its manager as the forwarder, and one round with a new rule.
use portflow.Prelude.{
  ℕ, ◌*◌, List, [], ◌∷◌, arith, ◌≡◌, refl, true, ok, contains, first_failure, or_else, trim_space,
}
use portflow.Dict.{lookup, insert}
use portflow.Domain.{validate, valid_tunnel_address, first_bad_cidr}
use portflow.Forward.{Stats}
use portflow.Forward.Prepare.{
  prepare_rules, prepare_all, prepare_rule, effective_rule, networks_of, claim, owner,
}
use portflow.Forward.Manager.{
  ApplyError, apply, apply_udp, start_all, start_one, runs, stays, close_all, without,
}
use portflow.Forward.Manager.Growth.{is_open}
use portflow.Forward.Manager.Running.{
  Running, IsRunning, IsServing, new_manager, new_manager-IsServing, manager_forwarder, run_apply,
}
use portflow.Store.{second}
use portflow.Agent.Logs.{new_log_buffer}
use portflow.Agent.Config.{validate_config, check_rules, identity_fields}
use portflow.Agent.Runtime.{Runtime, synchronize, passes, save}
use portflow.Agent.Runtime.Listeners.{NoneStranded, synchronize-IsServing, passes-IsServing}
use portflow.Agent.Runtime.Safety.{IsSettled}
use portflow.Examples.Fleet.{sample_net}
use portflow.Examples.Agent.{first_config, world}
use portflow.Examples.Forward.{free_host}

abbrev node : Runtime Running
node = record {
  forward = record {
    manager = new_manager "n1" (record { opened = []; calls = 4 });
    turn = 0;
    accepted = [];
  };
  version = "1.0";
  logs = new_log_buffer 1000 "ab";
  attempted_config_version = 1;
  last_config_error = [];
  current = first_config;
  saved = first_config;
}

abbrev report : Running → Stats
report running = record {
  active_connections = 0;
  bytes_in = 0;
  bytes_out = 0;
  rules = [];
  connections = [];
  connections_complete = true;
}

abbrev wordless : ApplyError → List ℕ
wordless e = []

node-IsRunning : IsRunning sample_net node.forward
unfolding is_open
node-IsRunning = record {
  tidy = record { below = λ h e. absurd (ground arith) };
  serving = new_manager-IsServing sample_net "n1" (record { opened = []; calls = 4 });
}

node_replies :
    (synchronize sample_net
      (manager_forwarder sample_net free_host (λ n. n) wordless report)
      node
      world).0
    ≡ ok (15 * second)
unfolding synchronize run_apply save validate_config check_rules identity_fields apply apply_udp
    start_all start_one runs stays close_all without prepare_rules prepare_all prepare_rule
    effective_rule networks_of claim owner validate valid_tunnel_address first_bad_cidr
    first_failure or_else trim_space contains lookup insert
node_replies = refl

synchronize-IsServing_example :
    let reply =
      synchronize sample_net
        (manager_forwarder sample_net free_host (λ n. n) wordless report)
        node
        world in
    IsServing sample_net reply.1.forward.manager reply.1.current.rules
unfolding validate_config check_rules identity_fields first_failure or_else
synchronize-IsServing_example =
    synchronize-IsServing sample_net free_host (λ n. n) wordless report
      (λ old new equal. absurd (ground (arith, equal))) node world
      (record { in_force = refl; on_disk = refl; valid = refl }) node-IsRunning
      (λ saving back e. ground (arith, node_replies, e))

passes-IsServing_example :
    let forwarder = manager_forwarder sample_net free_host (λ n. n) wordless report in
    let last = (passes sample_net forwarder (node, 0, 0) (world ∷ [])).0 in
    IsSettled sample_net forwarder last
    × IsServing sample_net last.forward.manager last.current.rules
unfolding validate_config check_rules identity_fields first_failure or_else NoneStranded
passes-IsServing_example =
    passes-IsServing sample_net free_host (λ n. n) wordless report
      (λ old new equal. absurd (ground (arith, equal))) (node, 0, 0) (world ∷ [])
      (record { in_force = refl; on_disk = refl; valid = refl }) node-IsRunning
      ((λ saving back e. ground (arith, node_replies, e)), tt)
