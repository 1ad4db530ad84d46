-- ===== src/Examples/Agent.antt =====
-- An agent with a forwarder that takes every configuration, its log queue and its delays.
use portflow.Prelude.{
  ◌≡◌, ◌↔◌, refl, true, none, List, [], ◌∷◌, ok, arith, length, drop, map, first_failure, or_else,
}
use portflow.Domain.{ForwardRule}
use portflow.Forward.{Forwarder}
use portflow.Agent.Logs.{
  new_log_buffer, pending, acknowledge, append_entry, Logging, LogStep, draws, appends, take_drawn,
  draw, logged_entry, log_step, run_logs,
}
use portflow.Agent.Logs.Queue.{IsQueue, new_logging, run_logs-IsQueue}
use portflow.Agent.Logs.Acknowledged.{acknowledge-pending, is_message}
use portflow.Agent.Config.{Config, validate_config, check_rules, identity_fields}
use portflow.Agent.Config.Consistent.{IsConsistent, validate_config-none_iff}
use portflow.Agent.Runtime.{Runtime, World, synchronize}
use portflow.Agent.Runtime.Safety.{Outcome, synchronize-Outcome}
use portflow.Examples.Fleet.{sample_net, web_rule}

abbrev willing : Forwarder (List ForwardRule)
willing = record {
  apply = λ m rules. (none, rules);
  stats = λ m. record {
    active_connections = 0;
    bytes_in = 0;
    bytes_out = 0;
    rules = [];
    connections = [];
    connections_complete = true;
  };
  serves = λ m. m;
  apply-ok = λ m rules h. refl;
  apply-err = λ m rules h. ground (arith, h refl);
}

abbrev pub first_config : Config
first_config = record {
  version = 1;
  control_url = "https://control.example.org";
  node_id = "n1";
  credential = "secret";
  tunnel_address = "";
  rules = [];
}

abbrev agent : Runtime (List ForwardRule)
agent = record {
  forward = [];
  version = "1.0";
  logs = new_log_buffer 1000 "ab";
  attempted_config_version = 1;
  last_config_error = [];
  current = first_config;
  saved = first_config;
}

-- The control plane has a second version, with one rule.
abbrev pub world : World
world = record {
  metrics = record {
    cpu_percent = 10;
    memory_percent = 20;
    load_one = 1;
    disk_percent = 30;
    network_rx_bps = 0;
    network_tx_bps = 0;
  };
  send_heartbeat = λ heartbeat.
      ok (record { config_version = 2; config_changed = true; heartbeat_interval_seconds = 15 });
  fetch_config = ok (record { version = 2; rules = web_rule ∷ [] });
  write_file = λ config. none;
  now = 100;
  error_text = λ problem. [];
  retry_text = λ delay problem. [];
  applied_text = λ version rules. [];
}

synchronize-Outcome_example :
    let reply = synchronize sample_net willing agent world in
    Outcome sample_net willing agent reply.0 reply.1
unfolding validate_config check_rules identity_fields first_failure or_else
synchronize-Outcome_example =
    synchronize-Outcome sample_net willing agent world
      (record { in_force = refl; on_disk = refl; valid = refl })

validate_config-none_iff_example :
    (validate_config sample_net first_config ≡ none) ↔ IsConsistent sample_net first_config
validate_config-none_iff_example = validate_config-none_iff sample_net first_config

-- Two goroutines draw 1 and 2, and the second one appends first.
abbrev crossed : List LogStep
crossed = draws "agent" (1 ∷ []) 1 ∷ draws "forward" (2 ∷ []) 2 ∷ appends 2 ∷ appends 1 ∷ []

run_logs-IsQueue_example : IsQueue (run_logs (new_logging 2 "ab") crossed)
run_logs-IsQueue_example = run_logs-IsQueue 2 "ab" crossed (omega arith)

crossed_numbers :
    map (λ entry. entry.id_number) (run_logs (new_logging 2 "ab") crossed).buffer.entries
    ≡ 2 ∷ 1 ∷ []
unfolding run_logs log_step take_drawn draw logged_entry append_entry new_log_buffer
crossed_numbers = refl

abbrev roomy : Logging
roomy = run_logs (new_logging 5 "ab") crossed

abbrev third : List LogStep
third = draws "forward" (3 ∷ []) 3 ∷ appends 3 ∷ []

acknowledge-pending_example :
    (acknowledge (run_logs roomy third).buffer (pending roomy.buffer 1)).entries
    ≡ drop (length (pending roomy.buffer 1)) (run_logs roomy third).buffer.entries
unfolding run_logs log_step take_drawn draw logged_entry append_entry new_log_buffer is_message
acknowledge-pending_example =
    acknowledge-pending roomy 1 third (run_logs-IsQueue 5 "ab" crossed (omega arith)) (omega arith)
      (refl, (refl, tt)) (omega arith)
