-- ===== src/Examples/Telemetry.antt =====
-- Heartbeats of the node n1 of the busy fleet.
use portflow.Prelude.{
  ◌≡◌, ◌⊎◌, String, true, none, some, [], ◌∷◌, ok, err, arith, ◌==◌, if◌then◌else◌, false,
}
use portflow.Dict.{lookup}
use portflow.Domain.{Node}
use portflow.Store.{Memory, AgentHeartbeat, AgentLog, not_found}
use portflow.Store.Rules.{is_admitted}
use portflow.Store.Telemetry.{update_agent_heartbeat}
use portflow.Store.Telemetry.Heartbeats.{
  AreBounded, Reported, update_agent_heartbeat-AreBounded, update_agent_heartbeat_outcome,
}
use portflow.Examples.Fleet.{busy_fleet}

abbrev admitted_fleet : Memory
admitted_fleet = record busy_fleet { agent_credentials = ("n1", "secret") ∷ [] }

abbrev entry : AgentLog
entry = record {
  node_id = "";
  event_id = "ab-1";
  level = "info";
  component = "agent";
  message = "started";
  occurred_at = 90;
  received_at = 0;
}

abbrev beat : AgentHeartbeat
beat = record {
  public_ip = "192.0.2.1";
  tunnel_address = "10.0.0.2";
  agent_version = "1.0";
  config_version = 9;
  attempted_config_version = 0;
  last_config_error = "";
  cpu_percent = 10;
  memory_percent = 20;
  load_one = 1;
  disk_percent = 30;
  network_rx_bps = 0;
  network_tx_bps = 0;
  active_conns = 1;
  bytes_in = 5;
  bytes_out = 6;
  rule_stats = record { rule_id = "r1"; active_conns = 1; bytes_in = 5; bytes_out = 6 } ∷ [];
  connections =
      record {
        node_id = "";
        connection_id = "c1";
        rule_id = "r1";
        protocol = "tcp";
        source_address = "192.0.2.9:5000";
        target_address = "198.51.100.1:443";
        started_at = 80;
        last_activity = 90;
        bytes_in = 5;
        bytes_out = 6;
        observed_at = 0;
      }
      ∷ [];
  connections_complete = true;
  logs = entry ∷ [];
  received_at = 100;
}

update_agent_heartbeat-AreBounded_example :
    AreBounded (update_agent_heartbeat admitted_fleet "n1" "secret" beat).1
unfolding lookup
update_agent_heartbeat-AreBounded_example =
    update_agent_heartbeat-AreBounded admitted_fleet "n1" "secret" beat (λ k s h. ground arith)

update_agent_heartbeat_outcome_example :
    let reply = update_agent_heartbeat admitted_fleet "n1" "secret" beat in
    ((reply ≡ (err not_found, admitted_fleet))
      × ((lookup "n1" admitted_fleet.nodes ≡ none)
          ⊎ ((node : Node) × (lookup "n1" admitted_fleet.nodes ≡ some node)
              × (is_admitted admitted_fleet "n1" "secret" node ≡ false))))
    ⊎ ((node next : Node) × (lookup "n1" admitted_fleet.nodes ≡ some node)
        × (is_admitted admitted_fleet "n1" "secret" node ≡ true)
        × (reply.0 ≡ ok next)
        × Reported node beat next
        × ((k : String)
            → lookup k reply.1.nodes
              ≡ (if "n1" == k then some next else lookup k admitted_fleet.nodes)))
update_agent_heartbeat_outcome_example =
    update_agent_heartbeat_outcome admitted_fleet "n1" "secret" beat
