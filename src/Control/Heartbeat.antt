-- ===== src/Control/Heartbeat.antt =====
-- The handler agentHeartbeat of internal/control/server.go: what a report must look like before it
-- reaches the store.
mod Good
pub mod Bounds
mod Input
unfoldable pub use Input.*
use portflow.Prelude.{
  ℕ, ◌+◌, ◌-◌, ◌*◌, ◌^◌, String, Bool, true, false, Option, none, some, List, [], ◌∷◌, ◌==◌, ◌&&◌,
  ◌||◌, not, ltb, eqb, if◌then◌else◌, on_option, on_result, Result, trim_space, lower, byte_length,
  contains, length, map,
}
use portflow.Domain.{Net, valid_tunnel_address, protocol_tcp, protocol_udp}
use portflow.Store.{AgentHeartbeat, ActiveConnection, AgentLog, RuleRuntimeStats, second}
use portflow.Store.Telemetry.{update_agent_heartbeat}
use portflow.Control.Enroll.{agent_credentials, agent_refusal}
use portflow.Control.Http.{
  Request, Environment, Server, Answer, DecodeError, reply, refuse, with_body, only_method,
  with_memory, heartbeat_answer,
}

abbrev pub bad_stats : RuleRuntimeStats → Bool
bad_stats stats =
    stats.rule_id == ""
    || ltb 128 (byte_length stats.rule_id)
    || ltb max_signed_counter stats.active_conns
    || ltb max_signed_counter stats.bytes_in
    || ltb max_signed_counter stats.bytes_out

-- The three loops have one shape: each entry is good, and none has the identifier of another.
unfoldable pub checked :
    {A : Type 0} → (A → String) → (A → Bool) → List String → List A → Option (List A)
unfolding contains
checked id_of bad seen [] = some []
checked id_of bad seen (x ∷ rest) =
    let others = checked id_of bad (id_of x ∷ seen) rest in
    if bad x || contains (id_of x) seen then none else on_option others none λ kept. some (x ∷ kept)

abbrev pub checked_stats : List RuleRuntimeStats → Option (List RuleRuntimeStats)
checked_stats = checked (λ stats. stats.rule_id) bad_stats []

-- Trimmed; the node and the time of observation are the store's to set.
abbrev pub snapshot : ConnectionInput → ActiveConnection
snapshot input = record {
  node_id = "";
  connection_id = trim_space input.id;
  rule_id = trim_space input.rule_id;
  protocol = lower (trim_space input.protocol);
  source_address = trim_space input.source_address;
  target_address = trim_space input.target_address;
  started_at = input.started_at;
  last_activity = input.last_activity;
  bytes_in = input.bytes_in;
  bytes_out = input.bytes_out;
  observed_at = 0;
}

abbrev pub bad_connection : ℕ → ActiveConnection → Bool
bad_connection now connection =
    connection.connection_id == ""
    || ltb 128 (byte_length connection.connection_id)
    || connection.rule_id == ""
    || ltb 128 (byte_length connection.rule_id)
    || (not (connection.protocol == protocol_tcp) && not (connection.protocol == protocol_udp))
    || connection.source_address == ""
    || ltb 300 (byte_length connection.source_address)
    || connection.target_address == ""
    || ltb 300 (byte_length connection.target_address)
    || eqb connection.started_at 0
    || eqb connection.last_activity 0
    || ltb connection.last_activity connection.started_at
    || ltb (now + clock_skew) connection.started_at
    || ltb (now + clock_skew) connection.last_activity
    || ltb max_signed_counter connection.bytes_in
    || ltb max_signed_counter connection.bytes_out

abbrev pub checked_connections : ℕ → List ActiveConnection → Option (List ActiveConnection)
checked_connections now = checked (λ connection. connection.connection_id) (bad_connection now) []

abbrev pub log_entry : LogInput → AgentLog
log_entry input = record {
  node_id = "";
  event_id = trim_space input.id;
  level = lower (trim_space input.level);
  component = trim_space input.component;
  message = trim_space input.message;
  occurred_at = input.occurred_at;
  received_at = 0;
}

abbrev pub bad_log : ℕ → AgentLog → Bool
bad_log now entry =
    entry.event_id == ""
    || ltb 128 (byte_length entry.event_id)
    || (not (entry.level == "info")
        && not (entry.level == "warning")
        && not (entry.level == "error"))
    || entry.component == ""
    || ltb 64 (byte_length entry.component)
    || entry.message == ""
    || ltb 2000 (byte_length entry.message)
    || eqb entry.occurred_at 0
    || ltb (entry.occurred_at + log_age_limit) now
    || ltb (now + clock_skew) entry.occurred_at

abbrev pub checked_logs : ℕ → List AgentLog → Option (List AgentLog)
checked_logs now = checked (λ entry. entry.event_id) (bad_log now) []

-- The trimmed texts, and the version that was tried where the agent names none.
abbrev pub attempted_of : HeartbeatInput → ℕ
attempted_of input =
    if eqb input.attempted_config_version 0
    then input.config_version
    else input.attempted_config_version

unfoldable pub bad_metrics : Net → HeartbeatInput → Bool
unfolding trim_space byte_length valid_tunnel_address invalid_percent invalid_load
bad_metrics net input =
    trim_space input.agent_version == ""
    || ltb 32 (byte_length (trim_space input.agent_version))
    || eqb input.config_version 0
    || eqb (attempted_of input) 0
    || ltb 2000 (byte_length input.last_config_error)
    || ltb 10000 (length input.rule_stats)
    || ltb max_connections_per_heartbeat (length input.connections)
    || ltb max_agent_logs_per_heartbeat (length input.logs)
    || invalid_percent input.cpu_percent
    || invalid_percent input.memory_percent
    || invalid_percent input.disk_percent
    || invalid_load input.load_one
    || ltb max_signed_counter input.active_conns
    || ltb max_signed_counter input.bytes_in
    || ltb max_signed_counter input.bytes_out
    || ltb max_signed_counter input.network_rx_bps
    || ltb max_signed_counter input.network_tx_bps
    || (not (trim_space input.tunnel_address == "")
        && not (valid_tunnel_address net (trim_space input.tunnel_address)))

abbrev pub stored_heartbeat :
    Request
    → HeartbeatInput
    → List RuleRuntimeStats
    → List ActiveConnection
    → List AgentLog
    → AgentHeartbeat
stored_heartbeat request input rule_stats connections logs = record {
  public_ip = request.remote_ip;
  tunnel_address = trim_space input.tunnel_address;
  agent_version = trim_space input.agent_version;
  config_version = input.config_version;
  attempted_config_version = attempted_of input;
  last_config_error = input.last_config_error;
  cpu_percent = value_of input.cpu_percent;
  memory_percent = value_of input.memory_percent;
  load_one = value_of input.load_one;
  disk_percent = value_of input.disk_percent;
  network_rx_bps = input.network_rx_bps;
  network_tx_bps = input.network_tx_bps;
  active_conns = input.active_conns;
  bytes_in = input.bytes_in;
  bytes_out = input.bytes_out;
  rule_stats = rule_stats;
  connections = connections;
  connections_complete = input.connections_complete;
  logs = logs;
  received_at = request.now;
}

-- All the checks: none is the answer 422.
unfoldable pub checked_heartbeat : Net → Request → HeartbeatInput → Option AgentHeartbeat
unfolding bad_metrics checked byte_length
checked_heartbeat net request input =
    if bad_metrics net input
    then none
    else on_option (checked_stats input.rule_stats) none λ rule_stats.
      on_option (checked_connections request.now (map snapshot input.connections)) none
        λ connections.
          on_option (checked_logs request.now (map log_entry input.logs)) none
            λ logs. some (stored_heartbeat request input rule_stats connections logs)

-- UpdateAgentHeartbeat and the answer: whether the agent's version is the current one.
unfoldable pub store_heartbeat :
    Environment → Server → String × String → ℕ → AgentHeartbeat → Answer
store_heartbeat env server identity config_version heartbeat =
    let (answer, memory) =
      update_agent_heartbeat server.memory identity.0 (env.token_hash identity.1) heartbeat in
    on_result answer (agent_refusal server) λ node. (
      reply 200 (
          heartbeat_answer heartbeat.received_at node.config_version
            (not (eqb node.config_version config_version)) 15),
      with_memory server memory,
    )

unfoldable pub agent_heartbeat :
    Net → Environment → Server → Request → Result DecodeError HeartbeatInput → Answer
unfolding only_method agent_credentials with_body checked_heartbeat store_heartbeat
agent_heartbeat net env server request body = only_method server request "POST" (
    on_result (agent_credentials request) (λ code. refuse server 401 code)
      λ identity. with_body server body λ input.
        on_option (checked_heartbeat net request input) (refuse server 422 "invalid_heartbeat")
          λ heartbeat. store_heartbeat env server identity input.config_version heartbeat)
