-- ===== src/Store/Telemetry.antt =====
-- What the agents report, internal/store/memory.go: heartbeats with metrics, logs, connections and
-- counters of rules; the lists and the history that are read back; the audit trail.
pub mod Connections
pub mod Heartbeats
pub mod Logs
mod Views
unfoldable pub use Views.*
use Prim.Native.String.{compare}
use text.Mathlib.Text.{is_lt, is_eq}
use portflow.Prelude.{
  ℕ, zero, suc, ◌+◌, ◌-◌, ◌*◌, ◌/◌, ◌%◌, ◌^◌, String, Bool, true, false, Option, none, some, List,
  [], ◌∷◌, ◌++◌, map, ◌==◌, ◌&&◌, ◌||◌, not, eqb, ltb, leb, if◌then◌else◌, on_option, Result, ok,
  err, sort_by, keep, contains, take, drop, length, str_append,
}
use portflow.Dict.{Dict, lookup, get_or, insert, remove, values}
use portflow.Domain.{Node, ForwardRule, node_online, node_disabled}
use portflow.Store.{
  Memory, Reply, StoreError, AgentHeartbeat, ActiveConnection, MetricSample, AgentLog,
  AgentLogFilter, AuditEvent, TrafficPoint, RuleRuntimeStats, not_found,
  max_stored_connections_per_node, node_metric_retention, agent_log_retention, second,
}
use portflow.Store.Rules.{is_admitted}

-- if value > ceiling { value = ceiling }
abbrev pub clamped : ℕ → ℕ → ℕ
clamped ceiling value = if ltb ceiling value then ceiling else value

abbrev pub applied_version : Node → AgentHeartbeat → ℕ
applied_version node heartbeat = clamped node.config_version heartbeat.config_version

abbrev pub attempted_version : Node → AgentHeartbeat → ℕ
attempted_version node heartbeat = clamped node.config_version (
    if eqb heartbeat.attempted_config_version 0
    then applied_version node heartbeat
    else heartbeat.attempted_config_version)

unfoldable pub heartbeat_node : Node → AgentHeartbeat → Node
heartbeat_node node heartbeat = record node {
  status = node_online;
  last_heartbeat = heartbeat.received_at;
  public_ip = heartbeat.public_ip;
  tunnel_address = heartbeat.tunnel_address;
  agent_version = heartbeat.agent_version;
  applied_config_version = applied_version node heartbeat;
  attempted_config_version = attempted_version node heartbeat;
  last_config_error = heartbeat.last_config_error;
  last_config_attempt = heartbeat.received_at;
  cpu_percent = heartbeat.cpu_percent;
  memory_percent = heartbeat.memory_percent;
  load_one = heartbeat.load_one;
  disk_percent = heartbeat.disk_percent;
  network_rx_bps = heartbeat.network_rx_bps;
  network_tx_bps = heartbeat.network_tx_bps;
  active_conns = heartbeat.active_conns;
  bytes_in = heartbeat.bytes_in;
  bytes_out = heartbeat.bytes_out;
}

abbrev pub metric_sample : String → ℕ → AgentHeartbeat → MetricSample
metric_sample node_id bucket heartbeat = record {
  node_id = node_id;
  sampled_at = bucket;
  cpu_percent = heartbeat.cpu_percent;
  memory_percent = heartbeat.memory_percent;
  load_one = heartbeat.load_one;
  disk_percent = heartbeat.disk_percent;
  network_rx_bps = heartbeat.network_rx_bps;
  network_tx_bps = heartbeat.network_tx_bps;
  active_conns = heartbeat.active_conns;
  bytes_in = heartbeat.bytes_in;
  bytes_out = heartbeat.bytes_out;
}

-- Truncate(time.Minute), which counts from the zero time
abbrev pub minute_of : ℕ → ℕ
minute_of time = time - time % (60 * second)

abbrev pub is_bucket : String → ℕ → MetricSample → Bool
is_bucket node_id bucket sample = sample.node_id == node_id && eqb sample.sampled_at bucket

-- The loop of recordMetricLocked: the list `filtered`, and the flag `replaced`.
unfoldable pub filter_samples :
    String → ℕ → ℕ → MetricSample → List MetricSample → List MetricSample × Bool
filter_samples node_id bucket cutoff new [] = ([], false)
filter_samples node_id bucket cutoff new (sample ∷ samples) =
    let rest = filter_samples node_id bucket cutoff new samples in
    if ltb sample.sampled_at cutoff
    then rest
    else if is_bucket node_id bucket sample
    then (new ∷ rest.0, true)
    else (sample ∷ rest.0, rest.1)

-- recordMetricLocked. A cutoff before the zero time is the zero time: no sample is older than either.
unfoldable pub record_metric : List MetricSample → String → AgentHeartbeat → List MetricSample
unfolding filter_samples
record_metric samples node_id heartbeat =
    let bucket = minute_of heartbeat.received_at in
    let new = metric_sample node_id bucket heartbeat in
    let (filtered, replaced) =
      filter_samples node_id bucket (bucket - node_metric_retention) new samples in
    if replaced then filtered else filtered ++ (new ∷ [])

abbrev pub log_key : String → String → String
log_key node_id event_id = str_append node_id (str_append "\0" event_id)

-- The retained logs, and the keys without those of the entries that are dropped.
unfoldable pub sweep_logs : ℕ → List AgentLog → Dict (Unit {0}) → List AgentLog × Dict (Unit {0})
sweep_logs cutoff [] keys = ([], keys)
sweep_logs cutoff (entry ∷ entries) keys =
    let old = ltb entry.received_at cutoff in
    let rest =
      sweep_logs cutoff entries
        (if old then remove (log_key entry.node_id entry.event_id) keys else keys) in
    (if old then rest.0 else entry ∷ rest.0, rest.1)

-- One entry: skipped where its key is known.
unfoldable pub add_log :
    String → ℕ → AgentLog → List AgentLog × Dict (Unit {0}) → List AgentLog × Dict (Unit {0})
add_log node_id received_at entry (logs, keys) =
    on_option (lookup (log_key node_id entry.event_id) keys)
      (
        logs ++ (record entry { node_id = node_id; received_at = received_at } ∷ []),
        insert (log_key node_id entry.event_id) tt keys,
      )
      λ seen. (logs, keys)

unfoldable pub add_logs :
    String → ℕ → List AgentLog → List AgentLog × Dict (Unit {0}) → List AgentLog × Dict (Unit {0})
unfolding add_log
add_logs node_id received_at [] state = state
add_logs node_id received_at (entry ∷ entries) state =
    add_logs node_id received_at entries (add_log node_id received_at entry state)

-- recordAgentLogsLocked
unfoldable pub record_agent_logs : Memory → String → AgentHeartbeat → Memory
unfolding sweep_logs add_logs
record_agent_logs memory node_id heartbeat =
    let (logs, keys) = add_logs node_id heartbeat.received_at heartbeat.logs (
      sweep_logs (heartbeat.received_at - agent_log_retention) memory.agent_logs
        memory.agent_log_keys) in
    record memory { agent_logs = logs; agent_log_keys = keys }

unfoldable pub add_connections :
    String → ℕ → List ActiveConnection → Dict ActiveConnection → Dict ActiveConnection
add_connections node_id received_at [] stored = stored
add_connections node_id received_at (connection ∷ connections) stored =
    add_connections node_id received_at connections (
      insert connection.connection_id
        (record connection { node_id = node_id; observed_at = received_at }) stored)

-- Observed later, or at the same time and active later.
abbrev pub is_newer : ActiveConnection → ActiveConnection → Bool
is_newer left right =
    if eqb left.observed_at right.observed_at
    then ltb right.last_activity left.last_activity
    else ltb right.observed_at left.observed_at

unfoldable pub remove_connections :
    List ActiveConnection → Dict ActiveConnection → Dict ActiveConnection
remove_connections [] stored = stored
remove_connections (connection ∷ connections) stored =
    remove_connections connections (remove connection.connection_id stored)

-- Above the bound the oldest connections go.
unfoldable pub trim_connections : Dict ActiveConnection → Dict ActiveConnection
unfolding remove_connections
trim_connections stored =
    if ltb max_stored_connections_per_node (length stored)
    then remove_connections
        (drop max_stored_connections_per_node (sort_by is_newer (values stored))) stored
    else stored

unfoldable pub record_connections : Memory → String → AgentHeartbeat → Memory
unfolding add_connections trim_connections
record_connections memory node_id heartbeat =
    let stored =
      if heartbeat.connections_complete
      then []
      else get_or [] (lookup node_id memory.active_connections) in
    record memory {
      active_connections =
          insert node_id
            (trim_connections
              (add_connections node_id heartbeat.received_at heartbeat.connections stored))
            memory.active_connections;
    }

abbrev pub counted_rule : ForwardRule → RuleRuntimeStats → ℕ → ForwardRule
counted_rule rule stats received_at = record rule {
  active_conns = stats.active_conns;
  bytes_in = stats.bytes_in;
  bytes_out = stats.bytes_out;
  runtime_updated = received_at;
}

-- The loop over the reported counters, with the set `reportedRules`.
unfoldable pub count_rules :
    String
    → ℕ
    → List RuleRuntimeStats
    → Dict ForwardRule × List String
    → Dict ForwardRule × List String
count_rules node_id received_at [] state = state
count_rules node_id received_at (stats ∷ rest) (rules, reported) =
    count_rules node_id received_at rest (
      on_option (lookup stats.rule_id rules) (rules, reported)
        λ rule.
          if not (rule.ingress_node_id == node_id)
          then (rules, reported)
          else (insert rule.id (counted_rule rule stats received_at) rules, rule.id ∷ reported))

-- The loop over the rules: those of the node that were not reported have no connections.
unfoldable pub reset_unreported : String → ℕ → List String → Dict ForwardRule → Dict ForwardRule
unfolding contains
reset_unreported node_id received_at reported [] = []
reset_unreported node_id received_at reported ((id, rule) ∷ rules) =
    let rest = reset_unreported node_id received_at reported rules in
    if rule.ingress_node_id == node_id && not (contains id reported)
    then (id, record rule { active_conns = 0; runtime_updated = received_at }) ∷ rest
    else (id, rule) ∷ rest

unfoldable pub record_rule_stats : Memory → String → AgentHeartbeat → Memory
unfolding count_rules reset_unreported
record_rule_stats memory node_id heartbeat =
    let (rules, reported) =
      count_rules node_id heartbeat.received_at heartbeat.rule_stats (memory.forward_rules, []) in
    record memory { forward_rules = reset_unreported node_id heartbeat.received_at reported rules }

-- UpdateAgentHeartbeat behind its guard.
unfoldable pub accept_heartbeat : Memory → String → Node → AgentHeartbeat → Memory
unfolding record_metric record_agent_logs record_connections record_rule_stats
accept_heartbeat memory node_id node heartbeat =
    let online = record memory {
      nodes = insert node_id node memory.nodes;
      metric_samples = record_metric memory.metric_samples node_id heartbeat;
    } in
    let logged = record_agent_logs online node_id heartbeat in
    record_rule_stats (record_connections logged node_id heartbeat) node_id heartbeat

unfoldable pub update_agent_heartbeat : Memory → String → String → AgentHeartbeat → Reply Node
unfolding heartbeat_node accept_heartbeat
update_agent_heartbeat memory node_id credential_hash heartbeat =
    on_option (lookup node_id memory.nodes) (err not_found, memory)
      λ node.
        if not (is_admitted memory node_id credential_hash node)
        then (err not_found, memory)
        else let next = heartbeat_node node heartbeat in
          (ok next, accept_heartbeat memory node_id next heartbeat)
