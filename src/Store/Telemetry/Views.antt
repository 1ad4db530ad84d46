-- ===== src/Store/Telemetry/Views.antt =====
-- What the reports are read back as: ListActiveConnections, ListNodes, the audit trail, ListAgentLogs
-- and TrafficHistory of internal/store/memory.go.
use Prim.Native.String.{compare}
use text.Mathlib.Text.{is_lt}
use portflow.Prelude.{
  ℕ, ◌+◌, ◌-◌, ◌*◌, ◌/◌, ◌%◌, ◌^◌, Bool, List, [], ◌∷◌, ◌++◌, ◌==◌, ◌&&◌, ◌||◌, not, eqb, ltb, leb,
  if◌then◌else◌, on_option, ok, sort_by, keep, take,
}
use portflow.Dict.{Dict, lookup, insert, values}
use portflow.Domain.{Node}
use portflow.Store.{
  Memory, Reply, ActiveConnection, MetricSample, AgentLog, AgentLogFilter, AuditEvent, TrafficPoint,
  second,
}

unfoldable pub all_connections : Dict (Dict ActiveConnection) → List ActiveConnection
all_connections [] = []
all_connections ((node_id, by_id) ∷ rest) = values by_id ++ all_connections rest

abbrev pub connection_before : ActiveConnection → ActiveConnection → Bool
connection_before left right =
    if eqb left.last_activity right.last_activity
    then if left.node_id == right.node_id
      then is_lt (compare left.connection_id right.connection_id)
      else is_lt (compare left.node_id right.node_id)
    else ltb right.last_activity left.last_activity

unfoldable pub list_active_connections : Memory → List ActiveConnection
unfolding all_connections
list_active_connections memory =
    sort_by connection_before (all_connections memory.active_connections)

abbrev pub node_before : Node → Node → Bool
node_before left right = is_lt (compare left.name right.name)

unfoldable pub list_nodes : Memory → List Node
list_nodes memory = sort_by node_before (values memory.nodes)

unfoldable pub record_audit : Memory → AuditEvent → Reply Unit
record_audit memory event = (ok tt, record memory { audits = memory.audits ++ (event ∷ []) })

-- The loop of ListAudit, on the events from the last to the first.
unfoldable pub newest_audits : ℕ → ℕ → List AuditEvent → List AuditEvent
newest_audits limit before [] = []
newest_audits limit before (event ∷ events) =
    let skipped = not (eqb before 0) && not (ltb event.created_at before) in
    let rest = newest_audits (if skipped then limit else limit - 1) before events in
    if eqb limit 0 then [] else if skipped then rest else event ∷ rest

unfoldable pub backwards : List AuditEvent → List AuditEvent
backwards [] = []
backwards (event ∷ events) = backwards events ++ (event ∷ [])

unfoldable pub list_audit : Memory → ℕ → ℕ → List AuditEvent
unfolding newest_audits backwards
list_audit memory limit before = newest_audits limit before (backwards memory.audits)

abbrev pub log_before : AgentLog → AgentLog → Bool
log_before left right =
    if eqb left.occurred_at right.occurred_at
    then is_lt (compare right.event_id left.event_id)
    else ltb right.occurred_at left.occurred_at

abbrev pub passes_filter : AgentLogFilter → AgentLog → Bool
passes_filter filter entry = not (
    (not (filter.node_id == "") && not (entry.node_id == filter.node_id))
    || (not (filter.level == "") && not (entry.level == filter.level))
    || (not (eqb filter.before 0) && not (ltb entry.occurred_at filter.before)))

-- The loop of ListAgentLogs stops once the result has `limit` entries; a limit of 0 is never met.
unfoldable pub list_agent_logs : Memory → AgentLogFilter → List AgentLog
list_agent_logs memory filter =
    let entries = keep (passes_filter filter) (sort_by log_before memory.agent_logs) in
    if eqb filter.limit 0 then entries else take filter.limit entries

-- Unix(), for times from 1970 on
abbrev pub unix_of : ℕ → ℕ
unix_of time = time / second - 62135596800

abbrev pub sample_before : MetricSample → MetricSample → Bool
sample_before left right =
    if left.node_id == right.node_id
    then ltb left.sampled_at right.sampled_at
    else is_lt (compare left.node_id right.node_id)

-- What a counter grew by; one that went down has started again.
abbrev pub growth : ℕ → ℕ → ℕ
growth prior counter = if leb prior counter then counter - prior else counter

-- points[bucket], with the growth added: the buckets are kept in the order of their times.
unfoldable pub add_point : ℕ → ℕ → ℕ → List TrafficPoint → List TrafficPoint
add_point time upload download [] =
    record { time = time; upload_bytes = upload; download_bytes = download } ∷ []
add_point time upload download (point ∷ points) =
    let rest = add_point time upload download points in
    if eqb point.time time
    then record point {
      upload_bytes = (point.upload_bytes + upload) % 2 ^ 64;
      download_bytes = (point.download_bytes + download) % 2 ^ 64;
    }
      ∷ points
    else if ltb time point.time
    then record { time = time; upload_bytes = upload; download_bytes = download } ∷ point ∷ points
    else point ∷ rest

-- One pass over the sorted samples: the previous counters of each node, and the points.
unfoldable pub traffic_pass :
    ℕ → ℕ → ℕ → Dict (ℕ × ℕ) × List TrafficPoint → MetricSample → Dict (ℕ × ℕ) × List TrafficPoint
unfolding add_point
traffic_pass from to seconds (previous, points) sample =
    let counted = insert sample.node_id (sample.bytes_in, sample.bytes_out) previous in
    if ltb to sample.sampled_at then (previous, points) else (
      counted,
      on_option (lookup sample.node_id previous) points λ prior.
          if ltb sample.sampled_at from
          then points
          else add_point (unix_of sample.sampled_at / seconds * seconds)
              (growth prior.0 sample.bytes_in) (growth prior.1 sample.bytes_out) points,
    )

unfoldable pub traffic_points :
    ℕ → ℕ → ℕ → Dict (ℕ × ℕ) × List TrafficPoint → List MetricSample → List TrafficPoint
unfolding traffic_pass
traffic_points from to seconds (previous, points) [] = points
traffic_points from to seconds state (sample ∷ samples) =
    traffic_points from to seconds (traffic_pass from to seconds state sample) samples

-- TrafficHistory, for an interval of at least a second; the times of its points are Unix seconds.
unfoldable pub traffic_history : Memory → ℕ → ℕ → ℕ → List TrafficPoint
unfolding traffic_points
traffic_history memory from to interval =
    traffic_points from to (interval / second) ([], [])
      (sort_by sample_before memory.metric_samples)
