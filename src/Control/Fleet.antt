-- ===== src/Control/Fleet.antt =====
-- The handlers that only read, internal/control/server.go: nodes, dashboardSummary, trafficHistory,
-- auditEvents, agentLogs and activeConnections.
use portflow.Prelude.{
  ℕ, ◌+◌, ◌-◌, ◌*◌, ◌%◌, ◌^◌, String, Bool, true, false, Option, none, some, List, [], ◌∷◌, ◌==◌,
  ◌&&◌, ◌||◌, not, ltb, leb, eqb, if◌then◌else◌, on_option, trim_space, lower, byte_length, length,
}
use portflow.Domain.{Node, ForwardRule, node_online}
use portflow.Store.{Memory, TrafficPoint, role_admin, second}
use portflow.Store.Rules.{list_forward_rules}
use portflow.Store.Telemetry.{
  list_nodes, list_active_connections, list_audit, list_agent_logs,
  traffic_history as stored_traffic,
}
use portflow.Control.Access.{effective_node_statuses}
use portflow.Control.Http.{
  Request, Environment, Server, Answer, Summary, reply, refuse, only_method, with_user, node_list,
  connection_list, traffic, audit_list, log_list, summary,
}

-- A parameter of the query: left out, not of its form, or what it stands for. A number below zero is
-- out of every range, and stands with those that are not of the form.
pub data Parameter : Type 0 where
  absent malformed : Parameter
  given : ℕ → Parameter

-- strconv.Atoi and the range, with a default; none is the answer 422.
unfoldable pub in_range : ℕ → ℕ → Parameter → Option ℕ
in_range most default absent = some default
in_range most default malformed = none
in_range most default (given n) = if ltb n 1 || ltb most n then none else some n

-- time.Parse; the zero time where the parameter is left out.
unfoldable pub cursor : Parameter → Option ℕ
cursor absent = some 0
cursor malformed = none
cursor (given time) = some time

-- A GET by an account of this role, which leaves the server as it was.
unfoldable pub read_only : Environment → Server → Request → String → Answer → Answer
unfolding only_method with_user
read_only env server request role next =
    only_method server request "GET" (with_user env server request role λ user. next)

unfoldable pub nodes : Environment → Server → Request → Answer
unfolding read_only
nodes env server request =
    read_only env server request "" (
      reply 200 (node_list (effective_node_statuses (list_nodes server.memory) request.now)),
      server,
    )

unfoldable pub active_connections : Environment → Server → Request → Answer
unfolding read_only
active_connections env server request =
    read_only env server request ""
      (reply 200 (connection_list (list_active_connections server.memory)), server)

abbrev pub sum64 : ℕ → ℕ → ℕ
sum64 a b = (a + b) % 2 ^ 64

unfoldable pub upload_of : List TrafficPoint → ℕ → ℕ
upload_of [] total = total
upload_of (point ∷ points) total = upload_of points (sum64 total point.upload_bytes)

unfoldable pub download_of : List TrafficPoint → ℕ → ℕ
download_of [] total = total
download_of (point ∷ points) total = download_of points (sum64 total point.download_bytes)

unfoldable pub count_status : Bool → List Node → ℕ
count_status online [] = 0
count_status online (node ∷ rest) =
    let others = count_status online rest in
    if node.status == node_online
    then (if online then others + 1 else others)
    else (if online then others else others + 1)

unfoldable pub sum_connections : List Node → ℕ → ℕ
sum_connections [] total = total
sum_connections (node ∷ rest) total = sum_connections rest (sum64 total node.active_conns)

-- nodeByID[id], where the last node of a name counts.
unfoldable pub node_by_id : String → List Node → Option Node
node_by_id id [] = none
node_by_id id (node ∷ rest) =
    let later = node_by_id id rest in
    on_option later (if node.id == id then some node else none) λ found. some found

pub data RuleHealth : Type 0 where
  healthy degraded stopped : RuleHealth

-- A rule is healthy where its ingress node is online and has applied the rule's version.
unfoldable pub health_of : List Node → ForwardRule → RuleHealth
unfolding node_by_id
health_of nodes rule =
    if not rule.enabled
    then stopped
    else on_option (node_by_id rule.ingress_node_id nodes) degraded λ node.
      if node.status == node_online && leb rule.config_version node.applied_config_version
      then healthy
      else degraded

-- The three counters after one more rule.
abbrev pub counted : RuleHealth → ℕ × ℕ × ℕ → ℕ × ℕ × ℕ
counted healthy (a, b, c) = (a + 1, b, c)
counted degraded (a, b, c) = (a, b + 1, c)
counted stopped (a, b, c) = (a, b, c + 1)

unfoldable pub count_health : List Node → List ForwardRule → ℕ × ℕ × ℕ
unfolding health_of
count_health nodes [] = (0, 0, 0)
count_health nodes (rule ∷ rules) = counted (health_of nodes rule) (count_health nodes rules)

unfoldable pub summary_of : Memory → ℕ → Summary
unfolding count_status sum_connections count_health upload_of download_of
summary_of memory now =
    let nodes = effective_node_statuses (list_nodes memory) now in
    let (healthy_rules, degraded_rules, stopped_rules) =
      count_health nodes (list_forward_rules memory) in
    let points = stored_traffic memory (now - 24 * 3600 * second) now (1800 * second) in
    record {
      online = count_status true nodes;
      offline = count_status false nodes;
      healthy = healthy_rules;
      degraded = degraded_rules;
      stopped = stopped_rules;
      connections = sum_connections nodes 0;
      upload_bytes = upload_of points 0;
      download_bytes = download_of points 0;
    }

unfoldable pub dashboard_summary : Environment → Server → Request → Answer
unfolding read_only summary_of
dashboard_summary env server request =
    read_only env server request ""
      (reply 200 (summary (summary_of server.memory request.now)), server)

abbrev pub traffic_interval : ℕ → ℕ
traffic_interval hours =
    if leb hours 6 then 300 * second else if ltb 24 hours then 7200 * second else 1800 * second

unfoldable pub traffic_history : Environment → Server → Request → Parameter → Answer
unfolding read_only in_range upload_of download_of
traffic_history env server request hours_parameter = read_only env server request "" (
    on_option (in_range 168 24 hours_parameter) (refuse server 422 "invalid_range") λ hours.
      let points =
        stored_traffic server.memory (request.now - hours * 3600 * second) request.now
          (traffic_interval hours) in
      (
        reply 200
            (traffic (traffic_interval hours) (upload_of points 0) (download_of points 0) points),
        server,
      ))

-- The time of the last event, where the page is full.
unfoldable pub last_time : {A : Type 0} → (A → ℕ) → List A → ℕ
last_time time [] = 0
last_time time (x ∷ []) = time x
last_time time (x ∷ y ∷ rest) = last_time time (y ∷ rest)

abbrev pub next_before : {A : Type 0} → (A → ℕ) → ℕ → List A → Option ℕ
next_before time limit items =
    if eqb (length items) limit then some (last_time time items) else none

unfoldable pub audit_events : Environment → Server → Request → Parameter → Parameter → Answer
unfolding read_only in_range cursor last_time
audit_events env server request limit_parameter before_parameter =
    read_only env server request role_admin (
      on_option (in_range 200 50 limit_parameter) (refuse server 422 "invalid_limit") λ limit.
        on_option (cursor before_parameter) (refuse server 422 "invalid_cursor") λ before.
          let events = list_audit server.memory limit before in
          (
            reply 200 (audit_list events (next_before (λ event. event.created_at) limit events)),
            server,
          ))

abbrev pub unknown_level : String → Bool
unknown_level level =
    not (level == "") && not (level == "info") && not (level == "warning") && not (level == "error")

unfoldable pub agent_logs :
    Environment → Server → Request → String → String → Parameter → Parameter → Answer
unfolding read_only in_range cursor last_time trim_space lower byte_length
agent_logs env server request node_parameter level_parameter limit_parameter before_parameter =
    read_only env server request role_admin (
      let node_id = trim_space node_parameter in
      let level = lower (trim_space level_parameter) in
      if ltb 128 (byte_length node_id) || unknown_level level
      then refuse server 422 "invalid_filter"
      else on_option (in_range 200 100 limit_parameter) (refuse server 422 "invalid_limit") λ limit.
        on_option (cursor before_parameter) (refuse server 422 "invalid_cursor") λ before.
          let entries =
            list_agent_logs server.memory
              (record { node_id = node_id; level = level; limit = limit; before = before }) in
          (
            reply 200 (log_list entries (next_before (λ entry. entry.occurred_at) limit entries)),
            server,
          ))
