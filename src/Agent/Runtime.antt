-- ===== src/Agent/Runtime.antt =====
-- internal/agent/runtime.go, and the messages of internal/agent/control.go: one synchronisation
-- with the control plane, and the loop around it. The forwarder is any that keeps the laws of
-- `Forwarder`; what comes from outside (the replies, the disk, the metrics, the clock, the texts of
-- errors) is a record per round; other goroutines' log messages are left out. A Go int is its 64
-- bits; a text that is cut is its bytes.
pub mod Safety
pub mod Delays
pub mod Listeners
mod Messages
unfoldable pub use Messages.*
use portflow.Prelude.{
  ℕ, zero, suc, ◌+◌, ◌-◌, ◌*◌, ◌%◌, ◌^◌, String, Bool, true, false, Option, none, some, List, [],
  ◌∷◌, map, ◌==◌, ◌&&◌, ◌||◌, ◌⊎◌, inl, inr, not, eqb, ltb, if◌then◌else◌, on_option, length, take,
  Result, ok, err, on_result,
}
use portflow.Domain.{Net, ForwardRule}
use portflow.Store.{second}
use portflow.Forward.{Forwarder, Stats, RuleStats, ConnectionStats}
use portflow.Agent.Logs.{AgentLogHeartbeat, LogBuffer, pending, acknowledge, log}
use portflow.Agent.Config.{Config, ConfigError, validate_config}

module _ {M : Type 0} where
  unfoldable pub record_config_failure : Runtime M → ℕ → List ℕ → Runtime M
  record_config_failure runtime version message = record runtime {
    attempted_config_version = version;
    last_config_error = if ltb 2000 (length message) then take 2000 message else message;
  }

  unfoldable pub clear_config_failure : Runtime M → ℕ → Runtime M
  clear_config_failure runtime version = record runtime {
    attempted_config_version = version;
    last_config_error = [];
  }

  -- runtime.logf, the logger of the component "agent" that cmd/agent/main.go passes
  abbrev pub logf : Runtime M → World → List ℕ → Runtime M
  logf runtime world message = record runtime { logs = log runtime.logs "agent" message world.now }

  -- The reply acknowledges the logs that the heartbeat carried.
  abbrev pub acknowledged : Runtime M → Runtime M
  acknowledged runtime = record runtime {
    logs = acknowledge runtime.logs (pending runtime.logs 100);
  }

-- The remote rules and version under the identity of this node.
abbrev pub candidate_of : Config → RemoteConfig → Config
candidate_of current remote = record current { version = remote.version; rules = remote.rules }

abbrev pub rule_heartbeat : RuleStats → RuleStatsHeartbeat
rule_heartbeat rule = record {
  rule_id = rule.rule_id;
  active_conns = rule.active_connections;
  bytes_in = rule.bytes_in;
  bytes_out = rule.bytes_out;
}

abbrev pub connection_heartbeat : ConnectionStats → ConnectionHeartbeat
connection_heartbeat connection = record {
  id = connection.id;
  rule_id = connection.rule_id;
  protocol = connection.protocol;
  source_address = connection.source_address;
  target_address = connection.target_address;
  started_at = connection.started_at;
  last_activity = connection.last_activity;
  bytes_in = connection.bytes_in;
  bytes_out = connection.bytes_out;
}

-- The interval that the control plane asks for, or 15 seconds outside 5 seconds to 5 minutes. On
-- 64 bits a negative interval is above 5 minutes.
unfoldable pub heartbeat_interval : HeartbeatResponse → ℕ
heartbeat_interval reply =
    let interval = (reply.heartbeat_interval_seconds * second) % 2 ^ 64 in
    if ltb interval (5 * second) || ltb (5 * 60 * second) interval then 15 * second else interval

-- delay *= 2 until two minutes are reached, `attempts` times at most
unfoldable pub double_delay : ℕ → ℕ → ℕ
double_delay zero delay = delay
double_delay (suc attempts) delay =
    if ltb delay (120 * second) then double_delay attempts (delay * 2) else delay

unfoldable pub retry_delay : ℕ → ℕ
unfolding double_delay
retry_delay failures =
    if ltb failures 1
    then 15 * second
    else let delay = double_delay (failures - 1) (15 * second) in
      if ltb (120 * second) delay then 120 * second else delay

-- ConfigStore.Save: the configuration is validated and written to a file that then takes the old
-- one's place.
unfoldable pub save : Net → World → Config → Option SyncError
save net world config =
    on_option (validate_config net config)
      (on_option (world.write_file config) none λ message. some (save_failed message))
      λ problem. some (config_invalid problem)

module _ {M : Type 0} (net : Net) (forwarder : Forwarder M) where
  abbrev pub heartbeat_of : Runtime M → World → Heartbeat
  heartbeat_of runtime world =
      let stats = forwarder.stats runtime.forward in
      record {
        agent_version = runtime.version;
        tunnel_address = runtime.current.tunnel_address;
        config_version = runtime.current.version;
        attempted_config_version =
            if eqb runtime.attempted_config_version 0
            then runtime.current.version
            else runtime.attempted_config_version;
        last_config_error = runtime.last_config_error;
        metrics = world.metrics;
        active_conns = stats.active_connections;
        bytes_in = stats.bytes_in;
        bytes_out = stats.bytes_out;
        rule_stats = map rule_heartbeat stats.rules;
        connections = map connection_heartbeat stats.connections;
        connections_complete = stats.connections_complete;
        logs = pending runtime.logs 100;
      }

  abbrev pub SyncReply : Type 0
  SyncReply = Result SyncError ℕ × Runtime M

  abbrev pub fails : Runtime M → World → ℕ → SyncError → SyncReply
  fails runtime world version problem =
      (err problem, record_config_failure runtime version (world.error_text problem))

  -- After Apply: the candidate is saved, or the forwarder goes back to the current rules.
  unfoldable pub commit : Runtime M → World → ℕ → Config → SyncReply
  commit runtime world interval candidate =
      on_option (save net world candidate)
        (
          ok interval,
          logf
              (clear_config_failure (record runtime { current = candidate; saved = candidate })
                candidate.version)
              world (world.applied_text candidate.version (length candidate.rules)),
        )
        λ problem.
          let (rollback, forward) = forwarder.apply runtime.forward runtime.current.rules in
          let runtime = record runtime { forward = forward } in
          on_option rollback (fails runtime world candidate.version problem) λ message.
            fails runtime world candidate.version
              (rollback_failed (world.error_text problem) message)

  unfoldable pub apply_candidate : Runtime M → World → ℕ → Config → SyncReply
  unfolding commit
  apply_candidate runtime world interval candidate =
      on_option (validate_config net candidate)
        (let (refusal, forward) = forwarder.apply runtime.forward candidate.rules in
          let runtime = record runtime { forward = forward } in
          on_option refusal (commit runtime world interval candidate)
            λ message. fails runtime world candidate.version (apply_failed message))
        λ problem. fails runtime world candidate.version (config_invalid problem)

  unfoldable pub accept_remote : Runtime M → World → ℕ → RemoteConfig → SyncReply
  unfolding apply_candidate
  accept_remote runtime world interval remote =
      if ltb remote.version runtime.current.version
      then fails runtime world remote.version
          (version_regressed runtime.current.version remote.version)
      else if eqb remote.version runtime.current.version
      then (ok interval, clear_config_failure runtime runtime.current.version)
      else apply_candidate runtime world interval (candidate_of runtime.current remote)

  -- Behind FetchConfig.
  unfoldable pub on_config :
      Runtime M → World → ℕ → HeartbeatResponse → Result (List ℕ) RemoteConfig → SyncReply
  unfolding accept_remote
  on_config runtime world interval reply (err message) =
      fails runtime world reply.config_version (fetch_failed message)
  on_config runtime world interval reply (ok remote) = accept_remote runtime world interval remote

  -- Behind SendHeartbeat.
  unfoldable pub on_heartbeat : Runtime M → World → Result (List ℕ) HeartbeatResponse → SyncReply
  unfolding on_config heartbeat_interval
  on_heartbeat runtime world (err message) = (err (heartbeat_failed message), runtime)
  on_heartbeat runtime world (ok reply) =
      let runtime = acknowledged runtime in
      if not reply.config_changed && eqb reply.config_version runtime.current.version
      then (ok (heartbeat_interval reply), clear_config_failure runtime runtime.current.version)
      else on_config runtime world (heartbeat_interval reply) reply world.fetch_config

  unfoldable pub synchronize : Runtime M → World → SyncReply
  unfolding on_heartbeat
  synchronize runtime world =
      on_heartbeat runtime world (world.send_heartbeat (heartbeat_of runtime world))

  -- The loop's variables.
  abbrev pub LoopState : Type 0
  LoopState = Runtime M × ℕ × ℕ

  -- One pass of the loop behind its timer: the state, the failures in a row, the next delay.
  unfoldable pub pass : LoopState → World → LoopState
  unfolding synchronize retry_delay
  pass (runtime, failures, delay) world =
      let (reply, next) = synchronize runtime world in
      on_result reply
        (λ problem. (
          logf next world (world.retry_text (retry_delay (failures + 1)) problem),
          failures + 1,
          retry_delay (failures + 1),
        ))
        λ interval. (next, 0, interval)

  unfoldable pub passes : LoopState → List World → LoopState
  unfolding pass
  passes state [] = state
  passes state (world ∷ worlds) = passes (pass state world) worlds

  -- Run until the loop starts: an error, or the loop's first state.
  unfoldable pub start : Runtime M → Option (ConfigError ⊎ List ℕ) × LoopState
  start runtime =
      on_option (validate_config net runtime.current)
        (let (refusal, forward) = forwarder.apply runtime.forward runtime.current.rules in
          (
            on_option refusal none λ message. some (inr message),
            (record runtime { forward = forward }, 0, 0),
          ))
        λ problem. (some (inl problem), (runtime, 0, 0))
