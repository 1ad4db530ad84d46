-- ===== src/Agent/Runtime/Messages.antt =====
-- The messages of internal/agent/control.go, what a round meets outside, and the runtime's state.
use portflow.Prelude.{ℕ, String, Bool, Option, List, Result}
use portflow.Domain.{ForwardRule}
use portflow.Agent.Logs.{AgentLogHeartbeat, LogBuffer}
use portflow.Agent.Config.{Config, ConfigError}

pub record SystemMetrics : Type 0 where
  pub cpu_percent : ℕ
  pub memory_percent : ℕ
  pub load_one : ℕ
  pub disk_percent : ℕ
  pub network_rx_bps : ℕ
  pub network_tx_bps : ℕ

pub record RuleStatsHeartbeat : Type 0 where
  pub rule_id : String
  pub active_conns : ℕ
  pub bytes_in : ℕ
  pub bytes_out : ℕ

pub record ConnectionHeartbeat : Type 0 where
  pub id : String
  pub rule_id : String
  pub protocol : String
  pub source_address : String
  pub target_address : String
  pub started_at : ℕ
  pub last_activity : ℕ
  pub bytes_in : ℕ
  pub bytes_out : ℕ

pub record Heartbeat : Type 0 where
  pub agent_version : String
  pub tunnel_address : String
  pub config_version : ℕ
  pub attempted_config_version : ℕ
  pub last_config_error : List ℕ
  pub metrics : SystemMetrics
  pub active_conns : ℕ
  pub bytes_in : ℕ
  pub bytes_out : ℕ
  pub rule_stats : List RuleStatsHeartbeat
  pub connections : List ConnectionHeartbeat
  pub connections_complete : Bool
  pub logs : List AgentLogHeartbeat

pub record HeartbeatResponse : Type 0 where
  pub config_version : ℕ
  pub config_changed : Bool
  pub heartbeat_interval_seconds : ℕ

pub record RemoteConfig : Type 0 where
  pub version : ℕ
  pub rules : List ForwardRule

-- The errors that synchronize returns or records.
pub data SyncError : Type 0 where
  heartbeat_failed fetch_failed apply_failed save_failed : List ℕ → SyncError
  version_regressed : ℕ → ℕ → SyncError
  config_invalid : ConfigError → SyncError
  rollback_failed : List ℕ → List ℕ → SyncError

-- What one round meets outside: the replies of the control plane, whether the file can be written,
-- the metrics, the time, and the texts that fmt makes.
pub record World : Type 0 where
  pub metrics : SystemMetrics
  pub send_heartbeat : Heartbeat → Result (List ℕ) HeartbeatResponse
  pub fetch_config : Result (List ℕ) RemoteConfig
  pub write_file : Config → Option (List ℕ)
  pub now : ℕ
  pub error_text : SyncError → List ℕ
  pub retry_text : ℕ → SyncError → List ℕ
  pub applied_text : ℕ → ℕ → List ℕ

-- The file's contents are `saved`; ConfigStore.Save leaves them as they are when it fails.
pub record Runtime (M : Type 0) : Type 0 where
  pub forward : M
  pub version : String
  pub logs : LogBuffer
  pub attempted_config_version : ℕ
  pub last_config_error : List ℕ
  pub current : Config
  pub saved : Config
