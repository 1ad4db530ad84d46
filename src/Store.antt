-- ===== src/Store.antt =====
-- internal/store/store.go and the state of internal/store/memory.go: what the control plane keeps.
-- Each operation holds the lock throughout, so it is one function from the state before to a reply
-- and the state after. The children model the operations, by the part of the state they are about.
pub mod Users
pub mod Sessions
pub mod Enrollment
pub mod Rules
pub mod Telemetry
pub mod Frames
use portflow.Prelude.{
  ℕ, ◌+◌, ◌%◌, ◌^◌, ◌*◌, String, Bool, Option, none, some, List, [], ◌==◌, Result,
}
use portflow.Dict.{Dict}
use portflow.Domain.{Node, ForwardRule}

pub data StoreError : Type 0 where
  not_found conflict bootstrap_completed token_invalid last_administrator : StoreError

abbrev pub max_stored_connections_per_node : ℕ
max_stored_connections_per_node = 4000

-- A second, in nanoseconds.
abbrev pub second : ℕ
second = 1000000000

abbrev pub node_metric_retention : ℕ
node_metric_retention = 30 * 24 * 3600 * second

abbrev pub agent_log_retention : ℕ
agent_log_retention = 14 * 24 * 3600 * second

abbrev pub role_admin : String
role_admin = "admin"

abbrev pub role_member : String
role_member = "member"

pub record User : Type 0 where
  pub id : String
  pub username : String
  pub password_hash : String
  pub role : String
  pub disabled : Bool
  pub mfa_enabled : Bool
  pub mfa_secret : String
  pub mfa_recovery_hashes : List String
  pub created_at : ℕ

pub record UserUpdate : Type 0 where
  pub role : String
  pub disabled : Bool
  pub password_hash : String
  pub reset_mfa : Bool

pub record Session : Type 0 where
  pub id : String
  pub user_id : String
  pub token_hash : String
  pub expires_at : ℕ
  pub created_at : ℕ

pub record EnrollmentToken : Type 0 where
  pub id : String
  pub name : String
  pub token_hash : String
  pub created_by : String
  pub expires_at : ℕ
  pub created_at : ℕ
  pub used_at : Option ℕ

pub record AgentIdentity : Type 0 where
  pub id : String
  pub name : String
  pub region : String
  pub public_ip : String
  pub architecture : String
  pub agent_version : String
  pub credential_hash : String
  pub created_at : ℕ

-- The values of `details` are kept as texts.
pub record AuditEvent : Type 0 where
  pub id : String
  pub actor_type : String
  pub actor_id : String
  pub action : String
  pub target_type : String
  pub target_id : String
  pub remote_ip : String
  pub details : Dict String
  pub created_at : ℕ

pub record MetricSample : Type 0 where
  pub node_id : String
  pub sampled_at : ℕ
  pub cpu_percent : ℕ
  pub memory_percent : ℕ
  pub load_one : ℕ
  pub disk_percent : ℕ
  pub network_rx_bps : ℕ
  pub network_tx_bps : ℕ
  pub active_conns : ℕ
  pub bytes_in : ℕ
  pub bytes_out : ℕ

pub record AgentLog : Type 0 where
  pub node_id : String
  pub event_id : String
  pub level : String
  pub component : String
  pub message : String
  pub occurred_at : ℕ
  pub received_at : ℕ

pub record ActiveConnection : Type 0 where
  pub node_id : String
  pub connection_id : String
  pub rule_id : String
  pub protocol : String
  pub source_address : String
  pub target_address : String
  pub started_at : ℕ
  pub last_activity : ℕ
  pub bytes_in : ℕ
  pub bytes_out : ℕ
  pub observed_at : ℕ

pub record RuleRuntimeStats : Type 0 where
  pub rule_id : String
  pub active_conns : ℕ
  pub bytes_in : ℕ
  pub bytes_out : ℕ

pub record AgentHeartbeat : Type 0 where
  pub public_ip : String
  pub tunnel_address : String
  pub agent_version : String
  pub config_version : ℕ
  pub attempted_config_version : ℕ
  pub last_config_error : String
  pub cpu_percent : ℕ
  pub memory_percent : ℕ
  pub load_one : ℕ
  pub disk_percent : ℕ
  pub network_rx_bps : ℕ
  pub network_tx_bps : ℕ
  pub active_conns : ℕ
  pub bytes_in : ℕ
  pub bytes_out : ℕ
  pub rule_stats : List RuleRuntimeStats
  pub connections : List ActiveConnection
  pub connections_complete : Bool
  pub logs : List AgentLog
  pub received_at : ℕ

-- An empty text and the zero time filter nothing.
pub record AgentLogFilter : Type 0 where
  pub node_id : String
  pub level : String
  pub limit : ℕ
  pub before : ℕ

pub record TrafficPoint : Type 0 where
  pub time : ℕ
  pub upload_bytes : ℕ
  pub download_bytes : ℕ

pub record AgentConfig : Type 0 where
  pub version : ℕ
  pub rules : List ForwardRule

pub record Memory : Type 0 where
  pub users : Dict User
  pub usernames : Dict String
  pub sessions : Dict Session
  pub enrollment_tokens : Dict EnrollmentToken
  pub nodes : Dict Node
  pub agent_credentials : Dict String
  pub agent_configs : Dict AgentConfig
  pub forward_rules : Dict ForwardRule
  pub audits : List AuditEvent
  pub metric_samples : List MetricSample
  pub agent_logs : List AgentLog
  pub agent_log_keys : Dict (Unit {0})
  pub active_connections : Dict (Dict ActiveConnection)

-- NewMemory
abbrev pub new_memory : Memory
new_memory = record {
  users = [];
  usernames = [];
  sessions = [];
  enrollment_tokens = [];
  nodes = [];
  agent_credentials = [];
  agent_configs = [];
  forward_rules = [];
  audits = [];
  metric_samples = [];
  agent_logs = [];
  agent_log_keys = [];
  active_connections = [];
}

-- What an operation returns, and the state that it leaves.
abbrev pub Reply : Type 0 → Type 0
Reply A = Result StoreError A × Memory

-- v++ on a uint64
abbrev pub bump : ℕ → ℕ
bump v = (v + 1) % 2 ^ 64
