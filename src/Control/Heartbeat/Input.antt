-- ===== src/Control/Heartbeat/Input.antt =====
-- The body of agentHeartbeat in internal/control/server.go, and its bounds.
use portflow.Prelude.{ℕ, ◌-◌, ◌*◌, ◌^◌, String, Bool, true, false, List, ltb}
use portflow.Store.{RuleRuntimeStats, second}

-- A float64 that is a share or a load, in hundredths where it is a number that is not negative.
pub data Reading : Type 0 where
  reading : ℕ → Reading
  negative not_a_number infinite : Reading

pub record ConnectionInput : Type 0 where
  pub id : String
  pub rule_id : String
  pub protocol : String
  pub source_address : String
  pub target_address : String
  pub started_at : ℕ
  pub last_activity : ℕ
  pub bytes_in : ℕ
  pub bytes_out : ℕ

pub record LogInput : Type 0 where
  pub id : String
  pub level : String
  pub component : String
  pub message : String
  pub occurred_at : ℕ

pub record HeartbeatInput : Type 0 where
  pub agent_version : String
  pub tunnel_address : String
  pub config_version : ℕ
  pub attempted_config_version : ℕ
  pub last_config_error : String
  pub cpu_percent : Reading
  pub memory_percent : Reading
  pub load_one : Reading
  pub disk_percent : Reading
  pub network_rx_bps : ℕ
  pub network_tx_bps : ℕ
  pub active_conns : ℕ
  pub bytes_in : ℕ
  pub bytes_out : ℕ
  pub rule_stats : List RuleRuntimeStats
  pub connections : List ConnectionInput
  pub connections_complete : Bool
  pub logs : List LogInput

abbrev pub max_connections_per_heartbeat : ℕ
max_connections_per_heartbeat = 2000

abbrev pub max_agent_logs_per_heartbeat : ℕ
max_agent_logs_per_heartbeat = 100

abbrev pub max_signed_counter : ℕ
max_signed_counter = 2 ^ 63 - 1

-- now.Add(10*time.Minute)
abbrev pub clock_skew : ℕ
clock_skew = 10 * 60 * second

abbrev pub log_age_limit : ℕ
log_age_limit = 30 * 24 * 3600 * second

unfoldable pub invalid_percent : Reading → Bool
invalid_percent (reading value) = ltb 10000 value
invalid_percent negative = true
invalid_percent not_a_number = true
invalid_percent infinite = true

unfoldable pub invalid_load : Reading → Bool
invalid_load (reading value) = false
invalid_load negative = true
invalid_load not_a_number = true
invalid_load infinite = true

-- The number that is stored, of a reading that passed.
abbrev pub value_of : Reading → ℕ
value_of (reading value) = value
value_of negative = 0
value_of not_a_number = 0
value_of infinite = 0
