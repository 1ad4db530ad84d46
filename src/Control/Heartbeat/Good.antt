-- ===== src/Control/Heartbeat/Good.antt =====
-- What each entry of an accepted heartbeat is like.
use portflow.Prelude.{
  ℕ, ◌+◌, ◌≤◌, ◌<◌, String, ◌≡◌, ◌≢◌, ◌⊎◌, inl, inr, false, arith, eq_iff, byte_length, ◌==◌,
  Bool-cases,
}
use portflow.Domain.{protocol_tcp, protocol_udp}
use portflow.Store.{RuleRuntimeStats, ActiveConnection, AgentLog}
use portflow.Control.Heartbeat.{
  bad_stats, bad_connection, bad_log, max_signed_counter, clock_skew, log_age_limit,
}

-- A text that is there and has at most so many bytes.
pub record IsShort (bound : ℕ) (text : String) : Type 0 where
  pub there : text ≢ ""
  pub short : byte_length text ≤ bound

pub record IsGoodStats (stats : RuleRuntimeStats) : Type 0 where
  pub rule : IsShort 128 stats.rule_id
  pub active : stats.active_conns ≤ max_signed_counter
  pub incoming : stats.bytes_in ≤ max_signed_counter
  pub outgoing : stats.bytes_out ≤ max_signed_counter

-- At the time `now`: a connection that began, was active since, and did neither in the future.
pub record IsGoodConnection (now : ℕ) (connection : ActiveConnection) : Type 0 where
  pub id : IsShort 128 connection.connection_id
  pub rule : IsShort 128 connection.rule_id
  pub protocol : (connection.protocol ≡ protocol_tcp) ⊎ (connection.protocol ≡ protocol_udp)
  pub source : IsShort 300 connection.source_address
  pub target : IsShort 300 connection.target_address
  pub began : 0 < connection.started_at
  pub ordered : connection.started_at ≤ connection.last_activity
  pub past : connection.last_activity ≤ now + clock_skew
  pub incoming : connection.bytes_in ≤ max_signed_counter
  pub outgoing : connection.bytes_out ≤ max_signed_counter

-- At the time `now`: an entry that is neither too old nor in the future.
pub record IsGoodLog (now : ℕ) (entry : AgentLog) : Type 0 where
  pub id : IsShort 128 entry.event_id
  pub level : (entry.level ≡ "info") ⊎ (entry.level ≡ "warning") ⊎ (entry.level ≡ "error")
  pub component : IsShort 64 entry.component
  pub message : IsShort 2000 entry.message
  pub dated : 0 < entry.occurred_at
  pub recent : now ≤ entry.occurred_at + log_age_limit
  pub past : entry.occurred_at ≤ now + clock_skew

pub good_stats : (stats : RuleRuntimeStats) → bad_stats stats ≡ false → IsGoodStats stats
good_stats stats e = record {
  rule = record { there = λ f. ground (arith, eq_iff stats.rule_id ""); short = ground arith };
  active = ground arith;
  incoming = ground arith;
  outgoing = ground arith;
}

pub good_connection :
    (now : ℕ) (connection : ActiveConnection)
    → bad_connection now connection ≡ false
    → IsGoodConnection now connection
good_connection now connection e = record {
  id = record {
    there = λ f. ground (arith, eq_iff connection.connection_id "");
    short = ground arith;
  };
  rule = record { there = λ f. ground (arith, eq_iff connection.rule_id ""); short = ground arith };
  protocol = elim (Bool-cases (connection.protocol == protocol_tcp)) [
    | inl tcp ↦ inl (ground (arith, eq_iff connection.protocol protocol_tcp, tcp))
    | inr other ↦ inr (ground (arith, eq_iff connection.protocol protocol_udp, other))
  ];
  source = record {
    there = λ f. ground (arith, eq_iff connection.source_address "");
    short = ground arith;
  };
  target = record {
    there = λ f. ground (arith, eq_iff connection.target_address "");
    short = ground arith;
  };
  began = ground arith;
  ordered = ground arith;
  past = ground arith;
  incoming = ground arith;
  outgoing = ground arith;
}

pub good_log : (now : ℕ) (entry : AgentLog) → bad_log now entry ≡ false → IsGoodLog now entry
good_log now entry e = record {
  id = record { there = λ f. ground (arith, eq_iff entry.event_id ""); short = ground arith };
  level = elim (Bool-cases (entry.level == "info")) [
    | inl info ↦ inl (ground (arith, eq_iff entry.level "info", info))
    | inr quiet ↦ elim (Bool-cases (entry.level == "warning")) [
      | inl warning ↦ inr (inl (ground (arith, eq_iff entry.level "warning", warning)))
      | inr other ↦ inr (inr (ground (arith, eq_iff entry.level "error", quiet, other)))
    ]
  ];
  component = record {
    there = λ f. ground (arith, eq_iff entry.component "");
    short = ground arith;
  };
  message = record { there = λ f. ground (arith, eq_iff entry.message ""); short = ground arith };
  dated = ground arith;
  recent = ground arith;
  past = ground arith;
}
