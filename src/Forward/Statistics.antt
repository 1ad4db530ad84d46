-- ===== src/Forward/Statistics.antt =====
-- Stats of internal/forward/tcp.go and the two connectionStats: what a manager reports of its
-- forwarders. The counters and sessions of a forwarder are as the atomic loads find them.
pub mod Totals
mod Sums
use Prim.Native.String.{compare}
use text.Mathlib.Text.{is_lt}
use portflow.Prelude.{
  ℕ, ◌+◌, ◌-◌, ◌%◌, ◌^◌, String, Bool, true, false, Option, none, some, List, [], ◌∷◌, ◌++◌, map,
  eqb, ltb, not, ◌&&◌, length, take, if◌then◌else◌, on_option, sort_by,
}
use portflow.Dict.{Dict, lookup, insert}
use portflow.Forward.{Stats, RuleStats, ConnectionStats}

-- What one forwarder counts, and its sessions.
pub record Counters : Type 0 where
  pub active : ℕ
  pub bytes_in : ℕ
  pub bytes_out : ℕ
  pub sessions : List ConnectionStats

abbrev pub max_connection_snapshots : ℕ
max_connection_snapshots = 2000

-- connectionStats: so many sessions at most, and how many there are.
unfoldable pub connection_stats : ℕ → Counters → List ConnectionStats × ℕ
connection_stats limit counters = (take limit counters.sessions, length counters.sessions)

-- The variables of Stats' loops: the map byRule, the connections, and whether these are all.
pub record Gathered : Type 0 where
  pub by_rule : Dict RuleStats
  pub connections : List ConnectionStats
  pub complete : Bool

unfoldable pub gather_connections : Counters → Gathered → Gathered
unfolding connection_stats
gather_connections counters state =
    let (connections, total) =
      connection_stats (max_connection_snapshots - length state.connections) counters in
    record state {
      connections = state.connections ++ connections;
      complete = if ltb (length connections) total then false else state.complete;
    }

abbrev pub tcp_rule : String → Counters → RuleStats
tcp_rule id counters = record {
  rule_id = id;
  active_connections = counters.active;
  bytes_in = counters.bytes_in;
  bytes_out = counters.bytes_out;
}

-- The loop over the TCP forwarders.
unfoldable pub gather_tcp : Dict Counters → Gathered → Gathered
unfolding gather_connections
gather_tcp [] state = state
gather_tcp ((id, counters) ∷ rest) state = gather_tcp rest (
    gather_connections counters
      (record state { by_rule = insert id (tcp_rule id counters) state.by_rule }))

abbrev pub no_stats : RuleStats
no_stats = record { rule_id = ""; active_connections = 0; bytes_in = 0; bytes_out = 0 }

abbrev pub rule_of : String → Dict RuleStats → RuleStats
rule_of id by_rule = on_option (lookup id by_rule) no_stats λ rule. rule

-- The counters of a UDP forwarder on top of its rule's TCP forwarder's.
abbrev pub with_udp : String → Counters → RuleStats → RuleStats
with_udp id counters rule = record {
  rule_id = id;
  active_connections = (rule.active_connections + counters.active) % 2 ^ 64;
  bytes_in = (rule.bytes_in + counters.bytes_in) % 2 ^ 64;
  bytes_out = (rule.bytes_out + counters.bytes_out) % 2 ^ 64;
}

-- The loop over the UDP forwarders.
unfoldable pub gather_udp : Dict Counters → Gathered → Gathered
unfolding gather_connections
gather_udp [] state = state
gather_udp ((id, counters) ∷ rest) state = gather_udp rest (
    gather_connections counters (record state {
      by_rule = insert id (with_udp id counters (rule_of id state.by_rule)) state.by_rule;
    }))

unfoldable pub ids_of : Dict RuleStats → List String
ids_of [] = []
ids_of ((id, rule) ∷ rest) = id ∷ ids_of rest

abbrev pub text_before : String → String → Bool
text_before left right = is_lt (compare left right)

-- The last loop: the totals, over the rules in the order of their identifiers.
unfoldable pub add_rules : Dict RuleStats → List String → Stats → Stats
add_rules by_rule [] stats = stats
add_rules by_rule (id ∷ ids) stats =
    let rule = rule_of id by_rule in
    add_rules by_rule ids (record stats {
      active_connections = (stats.active_connections + rule.active_connections) % 2 ^ 64;
      bytes_in = (stats.bytes_in + rule.bytes_in) % 2 ^ 64;
      bytes_out = (stats.bytes_out + rule.bytes_out) % 2 ^ 64;
      rules = stats.rules ++ rule ∷ [];
    })

-- The latest activity first, then by identifier.
abbrev pub more_recent : ConnectionStats → ConnectionStats → Bool
more_recent left right =
    if eqb left.last_activity right.last_activity
    then is_lt (compare left.id right.id)
    else ltb right.last_activity left.last_activity

unfoldable pub manager_stats : Dict Counters → Dict Counters → Stats
unfolding gather_tcp gather_udp ids_of add_rules
manager_stats tcp udp =
    let gathered =
      gather_udp udp
        (gather_tcp tcp (record { by_rule = []; connections = []; complete = true })) in
    add_rules gathered.by_rule (sort_by text_before (ids_of gathered.by_rule)) (record {
      active_connections = 0;
      bytes_in = 0;
      bytes_out = 0;
      rules = [];
      connections = sort_by more_recent gathered.connections;
      connections_complete = gathered.complete;
    })
