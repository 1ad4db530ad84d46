-- ===== src/Forward/Statistics/Totals.antt =====
-- The report's totals, its bound on connections, and what its mark of completeness means.
use portflow.Prelude.{
  ℕ, zero, suc, ◌+◌, ◌-◌, ◌%◌, ◌^◌, ◌≤◌, ◌≡◌, ◌↔◌, refl, ap, ◌∙◌, String, true, List, [], ◌∷◌, ◌++◌,
  ltb, length, take, if◌then◌else◌, sort_by, place, arith, length-append, subst,
}
use portflow.Dict.{Dict, insert, Distinct}
use portflow.Forward.{Stats, RuleStats, ConnectionStats}
use portflow.Forward.Statistics.Sums.{
  empty-AreNew, sum_rules, sum_counters, sum_ids, sum_ids-sort_by, sum_ids-ids_of,
  gather_tcp-Distinct, gather_udp-Distinct, sum-gather_tcp, sum-gather_udp,
}
use portflow.Forward.Statistics.{
  tcp_rule, Counters, Gathered, max_connection_snapshots, connection_stats, gather_connections,
  gather_tcp, gather_udp, no_stats, rule_of, with_udp, ids_of, add_rules, text_before, more_recent,
  manager_stats,
}

-- The sessions of these forwarders.
unfoldable pub sessions_of : Dict Counters → ℕ
sessions_of [] = 0
sessions_of ((id, counters) ∷ rest) = length counters.sessions + sessions_of rest

-- Where the reported connections stand against the sessions that were met.
record IsGathered (met : ℕ) (state : Gathered) : Type 0 where
  bounded : length state.connections ≤ max_connection_snapshots
  fewer : length state.connections ≤ met
  all : (state.complete ≡ true) ↔ (length state.connections ≡ met)

length-take {ℓ} :
    {A : Type ℓ} (n : ℕ) (xs : List A)
    → length (take n xs) ≡ (if ltb n (length xs) then n else length xs)
length-take zero xs = ground arith
length-take (suc n) [] = ground arith
length-take (suc n) (x ∷ xs) = ground (arith, length-take n xs)

gather_connections-IsGathered :
    (met : ℕ) (counters : Counters) (state : Gathered)
    → IsGathered met state
    → IsGathered (met + length counters.sessions) (gather_connections counters state)
unfolding gather_connections connection_stats
gather_connections-IsGathered met counters state g =
    let limit = max_connection_snapshots - length state.connections in
    let taken = length-take limit counters.sessions in
    let more = length-append state.connections (take limit counters.sessions) in
    record {
      bounded = ground (arith, taken, more, g.bounded);
      fewer = ground (arith, taken, more, g.fewer);
      all = ground (arith, taken, more, g.bounded, g.fewer, g.all);
    }

gather_tcp-IsGathered :
    (met : ℕ) (tcp : Dict Counters) (state : Gathered)
    → IsGathered met state
    → IsGathered (met + sessions_of tcp) (gather_tcp tcp state)
unfolding gather_tcp sessions_of
gather_tcp-IsGathered met [] state g = subst (λ (n : ℕ). IsGathered n state) (omega arith) g
gather_tcp-IsGathered met ((id, counters) ∷ rest) state g =
    let next = record state { by_rule = insert id (tcp_rule id counters) state.by_rule } in
    subst (λ (n : ℕ). IsGathered n (gather_tcp rest (gather_connections counters next)))
      (omega arith)
      (gather_tcp-IsGathered (met + length counters.sessions) rest
        (gather_connections counters next)
        (gather_connections-IsGathered met counters next
          (record { bounded = g.bounded; fewer = g.fewer; all = g.all })))

gather_udp-IsGathered :
    (met : ℕ) (udp : Dict Counters) (state : Gathered)
    → IsGathered met state
    → IsGathered (met + sessions_of udp) (gather_udp udp state)
unfolding gather_udp sessions_of
gather_udp-IsGathered met [] state g = subst (λ (n : ℕ). IsGathered n state) (omega arith) g
gather_udp-IsGathered met ((id, counters) ∷ rest) state g =
    let rule = with_udp id counters (rule_of id state.by_rule) in
    let next = record state { by_rule = insert id rule state.by_rule } in
    subst (λ (n : ℕ). IsGathered n (gather_udp rest (gather_connections counters next)))
      (omega arith)
      (gather_udp-IsGathered (met + length counters.sessions) rest
        (gather_connections counters next)
        (gather_connections-IsGathered met counters next
          (record { bounded = g.bounded; fewer = g.fewer; all = g.all })))

length-place :
    (c : ConnectionStats) (cs : List ConnectionStats)
    → length (place more_recent c cs) ≡ suc (length cs)
unfolding place
length-place c [] = refl
length-place c (d ∷ cs) = ground (arith, length-place c cs)

length-sort_by : (cs : List ConnectionStats) → length (sort_by more_recent cs) ≡ length cs
unfolding sort_by
length-sort_by [] = refl
length-sort_by (c ∷ cs) = length-place c (sort_by more_recent cs) ∙ ap suc (length-sort_by cs)

add_rules_lem :
    (by_rule : Dict RuleStats) (ids : List String) (stats : Stats) (active inward outward : ℕ)
    → stats.active_connections ≡ active % 2 ^ 64
    → stats.bytes_in ≡ inward % 2 ^ 64
    → stats.bytes_out ≡ outward % 2 ^ 64
    → let after = add_rules by_rule ids stats in
      (after.active_connections
        ≡ (active + sum_ids (λ rule. rule.active_connections) by_rule ids) % 2 ^ 64)
      × (after.bytes_in ≡ (inward + sum_ids (λ rule. rule.bytes_in) by_rule ids) % 2 ^ 64)
      × (after.bytes_out ≡ (outward + sum_ids (λ rule. rule.bytes_out) by_rule ids) % 2 ^ 64)
      × (after.connections ≡ stats.connections)
      × (after.connections_complete ≡ stats.connections_complete)
unfolding add_rules sum_ids
add_rules_lem by_rule [] stats active inward outward a i o = ground (arith, a, i, o)
add_rules_lem by_rule (id ∷ ids) stats active inward outward a i o =
    let rule = rule_of id by_rule in
    let rest =
      add_rules_lem by_rule ids
        (record stats {
          active_connections = (stats.active_connections + rule.active_connections) % 2 ^ 64;
          bytes_in = (stats.bytes_in + rule.bytes_in) % 2 ^ 64;
          bytes_out = (stats.bytes_out + rule.bytes_out) % 2 ^ 64;
          rules = stats.rules ++ rule ∷ [];
        })
        (active + rule.active_connections) (inward + rule.bytes_in) (outward + rule.bytes_out)
        (omega (arith, a)) (omega (arith, i)) (omega (arith, o)) in
    (omega (arith, rest.0), omega (arith, rest.1), omega (arith, rest.2), rest.3, rest.4)

abbrev gathered : Dict Counters → Dict Counters → Gathered
gathered tcp udp =
    gather_udp udp (gather_tcp tcp (record { by_rule = []; connections = []; complete = true }))

-- What the rules of the report add up to, in whatever order.
total :
    (tcp udp : Dict Counters) (f : RuleStats → ℕ) (g : Counters → ℕ)
    → Distinct tcp
    → f no_stats ≡ 0
    → ((id : String) (counters : Counters) → f (tcp_rule id counters) ≡ g counters)
    → ((id : String) (counters : Counters) (rule : RuleStats)
        → f (with_udp id counters rule) ≡ (f rule + g counters) % 2 ^ 64)
    → sum_ids f (gathered tcp udp).by_rule (sort_by text_before (ids_of (gathered tcp udp).by_rule))
        % 2 ^ 64
      ≡ (sum_counters g tcp + sum_counters g udp) % 2 ^ 64
unfolding sum_rules
total tcp udp f g d unset of_tcp of_udp =
    let first : Gathered = record { by_rule = []; connections = []; complete = true } in
    let by_rule = (gathered tcp udp).by_rule in
    omega (
      arith,
      sum_ids-sort_by f by_rule (ids_of by_rule),
      sum_ids-ids_of f by_rule
          (gather_udp-Distinct udp (gather_tcp tcp first) (gather_tcp-Distinct tcp first tt)),
      sum-gather_udp f g unset of_tcp of_udp udp (gather_tcp tcp first),
      sum-gather_tcp f g unset of_tcp of_udp tcp first d (empty-AreNew tcp),
    )

gathered-IsGathered :
    (tcp udp : Dict Counters)
    → IsGathered (0 + sessions_of tcp + sessions_of udp) (gathered tcp udp)
gathered-IsGathered tcp udp =
    let first : Gathered = record { by_rule = []; connections = []; complete = true } in
    gather_udp-IsGathered (0 + sessions_of tcp) udp (gather_tcp tcp first) (
      gather_tcp-IsGathered 0 tcp first
        (record { bounded = omega arith; fewer = omega arith; all = (λ e. refl, λ e. refl) }))

-- A report on these TCP and UDP forwarders.
pub record IsReport (tcp udp : Dict Counters) (stats : Stats) : Type 0 where
  pub active_total :
      stats.active_connections
      ≡ (sum_counters (λ c. c.active) tcp + sum_counters (λ c. c.active) udp) % 2 ^ 64
  pub in_total :
      stats.bytes_in
      ≡ (sum_counters (λ c. c.bytes_in) tcp + sum_counters (λ c. c.bytes_in) udp) % 2 ^ 64
  pub out_total :
      stats.bytes_out
      ≡ (sum_counters (λ c. c.bytes_out) tcp + sum_counters (λ c. c.bytes_out) udp) % 2 ^ 64
  pub bounded : length stats.connections ≤ max_connection_snapshots
  pub complete :
      (stats.connections_complete ≡ true)
      ↔ (length stats.connections ≡ sessions_of tcp + sessions_of udp)

-- Where no rule has two TCP forwarders, the totals of Stats are the sums of the forwarders' counters
-- modulo 2^64, it lists at most 2000 connections, and it says that these are complete exactly if
-- they are as many as the forwarders have sessions.
pub manager_stats-IsReport :
    (tcp udp : Dict Counters) → Distinct tcp → IsReport tcp udp (manager_stats tcp udp)
unfolding manager_stats
manager_stats-IsReport tcp udp d =
    let all = gathered tcp udp in
    let start : Stats = record {
      active_connections = 0;
      bytes_in = 0;
      bytes_out = 0;
      rules = [];
      connections = sort_by more_recent all.connections;
      connections_complete = all.complete;
    } in
    let ids = sort_by text_before (ids_of all.by_rule) in
    let sums = add_rules_lem all.by_rule ids start 0 0 0 refl refl refl in
    let met = gathered-IsGathered tcp udp in
    let same = ap length sums.3 ∙ length-sort_by all.connections in
    record {
      active_total = omega (
        arith,
        sums.0,
        total tcp udp (λ rule. rule.active_connections) (λ c. c.active) d refl (λ id c. refl)
            (λ id c rule. refl),
      );
      in_total = omega (
        arith,
        sums.1,
        total tcp udp (λ rule. rule.bytes_in) (λ c. c.bytes_in) d refl (λ id c. refl)
            (λ id c rule. refl),
      );
      out_total = omega (
        arith,
        sums.2,
        total tcp udp (λ rule. rule.bytes_out) (λ c. c.bytes_out) d refl (λ id c. refl)
            (λ id c rule. refl),
      );
      bounded = omega (arith, same, met.bounded);
      complete = ground (arith, same, sums.4, met.all);
    }
