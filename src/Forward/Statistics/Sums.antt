-- ===== src/Forward/Statistics/Sums.antt =====
-- Sums of a counter over the rules of a report.
use portflow.Prelude.{
  ℕ, ◌+◌, ◌%◌, ◌^◌, ◌≡◌, refl, String, none, List, [], ◌∷◌, sort_by, place, arith, eq_iff, eq_refl,
}
use portflow.Dict.{Dict, lookup, insert, Distinct}
use portflow.Dict.Laws.{lookup-insert}
use portflow.Dict.Entries.{insert-Distinct}
use portflow.Forward.{RuleStats}
use portflow.Forward.Statistics.{
  Counters, Gathered, gather_connections, gather_tcp, gather_udp, no_stats, rule_of, tcp_rule,
  with_udp, ids_of, text_before,
}

-- No forwarder's rule is in the map yet.
pub AreNew : Dict Counters → Dict RuleStats → Type 0
AreNew [] by_rule = Unit
AreNew ((id, counters) ∷ rest) by_rule = (lookup id by_rule ≡ none) × AreNew rest by_rule

insert-AreNew :
    (id : String) (rule : RuleStats) (rest : Dict Counters) (by_rule : Dict RuleStats)
    → lookup id rest ≡ none
    → AreNew rest by_rule
    → AreNew rest (insert id rule by_rule)
unfolding AreNew lookup
insert-AreNew id rule [] by_rule alone a = tt
insert-AreNew id rule ((k, counters) ∷ rest) by_rule alone a = ground (
  arith,
  eq_iff k id,
  eq_iff id k,
  lookup-insert id k rule by_rule,
  insert-AreNew id rule rest by_rule,
)

pub empty-AreNew : (forwarders : Dict Counters) → AreNew forwarders []
unfolding AreNew lookup
empty-AreNew [] = tt
empty-AreNew ((id, counters) ∷ rest) = (refl, empty-AreNew rest)

unfoldable pub sum_rules : (RuleStats → ℕ) → Dict RuleStats → ℕ
sum_rules f [] = 0
sum_rules f ((id, rule) ∷ rest) = f rule + sum_rules f rest

unfoldable pub sum_counters : (Counters → ℕ) → Dict Counters → ℕ
sum_counters g [] = 0
sum_counters g ((id, counters) ∷ rest) = g counters + sum_counters g rest

unfoldable pub sum_ids : (RuleStats → ℕ) → Dict RuleStats → List String → ℕ
sum_ids f by_rule [] = 0
sum_ids f by_rule (id ∷ ids) = f (rule_of id by_rule) + sum_ids f by_rule ids

sum_ids-place :
    (f : RuleStats → ℕ) (by_rule : Dict RuleStats) (id : String) (ids : List String)
    → sum_ids f by_rule (place text_before id ids) ≡ sum_ids f by_rule (id ∷ ids)
unfolding sum_ids place
sum_ids-place f by_rule id [] = refl
sum_ids-place f by_rule id (k ∷ ids) = ground (arith, sum_ids-place f by_rule id ids)

-- The order of the rules does not matter.
pub sum_ids-sort_by :
    (f : RuleStats → ℕ) (by_rule : Dict RuleStats) (ids : List String)
    → sum_ids f by_rule (sort_by text_before ids) ≡ sum_ids f by_rule ids
unfolding sum_ids sort_by
sum_ids-sort_by f by_rule [] = refl
sum_ids-sort_by f by_rule (id ∷ ids) =
    omega
      (arith, sum_ids-place f by_rule id (sort_by text_before ids), sum_ids-sort_by f by_rule ids)

-- A rule ahead of the others leaves their sum alone, where it is none of them.
sum_ids-cons :
    (f : RuleStats → ℕ) (id : String) (rule : RuleStats) (by_rule rest : Dict RuleStats)
    → lookup id rest ≡ none
    → sum_ids f ((id, rule) ∷ by_rule) (ids_of rest) ≡ sum_ids f by_rule (ids_of rest)
unfolding sum_ids ids_of lookup
sum_ids-cons f id rule by_rule [] alone = refl
sum_ids-cons f id rule by_rule ((k, other) ∷ rest) alone =
    ground (arith, eq_iff k id, eq_iff id k, sum_ids-cons f id rule by_rule rest)

pub sum_ids-ids_of :
    (f : RuleStats → ℕ) (by_rule : Dict RuleStats)
    → Distinct by_rule
    → sum_ids f by_rule (ids_of by_rule) ≡ sum_rules f by_rule
unfolding sum_ids ids_of sum_rules lookup
sum_ids-ids_of f [] d = refl
sum_ids-ids_of f ((id, rule) ∷ rest) d =
    ground (arith, eq_refl id, sum_ids-cons f id rule rest rest d.0, sum_ids-ids_of f rest d.1)

pub gather_tcp-Distinct :
    (tcp : Dict Counters) (state : Gathered)
    → Distinct state.by_rule
    → Distinct (gather_tcp tcp state).by_rule
unfolding gather_tcp gather_connections
gather_tcp-Distinct [] state d = d
gather_tcp-Distinct ((id, counters) ∷ rest) state d =
    let next = record state { by_rule = insert id (tcp_rule id counters) state.by_rule } in
    gather_tcp-Distinct rest (gather_connections counters next)
      (insert-Distinct id (tcp_rule id counters) state.by_rule d)

pub gather_udp-Distinct :
    (udp : Dict Counters) (state : Gathered)
    → Distinct state.by_rule
    → Distinct (gather_udp udp state).by_rule
unfolding gather_udp gather_connections
gather_udp-Distinct [] state d = d
gather_udp-Distinct ((id, counters) ∷ rest) state d =
    let rule = with_udp id counters (rule_of id state.by_rule) in
    let next = record state { by_rule = insert id rule state.by_rule } in
    gather_udp-Distinct rest (gather_connections counters next)
      (insert-Distinct id rule state.by_rule d)

-- A counter of the rules, and the forwarders' counter that it adds up.
module _ (f : RuleStats → ℕ) (g : Counters → ℕ) (unset : f no_stats ≡ 0)
    (of_tcp : (id : String) (counters : Counters) → f (tcp_rule id counters) ≡ g counters)
    (of_udp : (id : String) (counters : Counters) (rule : RuleStats)
      → f (with_udp id counters rule) ≡ (f rule + g counters) % 2 ^ 64) where
  sum_rules-insert :
      (id : String) (rule : RuleStats) (by_rule : Dict RuleStats)
      → sum_rules f (insert id rule by_rule) + f (rule_of id by_rule) ≡ sum_rules f by_rule + f rule
  unfolding sum_rules insert lookup
  sum_rules-insert id rule [] = omega (arith, unset)
  sum_rules-insert id rule ((k, other) ∷ rest) = ground (arith, sum_rules-insert id rule rest)

  pub sum-gather_tcp :
      (tcp : Dict Counters) (state : Gathered)
      → Distinct tcp
      → AreNew tcp state.by_rule
      → sum_rules f (gather_tcp tcp state).by_rule ≡ sum_rules f state.by_rule + sum_counters g tcp
  unfolding gather_tcp gather_connections sum_counters AreNew
  sum-gather_tcp [] state d a = omega arith
  sum-gather_tcp ((id, counters) ∷ rest) state d a =
      let rule = tcp_rule id counters in
      let next = record state { by_rule = insert id rule state.by_rule } in
      let new : f (rule_of id state.by_rule) ≡ 0 = ground (arith, a.0, unset) in
      omega (
        arith,
        sum-gather_tcp rest (gather_connections counters next) d.1
            (insert-AreNew id rule rest state.by_rule d.0 a.1),
        sum_rules-insert id rule state.by_rule,
        of_tcp id counters,
        new,
      )

  pub sum-gather_udp :
      (udp : Dict Counters) (state : Gathered)
      → sum_rules f (gather_udp udp state).by_rule % 2 ^ 64
        ≡ (sum_rules f state.by_rule + sum_counters g udp) % 2 ^ 64
  unfolding gather_udp gather_connections sum_counters
  sum-gather_udp [] state = omega arith
  sum-gather_udp ((id, counters) ∷ rest) state =
      let rule = with_udp id counters (rule_of id state.by_rule) in
      let next = record state { by_rule = insert id rule state.by_rule } in
      omega (
        arith,
        sum-gather_udp rest (gather_connections counters next),
        sum_rules-insert id rule state.by_rule,
        of_udp id counters (rule_of id state.by_rule),
      )
