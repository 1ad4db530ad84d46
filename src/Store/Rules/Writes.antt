-- ===== src/Store/Rules/Writes.antt =====
-- CreateForwardRule, UpdateForwardRule and DeleteForwardRule of internal/store/memory.go as wholes.
use portflow.Prelude.{
  String, ◌≡◌, ◌≢◌, refl, true, false, Option, none, some, List, [], ◌∷◌, ◌++◌, ◌⊎◌, ◌==◌,
  Option-cases, Bool-cases, ok, err, inl, inr, if◌then◌else◌, contains,
}
use portflow.Dict.{Dict, lookup}
use portflow.Dict.Laws.{lookup-insert, lookup-remove}
use portflow.Domain.{ForwardRule, Node}
use portflow.Store.{Memory, not_found, conflict}
use portflow.Store.Rules.{
  create_forward_rule, update_forward_rule, delete_forward_rule, rebuild_agent_configs,
  created_rule, updated_rule, with_rules, rule_node_ids, rule_nodes_available, listener_conflict,
  bump_nodes, bump_affected, affected_ids, distinct_ids,
}
use portflow.Store.Rules.Conflicts.{forward_rules-rebuild_agent_configs}
use portflow.Store.Rules.Configs.{
  Follows, rebuild_agent_configs-Follows, nodes-rebuild_agent_configs,
}
use portflow.Store.Rules.Versions.{
  NodesKeyed, NoRepeat, AllPresent, bump_option, available-AllPresent, rule_node_ids-NoRepeat,
  distinct_ids-NoRepeat, bump_nodes-eq, lookup-bump_affected,
}
use portflow.Store.Rules.Stamped.{IsStamped, stamp-IsStamped, contains-affected_ids}

-- From `m` to `m'` the rules changed at `id` alone; the nodes of `ids` went up by one version and
-- changed in nothing else, the other nodes not at all; and the configurations follow.
pub record Wrote (m m' : Memory) (id : String) (rule : Option ForwardRule) (ids : List String)
    : Type 0 where
  pub rules :
      (k : String)
      → lookup k m'.forward_rules ≡ (if id == k then rule else lookup k m.forward_rules)
  pub versions :
      (j : String)
      → lookup j m'.nodes
        ≡ (if contains j ids then bump_option (lookup j m.nodes) else lookup j m.nodes)
  pub configs : Follows m m' ids

module _ (m : Memory) (nodes : Dict Node) (rules : Dict ForwardRule) (id : String)
    (rule : Option ForwardRule) (ids : List String) where
  rebuild-Wrote :
      ((k : String) → lookup k rules ≡ (if id == k then rule else lookup k m.forward_rules))
      → nodes ≡ bump_affected m.nodes ids
      → NoRepeat ids
      → AllPresent m.nodes ids
      → Wrote m (rebuild_agent_configs (with_rules m nodes rules) ids) id rule ids
  rebuild-Wrote at_rules bumped once present = record {
    rules = λ k. rw forward_rules-rebuild_agent_configs (at_rules k);
    versions = λ j.
        rw (nodes-rebuild_agent_configs, bumped) (lookup-bump_affected m.nodes ids j once present);
    configs = rebuild_agent_configs-Follows m nodes rules ids;
  }

-- An identifier whose nodes are present.
AllPresent-append :
    (nodes : Dict Node) (xs ys : List String)
    → AllPresent nodes xs
    → AllPresent nodes ys
    → AllPresent nodes (xs ++ ys)
AllPresent-append nodes [] ys h k = k
AllPresent-append nodes (x ∷ xs) ys h k = (h.0, AllPresent-append nodes xs ys h.1 k)

AllPresent-distinct_ids :
    (nodes : Dict Node) (xs : List String)
    → AllPresent nodes xs
    → AllPresent nodes (distinct_ids xs)
unfolding distinct_ids
AllPresent-distinct_ids nodes [] h = tt
AllPresent-distinct_ids nodes (x ∷ xs) h = elim (Bool-cases (contains x xs)) [
  | inl again ↦ rw again (AllPresent-distinct_ids nodes xs h.1)
  | inr new ↦ rw new (h.0, AllPresent-distinct_ids nodes xs h.1)
]

available_present :
    (m : Memory) (rule : ForwardRule)
    → rule_nodes_available m rule ≡ true
    → AllPresent m.nodes (rule_node_ids rule)
unfolding rule_nodes_available
available_present m rule h = available-AllPresent m.nodes (rule_node_ids rule) h

created-IsStamped :
    (m : Memory) (rule : ForwardRule)
    → NodesKeyed m.nodes
    → rule_nodes_available m rule ≡ true
    → IsStamped m.nodes rule (created_rule (bump_nodes m.nodes (rule_node_ids rule)) rule)
created-IsStamped m rule v available =
    let ids = rule_node_ids rule in
    let present = available_present m rule available in
    rw (bump_nodes-eq m.nodes ids v present)
      (stamp-IsStamped m.nodes ids rule (rule_node_ids-NoRepeat rule) present λ j c. c)

-- The four ways in which CreateForwardRule can end.
abbrev pub CreateOutcome : Memory → ForwardRule → Type 0
CreateOutcome m rule =
    let r = create_forward_rule m rule in
    ((lookup rule.id m.forward_rules ≢ none) × (r ≡ (err conflict, m)))
    ⊎ ((rule_nodes_available m rule ≡ false) × (r ≡ (err not_found, m)))
    ⊎ ((listener_conflict m rule "" ≡ true) × (r ≡ (err conflict, m)))
    ⊎ ((lookup rule.id m.forward_rules ≡ none)
        × (rule_nodes_available m rule ≡ true)
        × (listener_conflict m rule "" ≡ false)
        × ((stored : ForwardRule) × IsStamped m.nodes rule stored
            × (r.0 ≡ ok stored)
            × Wrote m r.1 rule.id (some stored) (rule_node_ids rule)))

-- What CreateForwardRule does, where the nodes are kept under their identifiers. A rule whose
-- identifier is taken, or that clashes, is refused with ErrConflict, and one with a missing or
-- disabled node with ErrNotFound; nothing changes then. Else the rule is stored and returned, with
-- the next version of its ingress node and, where it relays to a named egress node, of that node,
-- and otherwise as it came. Each of its nodes goes up by one version, and the configurations of
-- these nodes are those that the stored rules call for; nothing else changes of the nodes, the
-- rules and the configurations.
pub create_forward_rule_outcome :
    (m : Memory) (rule : ForwardRule) → NodesKeyed m.nodes → CreateOutcome m rule
unfolding create_forward_rule
create_forward_rule_outcome m rule v = elim (Option-cases (lookup rule.id m.forward_rules)) [
  | inr (other, e) ↦ inl (λ f. cc, rw e refl)
  | inl e ↦ elim (Bool-cases (rule_nodes_available m rule)) [
    | inr missing ↦ inr (inl (missing, rw (e, missing) refl))
    | inl available ↦ elim (Bool-cases (listener_conflict m rule "")) [
      | inl taken ↦ inr (inr (inl (taken, rw (e, available, taken) refl)))
      | inr free ↦ inr (
          inr (
            inr (
              e,
              available,
              free,
              (
                created_rule (bump_nodes m.nodes (rule_node_ids rule)) rule,
                created-IsStamped m rule v available,
                rw (e, available, free) refl,
                rw (e, available, free)
                    (rebuild-Wrote m (bump_nodes m.nodes (rule_node_ids rule)) _ rule.id _
                      (rule_node_ids rule) (λ k. lookup-insert rule.id k _ m.forward_rules)
                      (bump_nodes-eq m.nodes (rule_node_ids rule) v
                        (available_present m rule available))
                      (rule_node_ids-NoRepeat rule) (available_present m rule available)),
              ),
            )))
    ]
  ]
]

-- The rule as it came, with the counters of the rule as it was, and no version of an egress node.
abbrev pub with_counters : ForwardRule → ForwardRule → ForwardRule
with_counters old rule = record rule {
  active_conns = old.active_conns;
  bytes_in = old.bytes_in;
  bytes_out = old.bytes_out;
  runtime_updated = old.runtime_updated;
  egress_config_version = 0;
}

-- The four ways in which UpdateForwardRule can end.
abbrev pub UpdateOutcome : Memory → ForwardRule → Type 0
UpdateOutcome m rule =
    let r = update_forward_rule m rule in
    ((lookup rule.id m.forward_rules ≡ none) × (r ≡ (err not_found, m)))
    ⊎ ((rule_nodes_available m rule ≡ false) × (r ≡ (err not_found, m)))
    ⊎ ((listener_conflict m rule rule.id ≡ true) × (r ≡ (err conflict, m)))
    ⊎ ((old : ForwardRule) × (lookup rule.id m.forward_rules ≡ some old)
        × (rule_nodes_available m rule ≡ true)
        × (listener_conflict m rule rule.id ≡ false)
        × ((stored : ForwardRule) × IsStamped m.nodes (with_counters old rule) stored
            × (r.0 ≡ ok stored)
            × Wrote m r.1 rule.id (some stored) (affected_ids old rule)))

affected-AllPresent :
    (m : Memory) (old rule : ForwardRule)
    → AllPresent m.nodes (rule_node_ids old)
    → rule_nodes_available m rule ≡ true
    → AllPresent m.nodes (affected_ids old rule)
affected-AllPresent m old rule present available =
    AllPresent-distinct_ids m.nodes (rule_node_ids old ++ rule_node_ids rule) (
      AllPresent-append m.nodes (rule_node_ids old) (rule_node_ids rule) present
        (available_present m rule available))

updated-IsStamped :
    (m : Memory) (old rule : ForwardRule)
    → AllPresent m.nodes (rule_node_ids old)
    → rule_nodes_available m rule ≡ true
    → IsStamped m.nodes
        (with_counters old rule)
        (updated_rule (bump_affected m.nodes (affected_ids old rule)) old rule)
unfolding rule_node_ids
updated-IsStamped m old rule present available =
    stamp-IsStamped m.nodes (affected_ids old rule) (with_counters old rule)
      (distinct_ids-NoRepeat (rule_node_ids old ++ rule_node_ids rule))
      (affected-AllPresent m old rule present available) (contains-affected_ids old rule)

-- What UpdateForwardRule does, where the nodes of the rule as it was are present. A rule that is
-- not stored, or with a missing or disabled node, is refused with ErrNotFound, and one that clashes
-- with ErrConflict; nothing changes then. Else the rule is stored and returned, with the next
-- version of its ingress node and, where it relays to a named egress node, of that node, no version
-- of an egress node where it does not relay, the counters of the rule as it was, and otherwise as it
-- came. Each node of the rule as it was or is goes up by one version, once, and the configurations
-- of these nodes are those that the stored rules call for; nothing else changes of the nodes, the
-- rules and the configurations.
pub update_forward_rule_outcome :
    (m : Memory) (rule : ForwardRule)
    → ((old : ForwardRule)
        → lookup rule.id m.forward_rules ≡ some old
        → AllPresent m.nodes (rule_node_ids old))
    → UpdateOutcome m rule
unfolding update_forward_rule
update_forward_rule_outcome m rule v = elim (Option-cases (lookup rule.id m.forward_rules)) [
  | inl e ↦ inl (e, rw e refl)
  | inr (old, e) ↦ elim (Bool-cases (rule_nodes_available m rule)) [
    | inr missing ↦ inr (inl (missing, rw (e, missing) refl))
    | inl available ↦ elim (Bool-cases (listener_conflict m rule rule.id)) [
      | inl taken ↦ inr (inr (inl (taken, rw (e, available, taken) refl)))
      | inr free ↦ inr (
          inr (
            inr (
              old,
              e,
              available,
              free,
              (
                updated_rule (bump_affected m.nodes (affected_ids old rule)) old rule,
                updated-IsStamped m old rule (v old e) available,
                rw (e, available, free) refl,
                rw (e, available, free)
                    (rebuild-Wrote m (bump_affected m.nodes (affected_ids old rule)) _ rule.id _
                      (affected_ids old rule) (λ k. lookup-insert rule.id k _ m.forward_rules) refl
                      (distinct_ids-NoRepeat (rule_node_ids old ++ rule_node_ids rule))
                      (affected-AllPresent m old rule (v old e) available)),
              ),
            )))
    ]
  ]
]

-- The two ways in which DeleteForwardRule can end.
abbrev pub DeleteOutcome : Memory → String → Type 0
DeleteOutcome m id =
    let r = delete_forward_rule m id in
    ((lookup id m.forward_rules ≡ none) × (r ≡ (err not_found, m)))
    ⊎ ((old : ForwardRule) × (lookup id m.forward_rules ≡ some old)
        × (r.0 ≡ ok tt)
        × Wrote m r.1 id none (rule_node_ids old))

-- What DeleteForwardRule does, where the nodes are kept under their identifiers and those of the
-- rule are present. A rule that is not stored gives ErrNotFound and changes nothing. Else the rule
-- is gone, each of its nodes goes up by one version, and the configurations of these nodes are
-- those that the stored rules call for; nothing else changes of the nodes, the rules and the
-- configurations.
pub delete_forward_rule_outcome :
    (m : Memory) (id : String)
    → NodesKeyed m.nodes
    → ((old : ForwardRule)
        → lookup id m.forward_rules ≡ some old
        → AllPresent m.nodes (rule_node_ids old))
    → DeleteOutcome m id
unfolding delete_forward_rule
delete_forward_rule_outcome m id keyed v = elim (Option-cases (lookup id m.forward_rules)) [
  | inl e ↦ inl (e, rw e refl)
  | inr (old, e) ↦ inr (
    old,
    e,
    rw e refl,
    rw e (
        rebuild-Wrote m (bump_nodes m.nodes (rule_node_ids old)) _ id none (rule_node_ids old)
          (λ k. lookup-remove id k m.forward_rules)
          (bump_nodes-eq m.nodes (rule_node_ids old) keyed (v old e)) (rule_node_ids-NoRepeat old)
          (v old e)),
  )
]
