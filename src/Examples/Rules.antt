-- ===== src/Examples/Rules.antt =====
-- Writes of rules on the sample fleet.
use portflow.Prelude.{◌≡◌, refl, some, [], ◌∷◌, map, arith, subst, eq_iff, err}
use mathlib.Core.Option.{some-injective}
use portflow.Dict.{lookup, insert, get_or, values}
use portflow.Domain.{Node, protocols_overlap, ForwardRule}
use portflow.Store.{conflict}
use portflow.Store.Rules.{
  create_forward_rule, update_forward_rule, rule_node_ids, rule_nodes_available, listener_conflict,
  any_conflict, clash, bump_nodes, rebuild_agent_configs, rebuild_agent_config,
}
use portflow.Store.Rules.Conflicts.{
  NoClash, create_forward_rule-NoClash, update_forward_rule-NoClash,
}
use portflow.Store.Rules.Versions.{NodesKeyed, AllPresent}
use portflow.Store.Rules.Writes.{
  CreateOutcome, UpdateOutcome, DeleteOutcome, create_forward_rule_outcome,
  update_forward_rule_outcome, delete_forward_rule_outcome,
}
use portflow.Examples.Fleet.{fleet, busy_fleet, web_rule, relay_rule}

fleet-NodesKeyed : NodesKeyed fleet.nodes
unfolding lookup
fleet-NodesKeyed k n h = ground (arith, eq_iff "n1" k, eq_iff "n2" k)

busy-present :
    (old : ForwardRule)
    → lookup "r1" busy_fleet.forward_rules ≡ some old
    → AllPresent busy_fleet.nodes (rule_node_ids old)
unfolding lookup rule_node_ids
busy-present old h =
    subst (λ o. AllPresent busy_fleet.nodes (rule_node_ids o)) (some-injective web_rule old h)
      ((λ e. cc), tt)

busy-NoClash : NoClash busy_fleet.forward_rules
unfolding lookup
busy-NoClash = record {
  no_blank = refl;
  keyed = λ k r h. ground (arith, eq_iff "r1" k);
  apart = λ j k r s h e n. ground (arith, eq_iff "r1" j, eq_iff "r1" k);
}

create_forward_rule_outcome_example : CreateOutcome busy_fleet relay_rule
create_forward_rule_outcome_example =
    create_forward_rule_outcome busy_fleet relay_rule fleet-NodesKeyed

update_forward_rule_outcome_example :
    UpdateOutcome busy_fleet (record web_rule { listen_port = 80 })
update_forward_rule_outcome_example =
    update_forward_rule_outcome busy_fleet (record web_rule { listen_port = 80 }) busy-present

delete_forward_rule_outcome_example : DeleteOutcome busy_fleet "r1"
delete_forward_rule_outcome_example =
    delete_forward_rule_outcome busy_fleet "r1" fleet-NodesKeyed busy-present

create_forward_rule-NoClash_example :
    NoClash (create_forward_rule busy_fleet relay_rule).1.forward_rules
create_forward_rule-NoClash_example =
    create_forward_rule-NoClash busy_fleet relay_rule (λ e. ground (arith, eq_iff "r2" ""))
      busy-NoClash

update_forward_rule-NoClash_example :
    NoClash (update_forward_rule busy_fleet (record web_rule { listen_port = 80 })).1.forward_rules
update_forward_rule-NoClash_example =
    update_forward_rule-NoClash busy_fleet (record web_rule { listen_port = 80 }) busy-NoClash

-- The relay rule raises both nodes to version 5, and both configurations hold it.
create_relay_versions :
    map
      (λ (node : Node). node.config_version)
      (values (create_forward_rule busy_fleet relay_rule).1.nodes)
    ≡ 5 ∷ 5 ∷ []
unfolding create_forward_rule rule_nodes_available listener_conflict any_conflict clash
    protocols_overlap bump_nodes get_or insert lookup rebuild_agent_configs rebuild_agent_config
    values
create_relay_versions = refl

-- A second rule on the same listener is refused.
create_clash : (create_forward_rule busy_fleet (record web_rule { id = "r3" })).0 ≡ err conflict
unfolding create_forward_rule rule_nodes_available listener_conflict any_conflict clash
    protocols_overlap lookup
create_clash = refl
