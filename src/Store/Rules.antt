-- ===== src/Store/Rules.antt =====
-- Forwarding rules and the configurations of the agents, internal/store/memory.go. Values here do
-- not share storage, so `cloneRule`, which copies a rule's CIDR slices, is the identity.
pub mod Conflicts
pub mod Configs
pub mod Versions
mod Stamped
pub mod Writes
use Prim.Native.String.{compare}
use text.Mathlib.Text.{is_lt}
use portflow.Prelude.{
  ℕ, String, Bool, true, false, Option, none, some, List, [], ◌∷◌, ◌++◌, map, ◌==◌, ◌&&◌, ◌||◌, not,
  eqb, if◌then◌else◌, on_option, Result, ok, err, sort_by, keep, contains,
}
use portflow.Dict.{Dict, lookup, get_or, insert, remove, values}
use portflow.Domain.{Node, ForwardRule, zero_node, node_disabled, is_relay, protocols_overlap}
use portflow.Store.{Memory, Reply, StoreError, AgentConfig, not_found, conflict, bump}

unfoldable pub rule_node_ids : ForwardRule → List String
rule_node_ids rule =
    if is_relay rule
      && not (rule.egress_node_id == "")
      && not (rule.egress_node_id == rule.ingress_node_id)
    then rule.ingress_node_id ∷ rule.egress_node_id ∷ []
    else rule.ingress_node_id ∷ []

-- The node exists and is not disabled.
abbrev pub is_available : Dict Node → String → Bool
is_available nodes id = on_option (lookup id nodes) false λ node. not (node.status == node_disabled)

unfoldable pub all_available : Dict Node → List String → Bool
all_available nodes [] = true
all_available nodes (id ∷ ids) = is_available nodes id && all_available nodes ids

-- ruleNodesAvailableLocked
unfoldable pub rule_nodes_available : Memory → ForwardRule → Bool
unfolding rule_node_ids all_available
rule_nodes_available memory rule = all_available memory.nodes (rule_node_ids rule)

-- The two rules listen on one address of one ingress node, with a protocol in common.
abbrev pub listeners_clash : ForwardRule → ForwardRule → Bool
listeners_clash rule candidate =
    rule.ingress_node_id == candidate.ingress_node_id
    && protocols_overlap rule.protocol candidate.protocol
    && rule.listen_host == candidate.listen_host
    && eqb rule.listen_port candidate.listen_port

-- The two rules relay to one port of one egress node.
abbrev pub relays_clash : ForwardRule → ForwardRule → Bool
relays_clash rule candidate =
    is_relay candidate
    && is_relay rule
    && rule.egress_node_id == candidate.egress_node_id
    && eqb rule.relay_port candidate.relay_port

unfoldable pub clash : ForwardRule → ForwardRule → Bool
clash rule candidate = listeners_clash rule candidate || relays_clash rule candidate

-- The loop of listenerConflictLocked, with the two tests of its body as one disjunction.
unfoldable pub any_conflict : ForwardRule → String → Dict ForwardRule → Bool
any_conflict candidate excluded_id [] = false
any_conflict candidate excluded_id ((id, rule) ∷ rules) =
    (not (id == excluded_id) && clash rule candidate) || any_conflict candidate excluded_id rules

-- listenerConflictLocked
unfoldable pub listener_conflict : Memory → ForwardRule → String → Bool
listener_conflict memory candidate excluded_id =
    any_conflict candidate excluded_id memory.forward_rules

-- memory.nodes[id], the zero node where it is missing
abbrev pub node_at : Dict Node → String → Node
node_at nodes id = get_or zero_node (lookup id nodes)

abbrev pub bumped : Node → Node
bumped node = record node { config_version = bump node.config_version }

-- node := nodes[id]; node.ConfigVersion++; nodes[node.ID] = node
unfoldable pub bump_nodes : Dict Node → List String → Dict Node
bump_nodes nodes [] = nodes
bump_nodes nodes (id ∷ ids) =
    bump_nodes (insert (node_at nodes id).id (bumped (node_at nodes id)) nodes) ids

-- The loop of UpdateForwardRule, which writes under the identifier that it read.
unfoldable pub bump_affected : Dict Node → List String → Dict Node
bump_affected nodes [] = nodes
bump_affected nodes (id ∷ ids) = bump_affected (insert id (bumped (node_at nodes id)) nodes) ids

-- Each identifier once: the keys of the set `affected`.
unfoldable pub distinct_ids : List String → List String
unfolding contains
distinct_ids [] = []
distinct_ids (id ∷ ids) = if contains id ids then distinct_ids ids else id ∷ distinct_ids ids

-- rule.IngressNodeID == nodeID || rule.Mode == relay && rule.EgressNodeID == nodeID
abbrev pub concerns : String → ForwardRule → Bool
concerns node_id rule =
    rule.ingress_node_id == node_id || (is_relay rule && rule.egress_node_id == node_id)

-- A relay rule with the egress node's present tunnel address.
abbrev pub resolve_relay : Dict Node → ForwardRule → ForwardRule
resolve_relay nodes rule =
    if is_relay rule
    then record rule { relay_host = (node_at nodes rule.egress_node_id).tunnel_address }
    else rule

abbrev pub id_before : ForwardRule → ForwardRule → Bool
id_before left right = is_lt (compare left.id right.id)

abbrev pub name_before : ForwardRule → ForwardRule → Bool
name_before left right = is_lt (compare left.name right.name)

-- The rules of a node's configuration.
unfoldable pub node_rules : Dict Node → Dict ForwardRule → String → List ForwardRule
node_rules nodes rules node_id =
    sort_by id_before (map (resolve_relay nodes) (keep (concerns node_id) (values rules)))

-- rebuildAgentConfigLocked
unfoldable pub rebuild_agent_config : Memory → String → Memory
rebuild_agent_config memory node_id = on_option (lookup node_id memory.nodes) memory λ node.
    record memory {
      agent_configs =
          insert node_id
            (record {
              version = node.config_version;
              rules = node_rules memory.nodes memory.forward_rules node_id;
            })
            memory.agent_configs;
    }

unfoldable pub rebuild_agent_configs : Memory → List String → Memory
rebuild_agent_configs memory [] = memory
rebuild_agent_configs memory (id ∷ ids) = rebuild_agent_configs (rebuild_agent_config memory id) ids

-- The rule with the new versions of its nodes, and what an update keeps of the previous rule.
abbrev pub created_rule : Dict Node → ForwardRule → ForwardRule
created_rule nodes rule = record rule {
  config_version = (node_at nodes rule.ingress_node_id).config_version;
  egress_config_version =
      if is_relay rule
      then (node_at nodes rule.egress_node_id).config_version
      else rule.egress_config_version;
}

abbrev pub updated_rule : Dict Node → ForwardRule → ForwardRule → ForwardRule
updated_rule nodes previous rule = record rule {
  active_conns = previous.active_conns;
  bytes_in = previous.bytes_in;
  bytes_out = previous.bytes_out;
  runtime_updated = previous.runtime_updated;
  config_version = (node_at nodes rule.ingress_node_id).config_version;
  egress_config_version =
      if is_relay rule then (node_at nodes rule.egress_node_id).config_version else 0;
}

-- The nodes and the rules after a write, before the configurations are rebuilt.
abbrev pub with_rules : Memory → Dict Node → Dict ForwardRule → Memory
with_rules memory nodes rules = record memory { nodes = nodes; forward_rules = rules }

unfoldable pub create_forward_rule : Memory → ForwardRule → Reply ForwardRule
create_forward_rule memory rule =
    on_option (lookup rule.id memory.forward_rules)
      (if not (rule_nodes_available memory rule)
        then (err not_found, memory)
        else if listener_conflict memory rule ""
        then (err conflict, memory)
        else let nodes = bump_nodes memory.nodes (rule_node_ids rule) in
          let created = created_rule nodes rule in
          (
            ok created,
            rebuild_agent_configs
                (with_rules memory nodes (insert rule.id created memory.forward_rules))
                (rule_node_ids rule),
          ))
      λ other. (err conflict, memory)

abbrev pub affected_ids : ForwardRule → ForwardRule → List String
affected_ids previous rule = distinct_ids (rule_node_ids previous ++ rule_node_ids rule)

unfoldable pub update_forward_rule : Memory → ForwardRule → Reply ForwardRule
update_forward_rule memory rule =
    on_option (lookup rule.id memory.forward_rules) (err not_found, memory)
      λ previous.
        if not (rule_nodes_available memory rule)
        then (err not_found, memory)
        else if listener_conflict memory rule rule.id
        then (err conflict, memory)
        else let nodes = bump_affected memory.nodes (affected_ids previous rule) in
          let updated = updated_rule nodes previous rule in
          (
            ok updated,
            rebuild_agent_configs
                (with_rules memory nodes (insert rule.id updated memory.forward_rules))
                (affected_ids previous rule),
          )

unfoldable pub delete_forward_rule : Memory → String → Reply Unit
delete_forward_rule memory id =
    on_option (lookup id memory.forward_rules) (err not_found, memory)
      λ rule. (
        ok tt,
        rebuild_agent_configs
            (with_rules memory (bump_nodes memory.nodes (rule_node_ids rule))
              (remove id memory.forward_rules))
            (rule_node_ids rule),
      )

unfoldable pub list_forward_rules : Memory → List ForwardRule
list_forward_rules memory =
    sort_by name_before (map (resolve_relay memory.nodes) (values memory.forward_rules))

-- The agent's credential fits and its node is not disabled.
abbrev pub is_admitted : Memory → String → String → Node → Bool
is_admitted memory node_id credential_hash node =
    get_or "" (lookup node_id memory.agent_credentials) == credential_hash
    && not (node.status == node_disabled)

unfoldable pub config_for_agent : Memory → String → String → Result StoreError AgentConfig
config_for_agent memory node_id credential_hash =
    on_option (lookup node_id memory.nodes) (err not_found) λ node.
      if not (is_admitted memory node_id credential_hash node)
      then err not_found
      else on_option (lookup node_id memory.agent_configs) (err not_found) λ config. ok config

unfoldable pub set_agent_config : Memory → String → AgentConfig → Reply Unit
set_agent_config memory node_id config =
    on_option (lookup node_id memory.nodes) (err not_found, memory)
      λ node. (
        ok tt,
        record memory {
          agent_configs = insert node_id config memory.agent_configs;
          nodes = insert node_id (record node { config_version = config.version }) memory.nodes;
        },
      )
