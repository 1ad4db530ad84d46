-- ===== src/Store/Rules/Configs.antt =====
-- The agents' configurations after a write of a rule, internal/store/memory.go.
use portflow.Prelude.{
  String, ◌≡◌, ◌≢◌, refl, true, false, Option, none, some, List, [], ◌∷◌, arith, ◌==◌, eq_iff,
  eq_refl, Option-cases, Bool-cases, inl, inr, if◌then◌else◌, contains, on_option,
}
use portflow.Dict.{Dict, lookup}
use portflow.Dict.Laws.{lookup-insert}
use portflow.Domain.{ForwardRule, Node}
use portflow.Store.{Memory, AgentConfig}
use portflow.Store.Rules.{rebuild_agent_config, rebuild_agent_configs, with_rules, node_rules}
use portflow.Store.Rules.Conflicts.{forward_rules-rebuild_agent_configs}

-- What the configuration of a node should be, from the nodes and the rules that are stored.
pub expected_config : Dict Node → Dict ForwardRule → String → Option AgentConfig
expected_config nodes rules id =
    on_option (lookup id nodes) none
      λ node. some (record { version = node.config_version; rules = node_rules nodes rules id })

pub nodes-rebuild_agent_configs :
    (m : Memory) (ids : List String) → (rebuild_agent_configs m ids).nodes ≡ m.nodes
unfolding rebuild_agent_configs rebuild_agent_config
nodes-rebuild_agent_configs m [] = refl
nodes-rebuild_agent_configs m (id ∷ ids) =
    ground (arith, nodes-rebuild_agent_configs (rebuild_agent_config m id) ids)

-- The configuration that a rebuild leaves for a node.
abbrev rebuilt : Memory → String → Option AgentConfig
rebuilt m id =
    on_option (lookup id m.nodes) (lookup id m.agent_configs)
      λ node. expected_config m.nodes m.forward_rules id

rebuild_agent_config-lookup :
    (m : Memory) (id j : String)
    → lookup j (rebuild_agent_config m id).agent_configs
      ≡ (if id == j then rebuilt m j else lookup j m.agent_configs)
unfolding rebuild_agent_config expected_config
rebuild_agent_config-lookup m id j = elim (Bool-cases (id == j)) [
  | inl same ↦ rw ((eq_iff id j).0 same) (elim (Option-cases (lookup j m.nodes)) [
    | inl e ↦ rw e (ground arith)
    | inr (node, e) ↦ rw (e, lookup-insert, eq_refl j) refl
  ])
  | inr other ↦ elim (Option-cases (lookup id m.nodes)) [
    | inl e ↦ rw (e, other) refl
    | inr (node, e) ↦ rw (e, lookup-insert, other) refl
  ]
]

nodes-rebuild_agent_config :
    (m : Memory) (id : String) → (rebuild_agent_config m id).nodes ≡ m.nodes
unfolding rebuild_agent_config
nodes-rebuild_agent_config m id = ground arith

forward_rules-rebuild_agent_config :
    (m : Memory) (id : String) → (rebuild_agent_config m id).forward_rules ≡ m.forward_rules
unfolding rebuild_agent_config
forward_rules-rebuild_agent_config m id = ground arith

rebuilt-rebuild_agent_config :
    (m : Memory) (id j : String) → rebuilt (rebuild_agent_config m id) j ≡ rebuilt m j
rebuilt-rebuild_agent_config m id j =
    rw (nodes-rebuild_agent_config, forward_rules-rebuild_agent_config, rebuild_agent_config-lookup)
      (elim (Option-cases (lookup j m.nodes)) [
        | inl e ↦ rw e (ground (arith, e))
        | inr (node, e) ↦ rw e refl
      ])

-- After a loop of rebuilds the nodes of the loop have the expected configurations, and the others
-- the ones that they had.
pub rebuild_agent_configs-lookup :
    (m : Memory) (ids : List String) (j : String)
    → lookup j (rebuild_agent_configs m ids).agent_configs
      ≡ (if contains j ids then rebuilt m j else lookup j m.agent_configs)
unfolding rebuild_agent_configs contains
rebuild_agent_configs-lookup m [] j = refl
rebuild_agent_configs-lookup m (id ∷ ids) j =
    rw
      (
        rebuild_agent_configs-lookup (rebuild_agent_config m id) ids j,
        rebuilt-rebuild_agent_config m id j,
        rebuild_agent_config-lookup m id j,
      )
      (ground arith)

-- The nodes of `ids` have the configurations that the stored nodes and rules call for; the others
-- have the configurations of before.
pub record Follows (m m' : Memory) (ids : List String) : Type 0 where
  pub fresh :
      (j : String)
      → contains j ids ≡ true
      → lookup j m'.nodes ≢ none
      → lookup j m'.agent_configs ≡ expected_config m'.nodes m'.forward_rules j
  pub kept :
      (j : String) → contains j ids ≡ false → lookup j m'.agent_configs ≡ lookup j m.agent_configs

pub rebuild_agent_configs-Follows :
    (m : Memory) (nodes : Dict Node) (rules : Dict ForwardRule) (ids : List String)
    → Follows m (rebuild_agent_configs (with_rules m nodes rules) ids) ids
rebuild_agent_configs-Follows m nodes rules ids = record {
  fresh = λ j h.
      rw
        (
          nodes-rebuild_agent_configs, forward_rules-rebuild_agent_configs,
          rebuild_agent_configs-lookup, h,
        )
        (λ present. elim (Option-cases (lookup j nodes)) [
          | inl e ↦ absurd (present e)
          | inr (node, e) ↦ rw e refl
        ]);
  kept = λ j h. rw (rebuild_agent_configs-lookup, h) refl;
}
