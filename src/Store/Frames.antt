-- ===== src/Store/Frames.antt =====
-- The accounts across the operations of internal/store/memory.go that are not on accounts.
pub mod Rules
use portflow.Prelude.{
  ℕ, String, ◌≡◌, refl, List, [], ◌∷◌, Option-cases, Bool-cases, inl, inr, arith, not, ◌||◌, ltb,
}
use portflow.Dict.{lookup}
use portflow.Domain.{ForwardRule}
use portflow.Store.{Memory, EnrollmentToken, AgentIdentity, AgentHeartbeat}
use portflow.Store.Enrollment.{create_enrollment_token, enroll_agent, is_used}
use portflow.Store.Rules.{
  rebuild_agent_config, rebuild_agent_configs, create_forward_rule, update_forward_rule,
  delete_forward_rule, rule_nodes_available, listener_conflict, is_admitted,
}
use portflow.Store.Telemetry.{
  update_agent_heartbeat, accept_heartbeat, record_agent_logs, record_connections,
  record_rule_stats,
}

-- The accounts and their names are the same.
abbrev pub SameAccounts : Memory → Memory → Type 0
SameAccounts m m' = (m'.users ≡ m.users) × (m'.usernames ≡ m.usernames)

pub create_enrollment_token-SameAccounts :
    (m : Memory) (token : EnrollmentToken) → SameAccounts m (create_enrollment_token m token).1
unfolding create_enrollment_token
create_enrollment_token-SameAccounts m token =
    elim (Option-cases (lookup token.token_hash m.enrollment_tokens)) [
      | inl e ↦ rw e (refl, refl)
      | inr (other, e) ↦ rw e (refl, refl)
    ]

pub enroll_agent-SameAccounts :
    (m : Memory) (hash : String) (now : ℕ) (agent : AgentIdentity)
    → SameAccounts m (enroll_agent m hash now agent).1
unfolding enroll_agent
enroll_agent-SameAccounts m hash now agent = elim (Option-cases (lookup hash m.enrollment_tokens)) [
  | inl e ↦ rw e (refl, refl)
  | inr (token, e) ↦ elim (Bool-cases (is_used token || not (ltb now token.expires_at))) [
    | inl spent ↦ rw (e, spent) (refl, refl)
    | inr open_token ↦ elim (Option-cases (lookup agent.id m.nodes)) [
      | inl f ↦ rw (e, open_token, f) (refl, refl)
      | inr (other, f) ↦ rw (e, open_token, f) (refl, refl)
    ]
  ]
]

rebuild_agent_configs-SameAccounts :
    (m : Memory) (ids : List String) → SameAccounts m (rebuild_agent_configs m ids)
unfolding rebuild_agent_configs rebuild_agent_config
rebuild_agent_configs-SameAccounts m [] = (refl, refl)
rebuild_agent_configs-SameAccounts m (id ∷ ids) =
    ground (arith, rebuild_agent_configs-SameAccounts (rebuild_agent_config m id) ids)

pub create_forward_rule-SameAccounts :
    (m : Memory) (rule : ForwardRule) → SameAccounts m (create_forward_rule m rule).1
unfolding create_forward_rule
create_forward_rule-SameAccounts m rule = elim (Option-cases (lookup rule.id m.forward_rules)) [
  | inr (other, e) ↦ rw e (refl, refl)
  | inl e ↦ elim (Bool-cases (rule_nodes_available m rule)) [
    | inr missing ↦ rw (e, missing) (refl, refl)
    | inl available ↦ elim (Bool-cases (listener_conflict m rule "")) [
      | inl taken ↦ rw (e, available, taken) (refl, refl)
      | inr free ↦ rw (e, available, free) (rebuild_agent_configs-SameAccounts _ _)
    ]
  ]
]

pub update_forward_rule-SameAccounts :
    (m : Memory) (rule : ForwardRule) → SameAccounts m (update_forward_rule m rule).1
unfolding update_forward_rule
update_forward_rule-SameAccounts m rule = elim (Option-cases (lookup rule.id m.forward_rules)) [
  | inl e ↦ rw e (refl, refl)
  | inr (old, e) ↦ elim (Bool-cases (rule_nodes_available m rule)) [
    | inr missing ↦ rw (e, missing) (refl, refl)
    | inl available ↦ elim (Bool-cases (listener_conflict m rule rule.id)) [
      | inl taken ↦ rw (e, available, taken) (refl, refl)
      | inr free ↦ rw (e, available, free) (rebuild_agent_configs-SameAccounts _ _)
    ]
  ]
]

pub delete_forward_rule-SameAccounts :
    (m : Memory) (id : String) → SameAccounts m (delete_forward_rule m id).1
unfolding delete_forward_rule
delete_forward_rule-SameAccounts m id = elim (Option-cases (lookup id m.forward_rules)) [
  | inl e ↦ rw e (refl, refl)
  | inr (old, e) ↦ rw e (rebuild_agent_configs-SameAccounts _ _)
]

pub update_agent_heartbeat-SameAccounts :
    (m : Memory) (node_id hash : String) (heartbeat : AgentHeartbeat)
    → SameAccounts m (update_agent_heartbeat m node_id hash heartbeat).1
unfolding update_agent_heartbeat accept_heartbeat record_agent_logs record_connections
    record_rule_stats
update_agent_heartbeat-SameAccounts m node_id hash heartbeat =
    elim (Option-cases (lookup node_id m.nodes)) [
      | inl e ↦ rw e (refl, refl)
      | inr (node, e) ↦ elim (Bool-cases (is_admitted m node_id hash node)) [
        | inl admitted ↦ rw (e, admitted) (refl, refl)
        | inr stranger ↦ rw (e, stranger) (refl, refl)
      ]
    ]
