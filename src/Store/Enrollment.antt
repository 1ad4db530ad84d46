-- ===== src/Store/Enrollment.antt =====
-- Enrollment tokens and the enrollment of agents, internal/store/memory.go.
pub mod Tokens
use portflow.Prelude.{
  ℕ, String, Bool, true, false, Option, none, some, [], ltb, not, ◌||◌, if◌then◌else◌, on_option,
  Result, ok, err,
}
use portflow.Dict.{lookup, insert}
use portflow.Domain.{Node, zero_node, node_online}
use portflow.Store.{
  Memory, Reply, EnrollmentToken, AgentIdentity, AgentConfig, conflict, token_invalid,
}

unfoldable pub create_enrollment_token : Memory → EnrollmentToken → Reply Unit
create_enrollment_token memory token =
    on_option (lookup token.token_hash memory.enrollment_tokens)
      (
        ok tt,
        record memory {
          enrollment_tokens = insert token.token_hash token memory.enrollment_tokens;
        },
      )
      λ other. (err conflict, memory)

-- token.UsedAt != nil
abbrev pub is_used : EnrollmentToken → Bool
is_used token = on_option token.used_at false λ at. true

abbrev pub enrolled_node : AgentIdentity → ℕ → Node
enrolled_node agent now = record zero_node {
  id = agent.id;
  name = agent.name;
  region = agent.region;
  public_ip = agent.public_ip;
  status = node_online;
  architecture = agent.architecture;
  agent_version = agent.agent_version;
  last_heartbeat = now;
  config_version = 1;
  applied_config_version = 1;
  attempted_config_version = 1;
}

-- The maps that an enrollment writes.
abbrev pub enrolled : Memory → String → EnrollmentToken → ℕ → AgentIdentity → Memory
enrolled memory token_hash token now agent = record memory {
  enrollment_tokens =
      insert token_hash (record token { used_at = some now }) memory.enrollment_tokens;
  nodes = insert agent.id (enrolled_node agent now) memory.nodes;
  agent_credentials = insert agent.id agent.credential_hash memory.agent_credentials;
  agent_configs = insert agent.id (record { version = 1; rules = [] }) memory.agent_configs;
}

unfoldable pub enroll_agent : Memory → String → ℕ → AgentIdentity → Reply Node
enroll_agent memory token_hash now agent =
    on_option (lookup token_hash memory.enrollment_tokens) (err token_invalid, memory)
      λ token.
        if is_used token || not (ltb now token.expires_at)
        then (err token_invalid, memory)
        else on_option (lookup agent.id memory.nodes)
            (ok (enrolled_node agent now), enrolled memory token_hash token now agent)
            λ other. (err conflict, memory)
