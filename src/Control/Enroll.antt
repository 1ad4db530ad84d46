-- ===== src/Control/Enroll.antt =====
-- The handlers enrollmentTokens, enrollAgent and agentConfig of internal/control/server.go, and the
-- credentials of an agent's request.
pub mod Admission
use portflow.Prelude.{
  ℕ, ◌+◌, ◌*◌, String, Bool, none, [], ◌∷◌, ◌==◌, ◌||◌, ltb, eqb, if◌then◌else◌, on_option,
  on_result, Result, ok, err, trim_space, byte_length, after_prefix,
}
use portflow.Store.{
  EnrollmentToken, AgentIdentity, StoreError, role_admin, second, not_found, conflict,
  bootstrap_completed, token_invalid, last_administrator,
}
use portflow.Store.Enrollment.{create_enrollment_token, enroll_agent}
use portflow.Store.Rules.{config_for_agent}
use portflow.Control.Http.{
  Request, Environment, Fresh, Server, Answer, DecodeError, reply, refuse, with_body, only_method,
  with_user, user_audit, audit, with_memory, bearer, new_enrollment, new_agent, agent_rules,
}

-- A number of minutes below zero is out of the range like any other below five, and not modelled.
pub record TokenInput : Type 0 where
  pub name : String
  pub expires_in : ℕ

pub record EnrollInput : Type 0 where
  pub token : String
  pub name : String
  pub region : String
  pub architecture : String
  pub agent_version : String

-- CreateEnrollmentToken and what follows.
unfoldable pub add_token : Server → Request → EnrollmentToken → String → Answer
add_token server request token raw_token =
    let (answer, memory) = create_enrollment_token server.memory token in
    on_result answer (λ problem. refuse server 500 "storage_error")
      λ done. (
        reply 201 (new_enrollment token.id raw_token token.expires_at),
        user_audit (with_memory server memory) request token.created_by "enrollment_token.create"
            "enrollment_token" token.id (("name", token.name) ∷ []),
      )

unfoldable pub post_token : Environment → Server → Request → Fresh → String → String → ℕ → Answer
unfolding add_token
post_token env server request fresh user_id name minutes =
    if name == "" || ltb 80 (byte_length name)
    then refuse server 422 "invalid_name"
    else if ltb minutes 5 || ltb 1440 minutes
    then refuse server 422 "invalid_expiration"
    else on_option fresh.token (refuse server 500 "internal_error") λ raw_token.
      on_option fresh.id (refuse server 500 "internal_error") λ id.
        add_token server request
          (record {
            id = id;
            name = name;
            token_hash = env.token_hash raw_token;
            created_by = user_id;
            expires_at = request.now + minutes * 60 * second;
            created_at = request.now;
            used_at = none;
          })
          raw_token

unfoldable pub enrollment_tokens :
    Environment → Server → Request → Fresh → Result DecodeError TokenInput → Answer
unfolding only_method with_user with_body post_token
enrollment_tokens env server request fresh body = only_method server request "POST" (
    with_user env server request role_admin λ user. with_body server body λ input.
      post_token env server request fresh user.id (trim_space input.name)
        (if eqb input.expires_in 0 then 30 else input.expires_in))

-- What the request must have, trimmed before.
abbrev pub invalid_agent : EnrollInput → Bool
invalid_agent input =
    input.token == ""
    || input.name == ""
    || ltb 80 (byte_length input.name)
    || input.architecture == ""
    || ltb 32 (byte_length input.architecture)
    || input.agent_version == ""
    || ltb 32 (byte_length input.agent_version)
    || ltb 80 (byte_length input.region)

abbrev pub trimmed_agent : EnrollInput → EnrollInput
trimmed_agent input = record {
  token = input.token;
  name = trim_space input.name;
  region = trim_space input.region;
  architecture = trim_space input.architecture;
  agent_version = trim_space input.agent_version;
}

abbrev pub identity_of : Environment → Request → EnrollInput → String → String → AgentIdentity
identity_of env request input agent_id raw_credential = record {
  id = agent_id;
  name = input.name;
  region = input.region;
  public_ip = request.remote_ip;
  architecture = input.architecture;
  agent_version = input.agent_version;
  credential_hash = env.token_hash raw_credential;
  created_at = request.now;
}

abbrev pub enroll_refusal : Server → StoreError → Answer
enroll_refusal server token_invalid = refuse server 401 "invalid_enrollment_token"
enroll_refusal server not_found = refuse server 500 "storage_error"
enroll_refusal server conflict = refuse server 500 "storage_error"
enroll_refusal server bootstrap_completed = refuse server 500 "storage_error"
enroll_refusal server last_administrator = refuse server 500 "storage_error"

-- EnrollAgent of the store and what follows.
unfoldable pub add_agent : Server → Request → String → AgentIdentity → String → Answer
add_agent server request token_hash agent raw_credential =
    let (answer, memory) = enroll_agent server.memory token_hash request.now agent in
    on_result answer (enroll_refusal server) λ node. (
      reply 201 (new_agent node raw_credential),
      audit (with_memory server memory) request "agent" node.id "agent.enroll" "node" node.id
          (("name", node.name) ∷ []),
    )

unfoldable pub post_agent : Environment → Server → Request → Fresh → EnrollInput → Answer
unfolding add_agent byte_length
post_agent env server request fresh input =
    if invalid_agent input
    then refuse server 422 "invalid_agent"
    else on_option fresh.token (refuse server 500 "internal_error") λ raw_credential.
      on_option fresh.id (refuse server 500 "internal_error") λ agent_id.
        add_agent server request (env.token_hash input.token)
          (identity_of env request input agent_id raw_credential) raw_credential

-- enrollAgent
unfoldable pub enroll :
    Environment → Server → Request → Fresh → Result DecodeError EnrollInput → Answer
unfolding only_method with_body post_agent
enroll env server request fresh body =
    only_method server request "POST"
      (with_body server body λ input. post_agent env server request fresh (trimmed_agent input))

-- requireAgentCredentials: the node's identifier and the credential, or the error's code.
unfoldable pub agent_credentials : Request → Result String (String × String)
unfolding trim_space after_prefix byte_length
agent_credentials request =
    let node_id = trim_space request.node_header in
    if node_id == ""
    then err "agent_authentication_required"
    else on_option (after_prefix bearer request.authorization) (err "agent_authentication_required")
        λ rest.
          if trim_space rest == ""
            || ltb 128 (byte_length node_id)
            || ltb 256 (byte_length (trim_space rest))
          then err "invalid_agent_credentials"
          else ok (node_id, trim_space rest)

abbrev pub agent_refusal : Server → StoreError → Answer
agent_refusal server not_found = refuse server 401 "invalid_agent_credentials"
agent_refusal server conflict = refuse server 500 "storage_error"
agent_refusal server bootstrap_completed = refuse server 500 "storage_error"
agent_refusal server token_invalid = refuse server 500 "storage_error"
agent_refusal server last_administrator = refuse server 500 "storage_error"

unfoldable pub agent_config : Environment → Server → Request → Answer
unfolding only_method agent_credentials
agent_config env server request = only_method server request "GET" (
    on_result (agent_credentials request) (λ code. refuse server 401 code)
      λ identity.
        on_result (config_for_agent server.memory identity.0 (env.token_hash identity.1))
          (agent_refusal server) λ config. (reply 200 (agent_rules config), server))
