-- ===== src/Control/Api/Refines/Agents.antt =====
-- The handlers enrollmentTokens, enrollAgent, agentConfig and agentHeartbeat of
-- internal/control/server.go, as operations of the store.
use portflow.Prelude.{
  ◌==◌, ◌||◌, String, Result, ℕ, ltb, eqb, if◌then◌else◌, trim_space, byte_length,
}
use portflow.Domain.{Net}
use portflow.Store.{AgentIdentity, EnrollmentToken, AgentHeartbeat, role_admin}
use portflow.Store.Rules.{config_for_agent}
use portflow.Store.Enrollment.{create_enrollment_token, enroll_agent}
use portflow.Store.Telemetry.{update_agent_heartbeat}
use portflow.Control.Http.{Request, Environment, Fresh, Server, DecodeError}
use portflow.Control.Enroll.{
  TokenInput, EnrollInput, enrollment_tokens, post_token, add_token, enroll, post_agent, add_agent,
  agent_config, agent_credentials, invalid_agent, trimmed_agent, agent_refusal,
}
use portflow.Control.Heartbeat.{HeartbeatInput, agent_heartbeat, checked_heartbeat, store_heartbeat}
use portflow.Control.Api.Refines.Sessions.{same}
use portflow.Control.Api.Steps.{
  stays, after, token_added, enrolled, reported, Reached, Leads-Reached, on_option-Reached,
  errors-Reached, on_result-Reached, if-Reached, with_body-Reached, only_method-Reached,
  audit-Leads, with_user-Reached,
}

module _ (net : Net) (env : Environment) (server : Server) (request : Request) where
  refused : (response : _) → Reached net server.memory (response, server)
  refused = same net env server request

  add_token-Reached :
      (token : EnrollmentToken) (raw : String)
      → Reached net server.memory (add_token server request token raw)
  unfolding add_token
  add_token-Reached token raw =
      on_result-Reached net server.memory (create_enrollment_token server.memory token).0 _ _
        (λ problem. refused _)
        λ done e. Leads-Reached net server.memory _ (
          audit-Leads net server.memory _ request _ _ _ _ _ _
            (after stays (token_added server.memory token)))

  post_token-Reached :
      (fresh : Fresh) (user_id name : String) (minutes : ℕ)
      → Reached net server.memory (post_token env server request fresh user_id name minutes)
  unfolding post_token
  post_token-Reached fresh user_id name minutes =
      if-Reached net server.memory (name == "" || ltb 80 (byte_length name)) _ _ (λ e. refused _)
        λ e.
          if-Reached net server.memory (ltb minutes 5 || ltb 1440 minutes) _ _ (λ f. refused _)
            λ f. on_option-Reached net server.memory fresh.token _ _ (refused _) λ raw g.
              on_option-Reached net server.memory fresh.id _ _ (refused _)
                λ id h. add_token-Reached _ raw

  pub enrollment_tokens-Reached :
      (fresh : Fresh) (body : Result DecodeError TokenInput)
      → Reached net server.memory (enrollment_tokens env server request fresh body)
  unfolding enrollment_tokens
  enrollment_tokens-Reached fresh body =
      only_method-Reached net server.memory server request "POST" _ stays (
        with_user-Reached net server.memory env server request role_admin _ stays λ session user e.
          with_body-Reached net server.memory server body _ stays λ input.
            post_token-Reached fresh user.id (trim_space input.name)
              (if eqb input.expires_in 0 then 30 else input.expires_in))

  add_agent-Reached :
      (hash : String) (agent : AgentIdentity) (raw : String)
      → Reached net server.memory (add_agent server request hash agent raw)
  unfolding add_agent
  add_agent-Reached hash agent raw =
      on_result-Reached net server.memory (enroll_agent server.memory hash request.now agent).0 _ _
        (errors-Reached net server.memory _ (refused _) (refused _) (refused _) (refused _)
          (refused _))
        λ node e. Leads-Reached net server.memory _ (
          audit-Leads net server.memory _ request _ _ _ _ _ _
            (after stays (enrolled server.memory hash request.now agent)))

  post_agent-Reached :
      (fresh : Fresh) (input : EnrollInput)
      → Reached net server.memory (post_agent env server request fresh input)
  unfolding post_agent
  post_agent-Reached fresh input =
      if-Reached net server.memory (invalid_agent input) _ _ (λ e. refused _)
        λ e. on_option-Reached net server.memory fresh.token _ _ (refused _) λ raw f.
          on_option-Reached net server.memory fresh.id _ _ (refused _)
            λ id g. add_agent-Reached _ _ raw

  pub enroll-Reached :
      (fresh : Fresh) (body : Result DecodeError EnrollInput)
      → Reached net server.memory (enroll env server request fresh body)
  unfolding enroll
  enroll-Reached fresh body = only_method-Reached net server.memory server request "POST" _ stays (
      with_body-Reached net server.memory server body _ stays
        λ input. post_agent-Reached fresh (trimmed_agent input))

  pub agent_config-Reached : Reached net server.memory (agent_config env server request)
  unfolding agent_config
  agent_config-Reached = only_method-Reached net server.memory server request "GET" _ stays (
      on_result-Reached net server.memory (agent_credentials request) _ _ (λ code. refused _)
        λ identity e.
          on_result-Reached net server.memory
            (config_for_agent server.memory identity.0 (env.token_hash identity.1)) _ _
            (errors-Reached net server.memory (agent_refusal server) (refused _) (refused _)
              (refused _) (refused _) (refused _))
            λ config f. refused _)

  store_heartbeat-Reached :
      (identity : String × String) (version : ℕ) (heartbeat : AgentHeartbeat)
      → Reached net server.memory (store_heartbeat env server identity version heartbeat)
  unfolding store_heartbeat
  store_heartbeat-Reached identity version heartbeat =
      on_result-Reached net server.memory
        (update_agent_heartbeat server.memory identity.0 (env.token_hash identity.1) heartbeat).0 _
        _
        (errors-Reached net server.memory (agent_refusal server) (refused _) (refused _) (refused _)
          (refused _) (refused _))
        λ node e.
          Leads-Reached net server.memory _ (after stays (reported server.memory _ _ heartbeat))

  pub agent_heartbeat-Reached :
      (body : Result DecodeError HeartbeatInput)
      → Reached net server.memory (agent_heartbeat net env server request body)
  unfolding agent_heartbeat
  agent_heartbeat-Reached body =
      only_method-Reached net server.memory server request "POST" _ stays (
        on_result-Reached net server.memory (agent_credentials request) _ _ (λ code. refused _)
          λ identity e. with_body-Reached net server.memory server body _ stays λ input.
            on_option-Reached net server.memory (checked_heartbeat net request input) _ _
              (refused _) λ heartbeat f. store_heartbeat-Reached identity _ heartbeat)
