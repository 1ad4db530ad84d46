-- ===== src/Control/Enroll/Admission.antt =====
-- The credential that the handler enrollAgent of internal/control/server.go hands out, at agentConfig,
-- and the token that it took, at enrollAgent again.
use portflow.Prelude.{
  ℕ, String, ◌≡◌, refl, Bool, true, false, some, [], ◌∷◌, ok, err, ap, ◌∙◌, arith, ◌==◌, eq_refl,
  Option-cases, Result-cases, Bool-cases, inl, inr, subst,
}
use portflow.Dict.{Dict, lookup, insert, get_or}
use portflow.Dict.Laws.{lookup-insert}
use portflow.Domain.{Node, zero_node}
use portflow.Store.{
  Memory, EnrollmentToken, AgentIdentity, StoreError, not_found, conflict, bootstrap_completed,
  token_invalid, last_administrator,
}
use portflow.Store.Enrollment.{enroll_agent, enrolled, enrolled_node}
use portflow.Store.Enrollment.Tokens.{enroll_agent-Admits}
use portflow.Store.Rules.{config_for_agent}
use portflow.Store.Telemetry.{record_audit}
use portflow.Control.Http.{
  Request, Environment, Fresh, Server, Answer, Response, reply, refusal, audit, with_body,
  only_method, with_memory, new_agent, agent_rules,
}
use portflow.Control.Enroll.{
  EnrollInput, invalid_agent, trimmed_agent, identity_of, enroll_refusal, add_agent, post_agent,
  enroll, agent_credentials, agent_config,
}

-- A memory that an audit entry has been added to still has its agents.
record SameAgents (before after : Memory) : Type 0 where
  enrollment_tokens : after.enrollment_tokens ≡ before.enrollment_tokens
  nodes : after.nodes ≡ before.nodes
  agent_credentials : after.agent_credentials ≡ before.agent_credentials
  agent_configs : after.agent_configs ≡ before.agent_configs

audit-SameAgents :
    (server : Server) (request : Request)
    (actor_type actor_id action target_type target_id : String) (details : Dict String)
    → SameAgents server.memory
        (audit server request actor_type actor_id action target_type target_id details).memory
unfolding audit record_audit
audit-SameAgents server request actor_type actor_id action target_type target_id details =
    elim (Option-cases request.audit_id) [
      | inl e ↦ rw e (record {
        enrollment_tokens = refl;
        nodes = refl;
        agent_credentials = refl;
        agent_configs = refl;
      })
      | inr (id, e) ↦ rw e (record {
        enrollment_tokens = refl;
        nodes = refl;
        agent_credentials = refl;
        agent_configs = refl;
      })
    ]

unfoldable node_of : Response → Node
node_of (reply status (new_agent node credential)) = node
node_of response = zero_node

unfoldable credential_of : Response → String
credential_of (reply status (new_agent node credential)) = credential
credential_of response = ""

unfoldable is_new_agent : Response → Bool
is_new_agent (reply status (new_agent node credential)) = true
is_new_agent response = false

-- What an enrolment that handed out a credential has done.
record Enrolled (env : Environment) (request : Request) (input : EnrollInput) (before : Memory)
    (node : Node) (credential : String) (after : Memory) : Type 0 where
  agent : AgentIdentity
  token : EnrollmentToken
  accepted :
      enroll_agent before (env.token_hash input.token) request.now agent
      ≡ (ok node, enrolled before (env.token_hash input.token) token request.now agent)
  named : node ≡ enrolled_node agent request.now
  hashed : agent.credential_hash ≡ env.token_hash credential
  same : SameAgents (enrolled before (env.token_hash input.token) token request.now agent) after

refused_never :
    (server : Server) (problem : StoreError)
    → is_new_agent (enroll_refusal server problem).0 ≡ false
unfolding is_new_agent
refused_never server token_invalid = refl
refused_never server not_found = refl
refused_never server conflict = refl
refused_never server bootstrap_completed = refl
refused_never server last_administrator = refl

-- The store's answer, with the audit entry of the handler.
enroll_agent-Enrolled :
    (env : Environment) (memory : Memory) (server : Server) (request : Request)
    (input : EnrollInput) (agent : AgentIdentity) (raw : String) (node : Node)
    (actor action kind target : String) (details : Dict String)
    → agent.credential_hash ≡ env.token_hash raw
    → (enroll_agent memory (env.token_hash input.token) request.now agent).0 ≡ ok node
    → server.memory ≡ (enroll_agent memory (env.token_hash input.token) request.now agent).1
    → Enrolled env request input memory node raw
        (audit server request "agent" actor action kind target details).memory
enroll_agent-Enrolled env memory server request input agent raw node actor action kind target
      details hashed e is =
    let hash = env.token_hash input.token in
    let answer = enroll_agent memory hash request.now agent in
    let whole : answer ≡ (ok node, answer.1) = ap (λ r. (r, answer.1)) e in
    let (t, a, after, named) =
      enroll_agent-Admits memory answer.1 hash request.now agent node whole in
    record {
      agent = agent;
      token = t;
      accepted = whole ∙ ap (λ m. (ok node, m)) after;
      named = named;
      hashed = hashed;
      same =
          subst
            (λ m.
              SameAgents m (audit server request "agent" actor action kind target details).memory)
            (is ∙ after) (audit-SameAgents server request "agent" actor action kind target details);
    }

add_agent-Enrolled :
    (env : Environment) (server : Server) (request : Request) (input : EnrollInput)
    (id raw : String) (node : Node) (credential : String)
    → let answer =
        add_agent server request
          (env.token_hash input.token)
          (identity_of env request input id raw)
          raw in
      answer.0 ≡ reply 201 (new_agent node credential)
      → Enrolled env request input server.memory node credential answer.1.memory
unfolding add_agent node_of credential_of is_new_agent
add_agent-Enrolled env server request input id raw node credential =
    let agent = identity_of env request input id raw in
    elim (Result-cases
      (enroll_agent server.memory (env.token_hash input.token) request.now agent).0) [
        | inl (problem, e) ↦
            rw (add_agent, e)
              λ h. absurd (ground (arith, refused_never server problem, ap is_new_agent h))
        | inr (found, e) ↦
            rw (add_agent, e)
              λ h.
                let after =
                  audit
                    (with_memory server
                      (enroll_agent server.memory (env.token_hash input.token) request.now agent).1)
                    request "agent" found.id "agent.enroll" "node" found.id
                    (("name", found.name) ∷ []) in
                let kept =
                  enroll_agent-Enrolled env server.memory
                    (with_memory server
                      (enroll_agent server.memory (env.token_hash input.token) request.now agent).1)
                    request input agent raw found found.id "agent.enroll" "node" found.id
                    (("name", found.name) ∷ []) refl e refl in
                subst (λ c. Enrolled env request input server.memory node c after.memory)
                  (ap credential_of h)
                  (subst (λ n. Enrolled env request input server.memory n raw after.memory)
                    (ap node_of h) kept)
      ]

post_agent-Enrolled :
    (env : Environment) (server : Server) (request : Request) (fresh : Fresh) (input : EnrollInput)
    (node : Node) (credential : String)
    → let answer = post_agent env server request fresh input in
      answer.0 ≡ reply 201 (new_agent node credential)
      → Enrolled env request input server.memory node credential answer.1.memory
unfolding post_agent is_new_agent
post_agent-Enrolled env server request fresh input node credential =
    let after = λ (answer : Answer).
      answer.0 ≡ reply 201 (new_agent node credential)
      → Enrolled env request input server.memory node credential answer.1.memory in
    elim (Bool-cases (invalid_agent input)) [
      | inl bad ↦ rw (post_agent, bad) λ h. absurd (ground (arith, ap is_new_agent h))
      | inr good ↦ elim (Option-cases fresh.token) [
        | inl e ↦ rw (post_agent, good, e) λ h. absurd (ground (arith, ap is_new_agent h))
        | inr (raw, e) ↦ elim (Option-cases fresh.id) [
          | inl f ↦ rw (post_agent, good, e, f) λ h. absurd (ground (arith, ap is_new_agent h))
          | inr (id, f) ↦
              rw (post_agent, good, e, f)
                (add_agent-Enrolled env server request input id raw node credential)
        ]
      ]
    ]

enroll-Enrolled :
    (env : Environment) (server : Server) (request : Request) (fresh : Fresh) (input : EnrollInput)
    (node : Node) (credential : String)
    → let answer = enroll env server request fresh (ok input) in
      answer.0 ≡ reply 201 (new_agent node credential)
      → Enrolled env request (trimmed_agent input) server.memory node credential answer.1.memory
unfolding enroll only_method with_body is_new_agent
enroll-Enrolled env server request fresh input node credential =
    elim (Bool-cases (request.method == "POST")) [
      | inr other ↦ rw (enroll, other) λ h. absurd (ground (arith, ap is_new_agent h))
      | inl post ↦
          rw (enroll, post)
            (post_agent-Enrolled env server request fresh (trimmed_agent input) node credential)
    ]

lookup-inserted {ℓ} :
    {V : Type ℓ} (key : String) (value : V) (entries : Dict V)
    → lookup key (insert key value entries) ≡ some value
lookup-inserted key value entries = lookup-insert key key value entries ∙ rw (eq_refl key) refl

-- The maps of an enrolled agent answer its credential with an empty configuration.
config-Enrolled :
    (env : Environment) (request : Request) (input : EnrollInput) (before after : Memory)
    (node : Node) (credential : String)
    → Enrolled env request input before node credential after
    → config_for_agent after node.id (env.token_hash credential)
      ≡ ok (record { version = 1; rules = [] })
unfolding config_for_agent get_or
config-Enrolled env request input before after node credential done =
    let agent = done.agent in
    let stored : lookup agent.id after.nodes ≡ some (enrolled_node agent request.now) =
      ap (lookup agent.id) done.same.nodes ∙ lookup-inserted agent.id _ before.nodes in
    let known : lookup agent.id after.agent_credentials ≡ some (env.token_hash credential) =
      ap (lookup agent.id) done.same.agent_credentials
      ∙ lookup-inserted agent.id _ before.agent_credentials
      ∙ ap some done.hashed in
    let config : lookup agent.id after.agent_configs ≡ some (record { version = 1; rules = [] }) =
      ap (lookup agent.id) done.same.agent_configs
      ∙ lookup-inserted agent.id _ before.agent_configs in
    rw (done.named)
      (rw (stored, known, config) (ground (arith, eq_refl (env.token_hash credential))))

-- A token that has admitted an agent admits none after the audit entry either.
again-Enrolled :
    (env : Environment) (request : Request) (input : EnrollInput) (before after : Memory)
    (node : Node) (credential : String) (now : ℕ) (other : AgentIdentity)
    → Enrolled env request input before node credential after
    → enroll_agent after (env.token_hash input.token) now other ≡ (err token_invalid, after)
unfolding enroll_agent
again-Enrolled env request input before after node credential now other done =
    let hash = env.token_hash input.token in
    let mid = enrolled before hash done.token request.now done.agent in
    rw (done.same.enrollment_tokens) (
      ground (
        arith,
        lookup-insert hash hash (record done.token { used_at = some request.now })
            before.enrollment_tokens,
        eq_refl hash,
      ))

-- When enrollAgent hands out a credential, a GET of agentConfig that carries it with the node's
-- identifier is answered with version 1 of the configuration and no rules. A further POST to
-- enrollAgent with the same token, whose fields are valid and for which a credential and an
-- identifier can be made, is answered 401 and changes nothing.
pub enroll-agent_config :
    (env : Environment) (server : Server) (request : Request) (fresh : Fresh) (input : EnrollInput)
    (node : Node) (credential : String) (later again : Request) (other : EnrollInput)
    (spare : Fresh) (raw id : String)
    → (enroll env server request fresh (ok input)).0 ≡ reply 201 (new_agent node credential)
    → later.method ≡ "GET"
    → agent_credentials later ≡ ok (node.id, credential)
    → again.method ≡ "POST"
    → other.token ≡ input.token
    → invalid_agent (trimmed_agent other) ≡ false
    → spare.token ≡ some raw
    → spare.id ≡ some id
    → let entered = (enroll env server request fresh (ok input)).1 in
      (agent_config env entered later
        ≡ (reply 200 (agent_rules (record { version = 1; rules = [] })), entered))
      × (enroll env entered again spare (ok other)
          ≡ (refusal 401 "invalid_enrollment_token", entered))
unfolding agent_config enroll only_method with_body post_agent add_agent
enroll-agent_config env server request fresh input node credential later again other spare raw id
      answered get carries post same valid token fits =
    let entered = (enroll env server request fresh (ok input)).1 in
    let done = enroll-Enrolled env server request fresh input node credential answered in
    let config =
      config-Enrolled env request (trimmed_agent input) server.memory entered.memory node credential
        done in
    let refused =
      again-Enrolled env request (trimmed_agent input) server.memory entered.memory node credential
        again.now (identity_of env again (trimmed_agent other) id raw) done in
    (rw (get, carries, config) refl, rw (post, valid, token, fits, same, refused) refl)
