-- ===== src/Control/Api/Steps.antt =====
-- What requests may do to the store: the store's operations, each under what the handlers of
-- internal/control/server.go make sure of before they call it.
use portflow.Prelude.{
  ℕ, String, ◌≡◌, refl, Bool, true, false, Option, none, some, Result, ok, err, on_option,
  on_result, if◌then◌else◌, Option-cases, Result-cases, inl, inr,
}
use portflow.Dict.{Dict, lookup}
use portflow.Domain.{Net, ForwardRule, validate}
use portflow.Store.{
  StoreError, not_found, conflict, bootstrap_completed, token_invalid, last_administrator, Memory,
  User, Session, AuditEvent, EnrollmentToken, AgentIdentity, AgentHeartbeat,
}
use portflow.Store.Users.{AccountCall, account_step, create_initial_user, is_active_admin}
use portflow.Store.Sessions.{create_session, delete_session_by_token_hash}
use portflow.Store.Enrollment.{create_enrollment_token, enroll_agent}
use portflow.Store.Rules.{create_forward_rule, update_forward_rule, delete_forward_rule}
use portflow.Store.Telemetry.{record_audit, update_agent_heartbeat}
use portflow.Control.Access.{
  require_user, authentication_required, invalid_session, permission_denied,
}
use portflow.Control.Http.{
  Environment, session_token, with_user, on_access, Server, Request, Answer, DecodeError,
  invalid_content_type, invalid_json, with_body, only_method, audit,
}

-- One operation. Accounts are changed only where there is one already, but for the first, which is
-- an administrator's; a session is opened for an account that is stored and active; a rule that is
-- stored is valid.
pub data StoreStep (net : Net) : Memory → Memory → Type 0 where
  first_account :
      (m : Memory) (user : User)
      → is_active_admin user ≡ true
      → StoreStep net m (create_initial_user m user).1
  account_change :
      (m : Memory) (call : AccountCall) (id : String) (user : User)
      → lookup id m.users ≡ some user
      → StoreStep net m (account_step m call)
  session_opened :
      (m : Memory) (session : Session) (user : User)
      → lookup session.user_id m.users ≡ some user
      → user.disabled ≡ false
      → StoreStep net m (create_session m session).1
  session_closed :
      (m : Memory) (hash : String) → StoreStep net m (delete_session_by_token_hash m hash).1
  audited : (m : Memory) (event : AuditEvent) → StoreStep net m (record_audit m event).1
  token_added :
      (m : Memory) (token : EnrollmentToken) → StoreStep net m (create_enrollment_token m token).1
  enrolled :
      (m : Memory) (hash : String) (now : ℕ) (agent : AgentIdentity)
      → StoreStep net m (enroll_agent m hash now agent).1
  reported :
      (m : Memory) (node_id hash : String) (heartbeat : AgentHeartbeat)
      → StoreStep net m (update_agent_heartbeat m node_id hash heartbeat).1
  rule_created :
      (m : Memory) (rule : ForwardRule)
      → validate net rule ≡ none
      → StoreStep net m (create_forward_rule m rule).1
  rule_updated :
      (m : Memory) (rule : ForwardRule)
      → validate net rule ≡ none
      → StoreStep net m (update_forward_rule m rule).1
  rule_deleted : (m : Memory) (id : String) → StoreStep net m (delete_forward_rule m id).1

-- Any number of them.
pub data Leads (net : Net) (m : Memory) : Memory → Type 0 where
  stays : Leads net m m
  after : {k l : Memory} → Leads net m k → StoreStep net k l → Leads net m l

pub Leads-trans : {net : Net} {m k l : Memory} → Leads net m k → Leads net k l → Leads net m l
Leads-trans first stays = first
Leads-trans first (after rest step) = after (Leads-trans first rest) step

-- The memory that an answer leaves is reached from this one.
unfoldable pub Reached : Net → Memory → Answer → Type 0
Reached net m answer = Leads net m answer.1.memory

module _ (net : Net) (m : Memory) where
  pub Leads-Reached : (answer : Answer) → Leads net m answer.1.memory → Reached net m answer
  unfolding Reached
  Leads-Reached answer h = h

  pub on_option-Reached :
      {A : Type 0} (o : Option A) (otherwise : Answer) (next : A → Answer)
      → Reached net m otherwise
      → ((a : A) → o ≡ some a → Reached net m (next a))
      → Reached net m (on_option o otherwise next)
  on_option-Reached none otherwise next h f = h
  on_option-Reached (some a) otherwise next h f = f a refl

  pub on_result-Reached :
      {E A : Type 0} (r : Result E A) (refused : E → Answer) (next : A → Answer)
      → ((e : E) → Reached net m (refused e))
      → ((a : A) → r ≡ ok a → Reached net m (next a))
      → Reached net m (on_result r refused next)
  on_result-Reached (err e) refused next h f = h e
  on_result-Reached (ok a) refused next h f = f a refl

  pub if-Reached :
      (b : Bool) (yes_answer no_answer : Answer)
      → (b ≡ true → Reached net m yes_answer)
      → (b ≡ false → Reached net m no_answer)
      → Reached net m (if b then yes_answer else no_answer)
  if-Reached true yes_answer no_answer h k = h refl
  if-Reached false yes_answer no_answer h k = k refl

  pub with_body-Reached :
      {A : Type 0} (server : Server) (body : Result DecodeError A) (next : A → Answer)
      → Leads net m server.memory
      → ((a : A) → Reached net m (next a))
      → Reached net m (with_body server body next)
  unfolding with_body Reached
  with_body-Reached server (err invalid_content_type) next h f = h
  with_body-Reached server (err invalid_json) next h f = h
  with_body-Reached server (ok a) next h f = f a

  pub only_method-Reached :
      (server : Server) (request : Request) (method : String) (next : Answer)
      → Leads net m server.memory
      → Reached net m next
      → Reached net m (only_method server request method next)
  unfolding only_method Reached
  only_method-Reached server request method next h f = if-Reached _ _ _ (λ e. h) (λ e. f)

  pub audit-Leads :
      (server : Server) (request : Request)
      (actor_type actor_id action target_type target_id : String) (details : Dict String)
      → Leads net m server.memory
      → Leads net m
          (audit server request actor_type actor_id action target_type target_id details).memory
  unfolding audit
  audit-Leads server request actor_type actor_id action target_type target_id details h =
      elim (Option-cases request.audit_id) [
        | inl e ↦ rw e h
        | inr (id, e) ↦ rw e (after h (audited server.memory _))
      ]

  -- A refusal for each of the store's errors that leaves the server as it was.
  pub errors-Reached :
      (refused : StoreError → Answer)
      → Reached net m (refused not_found)
      → Reached net m (refused conflict)
      → Reached net m (refused bootstrap_completed)
      → Reached net m (refused token_invalid)
      → Reached net m (refused last_administrator)
      → (problem : StoreError) → Reached net m (refused problem)
  errors-Reached refused a b c d e not_found = a
  errors-Reached refused a b c d e conflict = b
  errors-Reached refused a b c d e bootstrap_completed = c
  errors-Reached refused a b c d e token_invalid = d
  errors-Reached refused a b c d e last_administrator = e

  pub with_user-Reached :
      (env : Environment) (server : Server) (request : Request) (role : String)
      (next : User → Answer)
      → Leads net m server.memory
      → ((session : Session) (user : User)
          → require_user env.token_hash server.memory (session_token request) request.now role
            ≡ ok (session, user)
          → Reached net m (next user))
      → Reached net m (with_user env server request role next)
  unfolding with_user on_access Reached
  with_user-Reached env server request role next h f =
      elim (Result-cases
        (require_user env.token_hash server.memory (session_token request) request.now role)) [
          | inl (authentication_required, e) ↦ rw e h
          | inl (invalid_session, e) ↦ rw e h
          | inl (permission_denied, e) ↦ rw e h
          | inr ((session, user), e) ↦ rw e (f session user e)
        ]
