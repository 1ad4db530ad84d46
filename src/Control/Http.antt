-- ===== src/Control/Http.antt =====
-- What the handlers of internal/control/server.go share: requests, responses, the server's state,
-- decoding, the tests of who asks, and the audit trail. A body that decodeJSON accepts is its input;
-- a response is its status with its data or its error's code. What comes from outside (random
-- identifiers and tokens, ciphers, digests) is an argument. A handler runs without another's steps
-- between its own, at one time.
use portflow.Prelude.{
  ℕ, String, Bool, true, false, Option, none, some, List, ◌==◌, ◌||◌, not, eqb, ltb, if◌then◌else◌,
  on_option, Result, ok, err, trim_space, byte_length, all_chars, after_prefix,
}
use portflow.Dict.{Dict}
use portflow.Domain.{Node, ForwardRule}
use portflow.Store.{
  Memory, AuditEvent, Session, User, ActiveConnection, AgentLog, AgentConfig, TrafficPoint,
}
use portflow.Store.Telemetry.{record_audit}
use portflow.Auth.Totp.{Hmac}
use portflow.Control.Throttle.{LoginAttempt}
use portflow.Control.Access.{
  require_user, AccessError, authentication_required, invalid_session, permission_denied,
}

pub record Request : Type 0 where
  pub method : String
  pub path : String
  pub cookie : Option String
  pub authorization : String
  pub node_header : String
  pub remote_ip : String
  pub now : ℕ
  pub audit_id : Option String

-- Digests, ciphers and password hashes, and the life of a session.
pub record Environment : Type 0 where
  pub token_hash : String → String
  pub check_password : String → String → Bool
  pub bcrypt : String → Option String
  pub decrypt : String → Option String
  pub hmac : Hmac
  pub session_ttl : ℕ

-- What auth.NewID, NewToken, NewTOTPSecret, Encrypt and NewRecoveryCodes answer in one request.
pub record Fresh : Type 0 where
  pub id : Option String
  pub token : Option String
  pub totp_secret : Option String
  pub encrypted : Option String
  pub recovery_codes : Option (List String)

pub record Server : Type 0 where
  pub memory : Memory
  pub login_attempts : Dict LoginAttempt

-- publicUser
pub record PublicUser : Type 0 where
  pub id : String
  pub username : String
  pub role : String
  pub disabled : Bool
  pub mfa_enabled : Bool
  pub created_at : ℕ

unfoldable pub public_user : User → PublicUser
public_user user = record {
  id = user.id;
  username = user.username;
  role = user.role;
  disabled = user.disabled;
  mfa_enabled = user.mfa_enabled;
  created_at = user.created_at;
}

pub record Summary : Type 0 where
  pub online : ℕ
  pub offline : ℕ
  pub healthy : ℕ
  pub degraded : ℕ
  pub stopped : ℕ
  pub connections : ℕ
  pub upload_bytes : ℕ
  pub download_bytes : ℕ

-- The data of the successful responses.
pub data Payload : Type 0 where
  no_content mfa_required : Payload
  mfa_state setup_required : Bool → Payload
  mfa_secret : String → Payload
  recovery_codes : List String → Payload
  one_user : PublicUser → Payload
  user_list : List PublicUser → Payload
  new_session : String → PublicUser → ℕ → Payload
  new_enrollment : String → String → ℕ → Payload
  new_agent : Node → String → Payload
  heartbeat_answer : ℕ → ℕ → Bool → ℕ → Payload
  agent_rules : AgentConfig → Payload
  node_list : List Node → Payload
  one_rule : ForwardRule → Payload
  rule_list : List ForwardRule → Payload
  connection_list : List ActiveConnection → Payload
  summary : Summary → Payload
  traffic : ℕ → ℕ → ℕ → List TrafficPoint → Payload
  audit_list : List AuditEvent → Option ℕ → Payload
  log_list : List AgentLog → Option ℕ → Payload

pub data Response : Type 0 where
  reply : ℕ → Payload → Response
  refusal : ℕ → String → Response

-- A handler's answer and the state that it leaves.
abbrev pub Answer : Type 0
Answer = Response × Server

-- decodeJSON
pub data DecodeError : Type 0 where
  invalid_content_type invalid_json : DecodeError

abbrev pub refuse : Server → ℕ → String → Answer
refuse server status code = (refusal status code, server)

abbrev pub decode_refusal : Server → DecodeError → Answer
decode_refusal server invalid_content_type = refuse server 415 "invalid_content_type"
decode_refusal server invalid_json = refuse server 400 "invalid_json"

unfoldable pub with_body : {A : Type 0} → Server → Result DecodeError A → (A → Answer) → Answer
with_body server (err problem) next = decode_refusal server problem
with_body server (ok body) next = next body

abbrev pub method_not_allowed : Server → Answer
method_not_allowed server = refuse server 405 "method_not_allowed"

-- if request.Method != method { methodNotAllowed(...); return }
unfoldable pub only_method : Server → Request → String → Answer → Answer
only_method server request method next =
    if not (request.method == method) then method_not_allowed server else next

abbrev pub bearer : String
bearer = "Bearer "

-- sessionToken
unfoldable pub session_token : Request → String
unfolding trim_space after_prefix
session_token request =
    on_option request.cookie (on_option (after_prefix bearer request.authorization) "" trim_space)
      λ value. value

abbrev pub access_refusal : Server → AccessError → Answer
access_refusal server authentication_required = refuse server 401 "authentication_required"
access_refusal server invalid_session = refuse server 401 "invalid_session"
access_refusal server permission_denied = refuse server 403 "permission_denied"

-- Who asks, by requireUser.
abbrev pub asker : Environment → Server → Request → String → Result AccessError (Session × User)
asker env server request role =
    require_user env.token_hash server.memory (session_token request) request.now role

unfoldable pub on_access : Server → Result AccessError (Session × User) → (User → Answer) → Answer
on_access server (err problem) next = access_refusal server problem
on_access server (ok (session, user)) next = next user

unfoldable pub with_user : Environment → Server → Request → String → (User → Answer) → Answer
unfolding on_access
with_user env server request role next = on_access server (asker env server request role) next

-- The audit trail; an event without an identifier is dropped.
unfoldable pub audit :
    Server → Request → String → String → String → String → String → Dict String → Server
audit server request actor_type actor_id action target_type target_id details =
    on_option request.audit_id server λ id. record server {
      memory =
          (record_audit server.memory (record {
            id = id;
            actor_type = actor_type;
            actor_id = actor_id;
            action = action;
            target_type = target_type;
            target_id = target_id;
            remote_ip = request.remote_ip;
            details = details;
            created_at = request.now;
          })).1;
    }

abbrev pub user_audit : Server → Request → String → String → String → String → Dict String → Server
user_audit server request actor_id = audit server request "user" actor_id

-- The identifier behind a path's prefix; none where it is empty, has a slash or is too long.
unfoldable pub path_id : String → String → Option String
unfolding after_prefix all_chars byte_length
path_id prefix path =
    let id = on_option (after_prefix prefix path) path λ rest. rest in
    if id == "" || not (all_chars (λ c. not (eqb c b'/')) id) || ltb 128 (byte_length id)
    then none
    else some id

abbrev pub bool_text : Bool → String
bool_text true = "true"
bool_text false = "false"

-- The server after a store call.
abbrev pub with_memory : Server → Memory → Server
with_memory server memory = record server { memory = memory }
