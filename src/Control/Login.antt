-- ===== src/Control/Login.antt =====
-- The handlers setupAdmin, setupStatus, login, logout and me of internal/control/server.go.
pub mod Factors
pub mod Opens
pub mod Outcome
pub mod Token
use portflow.Prelude.{
  ℕ, ◌+◌, String, Bool, false, Option, none, some, [], ◌∷◌, ◌==◌, ◌||◌, not, if◌then◌else◌,
  on_option, on_result, Result, ok, err, trim_space, str_append, eqb, length,
}
use portflow.Store.{
  Memory, StoreError, Session, User, role_admin, bootstrap_completed, not_found, conflict,
  token_invalid, last_administrator,
}
use portflow.Store.Users.{create_initial_user, user_by_username, consume_recovery_code, list_users}
use portflow.Store.Sessions.{
  create_session, session_user_by_token_hash, delete_session_by_token_hash,
}
use portflow.Auth.{normalize_username, hash_password, recovery_code_hash}
use portflow.Auth.Totp.{validate_totp}
use portflow.Control.Throttle.{login_rate_limited, record_login_failure, clear_login_failures}
use portflow.Control.Http.{
  Request, Environment, Fresh, Server, Answer, DecodeError, reply, refusal, refuse, with_body,
  only_method, with_user, audit, user_audit, public_user, session_token, one_user, setup_required,
  new_session, mfa_required, no_content, with_memory,
}

pub record Credentials : Type 0 where
  pub username : String
  pub password : String

pub record LoginInput : Type 0 where
  pub username : String
  pub password : String
  pub code : String
  pub recovery_code : String

-- A new account, without a second factor.
abbrev pub fresh_user : String → String → String → String → ℕ → User
fresh_user id username password_hash role now = record {
  id = id;
  username = username;
  password_hash = password_hash;
  role = role;
  disabled = false;
  mfa_enabled = false;
  mfa_secret = "";
  mfa_recovery_hashes = [];
  created_at = now;
}

abbrev pub bootstrap_refusal : Server → StoreError → Answer
bootstrap_refusal server bootstrap_completed = refuse server 409 "setup_completed"
bootstrap_refusal server not_found = refuse server 500 "storage_error"
bootstrap_refusal server conflict = refuse server 500 "storage_error"
bootstrap_refusal server last_administrator = refuse server 500 "storage_error"
bootstrap_refusal server token_invalid = refuse server 500 "storage_error"

-- CreateInitialUser and what follows.
unfoldable pub bootstrap : Server → Request → User → Answer
bootstrap server request user =
    let (answer, memory) = create_initial_user server.memory user in
    on_result answer (bootstrap_refusal server) λ done. (
      reply 201 (one_user (public_user user)),
      user_audit (with_memory server memory) request user.id "user.bootstrap" "user" user.id [],
    )

unfoldable pub setup_admin :
    Environment → Server → Request → Fresh → Result DecodeError Credentials → Answer
unfolding only_method with_body bootstrap
setup_admin env server request fresh body = only_method server request "POST" (
    with_body server body λ input.
      on_result (normalize_username input.username)
        (λ problem. refuse server 422 "invalid_username")
        λ username.
          on_result (hash_password env.bcrypt input.password)
            (λ problem. refuse server 422 "invalid_password")
            λ password_hash. on_option fresh.id (refuse server 500 "internal_error") λ id.
              bootstrap server request
                (fresh_user id username password_hash role_admin request.now))

unfoldable pub setup_status : Server → Request → Answer
unfolding only_method
setup_status server request =
    only_method server request "GET"
      (reply 200 (setup_required (eqb (length (list_users server.memory)) 0)), server)

-- The account that a name and a password give: found, not disabled, with this password.
unfoldable pub credentials : Environment → Memory → String → String → Option User
credentials env memory username password =
    on_result (user_by_username memory username) (λ problem. none)
      λ user.
        if user.disabled || not (env.check_password user.password_hash password)
        then none
        else some user

-- A failed password or second factor: it is counted and put into the audit trail.
abbrev pub failed_login : Server → Request → String → String → String → String → Server
failed_login server request key username action target_id =
    audit
      (record server {
        login_attempts = record_login_failure server.login_attempts key request.now;
      })
      request "anonymous" "" action "user" target_id (("username", username) ∷ [])

-- Behind both factors: a session and its cookie.
unfoldable pub open_session : Environment → Server → Request → Fresh → String → User → Answer
open_session env server request fresh key user =
    on_option fresh.token (refuse server 500 "internal_error") λ raw_token.
      on_option fresh.id (refuse server 500 "internal_error") λ session_id.
        let session : Session = record {
          id = session_id;
          user_id = user.id;
          token_hash = env.token_hash raw_token;
          expires_at = request.now + env.session_ttl;
          created_at = request.now;
        } in
        let opened = record server {
          memory = (create_session server.memory session).1;
          login_attempts = clear_login_failures server.login_attempts key;
        } in
        (
          reply 200 (new_session raw_token (public_user user) session.expires_at),
          user_audit opened request user.id "auth.login" "session" session_id [],
        )

unfoldable pub mfa_failed : Server → Request → String → String → User → Answer
mfa_failed server request key username user = (
  refusal 401 "invalid_mfa_code",
  failed_login server request key username "auth.mfa_failed" user.id,
)

-- A code of the authenticator. The secret must decrypt.
unfoldable pub code_fits : Environment → User → String → ℕ → Bool
code_fits env user code now =
    on_option (env.decrypt user.mfa_secret) false λ secret. validate_totp env.hmac secret code now

-- A recovery code that the store's call consumed or not.
unfoldable pub by_recovery_code :
    Environment
    → Server
    → Request
    → Fresh
    → String
    → String
    → User
    → Result StoreError Bool
    → Answer
unfolding open_session mfa_failed
by_recovery_code env server request fresh key username user (err problem) =
    refuse server 500 "storage_error"
by_recovery_code env server request fresh key username user (ok valid) =
    if valid
    then open_session env server request fresh key user
    else mfa_failed server request key username user

-- The second factor: a code, a recovery code, or the question for one.
unfoldable pub second_factor :
    Environment → Server → Request → Fresh → String → String → LoginInput → User → Answer
unfolding open_session mfa_failed code_fits by_recovery_code
second_factor env server request fresh key username input user =
    let consumed =
      consume_recovery_code server.memory user.id
        (recovery_code_hash env.token_hash input.recovery_code) in
    if not (trim_space input.code == "")
    then if code_fits env user input.code request.now
      then open_session env server request fresh key user
      else mfa_failed server request key username user
    else if not (trim_space input.recovery_code == "")
    then by_recovery_code env (with_memory server consumed.1) request fresh key username user
        consumed.0
    else (reply 202 mfa_required, server)

abbrev pub attempt_key : Request → String → String
attempt_key request username = str_append request.remote_ip (str_append "\0" username)

-- Behind the throttle.
unfoldable pub authenticate :
    Environment → Server → Request → Fresh → String → String → LoginInput → Answer
unfolding second_factor
authenticate env server request fresh key username input =
    on_option (credentials env server.memory username input.password)
      (
        refusal 401 "invalid_credentials",
        failed_login server request key username "auth.login_failed" "",
      )
      λ user.
        if user.mfa_enabled
        then second_factor env server request fresh key username input user
        else open_session env server request fresh key user

unfoldable pub login :
    Environment → Server → Request → Fresh → Result DecodeError LoginInput → Answer
unfolding only_method with_body authenticate
login env server request fresh body = only_method server request "POST" (
    with_body server body λ input.
      on_result (normalize_username input.username)
        (λ problem. refuse server 401 "invalid_credentials")
        λ username.
          let key = attempt_key request username in
          let (limited, attempts) = login_rate_limited server.login_attempts key request.now in
          let checked = record server { login_attempts = attempts } in
          if limited
          then refuse checked 429 "login_rate_limited"
          else authenticate env checked request fresh key username input)

unfoldable pub logout : Environment → Server → Request → Answer
unfolding only_method session_token
logout env server request = only_method server request "POST" (
    if session_token request == ""
    then (reply 204 no_content, server)
    else let hash = env.token_hash (session_token request) in
      let left = with_memory server (delete_session_by_token_hash server.memory hash).1 in
      on_result (session_user_by_token_hash server.memory hash request.now)
        (λ problem. (reply 204 no_content, left))
        λ found. (
          reply 204 no_content,
          if found.1.id == ""
              then left
              else user_audit left request found.1.id "auth.logout" "session" "" [],
        ))

unfoldable pub me : Environment → Server → Request → Answer
unfolding only_method with_user
me env server request =
    only_method server request "GET"
      (with_user env server request "" λ user. (reply 200 (one_user (public_user user)), server))
