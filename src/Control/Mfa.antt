-- ===== src/Control/Mfa.antt =====
-- The handlers mfaSetup, mfaEnable and mfaDisable of internal/control/server.go.
use portflow.Prelude.{
  String, Bool, true, false, List, [], ◌==◌, ◌&&◌, not, map, if◌then◌else◌, on_option, on_result,
  Result, ok, err, trim_space,
}
use portflow.Store.{User, StoreError}
use portflow.Store.Users.{set_user_mfa, consume_recovery_code}
use portflow.Auth.{recovery_code_hash}
use portflow.Control.Login.{code_fits}
use portflow.Control.Http.{
  Request, Environment, Fresh, Server, Answer, Payload, DecodeError, reply, refuse, with_body,
  only_method, with_user, user_audit, with_memory, mfa_secret, recovery_codes, mfa_state,
}

pub record MfaInput : Type 0 where
  pub password : String
  pub code : String
  pub recovery_code : String

-- SetUserMFA, the audit trail and the answer.
unfoldable pub change_mfa :
    Server → Request → User → Bool → String → List String → String → Payload → Answer
change_mfa server request user enabled secret hashes action payload =
    let (answer, memory) = set_user_mfa server.memory user.id enabled secret hashes in
    on_result answer (λ problem. refuse server 500 "storage_error")
      λ updated. (
        reply 200 payload,
        user_audit (with_memory server memory) request user.id action "user" user.id [],
      )

-- The method, the session, the body and the password, in this order.
unfoldable pub with_password :
    Environment
    → Server
    → Request
    → Result DecodeError MfaInput
    → (User → MfaInput → Answer)
    → Answer
unfolding only_method with_user with_body
with_password env server request body next = only_method server request "POST" (
    with_user env server request "" λ user. with_body server body λ input.
      if not (env.check_password user.password_hash input.password)
      then refuse server 401 "invalid_password"
      else next user input)

unfoldable pub mfa_setup :
    Environment → Server → Request → Fresh → Result DecodeError MfaInput → Answer
unfolding with_password change_mfa
mfa_setup env server request fresh body = with_password env server request body λ user input.
    if user.mfa_enabled
    then refuse server 409 "mfa_already_enabled"
    else on_option fresh.totp_secret (refuse server 500 "internal_error") λ secret.
      on_option fresh.encrypted (refuse server 500 "internal_error") λ encrypted.
        change_mfa server request user false encrypted [] "auth.mfa_setup" (mfa_secret secret)

unfoldable pub mfa_enable :
    Environment → Server → Request → Fresh → Result DecodeError MfaInput → Answer
unfolding with_password change_mfa
mfa_enable env server request fresh body = with_password env server request body λ user input.
    if user.mfa_secret == ""
    then refuse server 409 "mfa_setup_required"
    else if not (code_fits env user input.code request.now)
    then refuse server 401 "invalid_mfa_code"
    else on_option fresh.recovery_codes (refuse server 500 "internal_error") λ codes.
      change_mfa server request user true user.mfa_secret
        (map (recovery_code_hash env.token_hash) codes) "auth.mfa_enable" (recovery_codes codes)

-- Behind the second factor.
abbrev pub disable_mfa : Server → Request → User → Bool → Answer
disable_mfa server request user valid =
    if not valid
    then refuse server 401 "invalid_mfa_code"
    else change_mfa server request user false "" [] "auth.mfa_disable" (mfa_state false)

-- A recovery code that the store's call consumed or not.
abbrev pub disable_by_code : Server → Request → User → Result StoreError Bool → Answer
disable_by_code server request user (err problem) = refuse server 500 "storage_error"
disable_by_code server request user (ok valid) = disable_mfa server request user valid

unfoldable pub mfa_disable : Environment → Server → Request → Result DecodeError MfaInput → Answer
unfolding with_password change_mfa
mfa_disable env server request body = with_password env server request body λ user input.
    let consumed =
      consume_recovery_code server.memory user.id
        (recovery_code_hash env.token_hash input.recovery_code) in
    if user.mfa_enabled && not (trim_space input.code == "")
    then disable_mfa server request user (code_fits env user input.code request.now)
    else if user.mfa_enabled && not (trim_space input.recovery_code == "")
    then disable_by_code (with_memory server consumed.1) request user consumed.0
    else disable_mfa server request user (not user.mfa_enabled)
