-- ===== src/Control/Api/Refines/Mfa.antt =====
-- The handlers mfaSetup, mfaEnable and mfaDisable of internal/control/server.go, as operations of
-- the store.
use portflow.Prelude.{
  ◌==◌, ◌&&◌, not, trim_space, String, ◌≡◌, Bool, some, Result, Result-cases, inl, inr, List,
}
use portflow.Dict.{lookup}
use portflow.Domain.{Net}
use portflow.Store.{Memory, User}
use portflow.Store.Users.{consume_recovery_code, set_user_mfa, consumes, sets_mfa, account_step}
use portflow.Auth.{recovery_code_hash}
use portflow.Control.Http.{
  Request, Environment, Fresh, Server, Answer, DecodeError, Payload, with_memory, session_token,
}
use portflow.Control.Login.{code_fits}
use portflow.Control.Mfa.{
  MfaInput, mfa_setup, mfa_enable, mfa_disable, with_password, change_mfa, disable_mfa,
}
use portflow.Control.Api.Refines.Sessions.{asker_account}
use portflow.Control.Login.Factors.{consumed_account}
use portflow.Control.Api.Steps.{
  Leads, stays, after, account_change, Reached, Leads-Reached, on_option-Reached, on_result-Reached,
  if-Reached, with_body-Reached, only_method-Reached, audit-Leads, with_user-Reached,
}

module _ (net : Net) (env : Environment) (server : Server) (request : Request) where
  -- A further change of an account that is there.
  change_mfa-Reached :
      (m : Memory) (checked : Server) (user stored : User) (enabled : Bool) (secret : String)
      (hashes : List String) (action : String) (payload : Payload) (id : String)
      → Leads net m checked.memory
      → lookup id checked.memory.users ≡ some stored
      → Reached net m (change_mfa checked request user enabled secret hashes action payload)
  unfolding change_mfa account_step
  change_mfa-Reached m checked user stored enabled secret hashes action payload id reached found =
      on_result-Reached net m (set_user_mfa checked.memory user.id enabled secret hashes).0 _ _
        (λ problem. Leads-Reached net m _ reached)
        λ updated e.
          let changed : Leads net m
              (account_step checked.memory (sets_mfa user.id enabled secret hashes)) =
            after reached (
              account_change checked.memory (sets_mfa user.id enabled secret hashes) id stored
                found) in
          Leads-Reached net m _ (audit-Leads net m _ request _ _ _ _ _ _ changed)

  -- What comes behind the session, the body and the password.
  with_password-Reached :
      (body : Result DecodeError MfaInput) (next : User → MfaInput → Answer)
      → ((id : String) (user : User) (input : MfaInput)
          → lookup id server.memory.users ≡ some user
          → Reached net server.memory (next user input))
      → Reached net server.memory (with_password env server request body next)
  unfolding with_password
  with_password-Reached body next h =
      only_method-Reached net server.memory server request "POST" _ stays (
        with_user-Reached net server.memory env server request "" _ stays λ session user e.
          with_body-Reached net server.memory server body _ stays λ input.
            if-Reached net server.memory
              (not (env.check_password user.password_hash input.password)) _ _
              (λ f. Leads-Reached net server.memory _ stays)
              (λ f. h session.user_id user input (
                (asker_account env server.memory (session_token request) request.now "" session user
                  e).account)))

  pub mfa_setup-Reached :
      (fresh : Fresh) (body : Result DecodeError MfaInput)
      → Reached net server.memory (mfa_setup env server request fresh body)
  unfolding mfa_setup
  mfa_setup-Reached fresh body = with_password-Reached body _ λ id user input found.
      if-Reached net server.memory user.mfa_enabled _ _
        (λ e. Leads-Reached net server.memory _ stays)
        λ e.
          on_option-Reached net server.memory fresh.totp_secret _ _
            (Leads-Reached net server.memory _ stays)
            λ secret f.
              on_option-Reached net server.memory fresh.encrypted _ _
                (Leads-Reached net server.memory _ stays)
                λ encrypted g.
                  change_mfa-Reached server.memory server user user _ _ _ _ _ id stays found

  pub mfa_enable-Reached :
      (fresh : Fresh) (body : Result DecodeError MfaInput)
      → Reached net server.memory (mfa_enable env server request fresh body)
  unfolding mfa_enable
  mfa_enable-Reached fresh body = with_password-Reached body _ λ id user input found.
      if-Reached net server.memory (user.mfa_secret == "") _ _
        (λ e. Leads-Reached net server.memory _ stays)
        λ e.
          if-Reached net server.memory (not (code_fits env user input.code request.now)) _ _
            (λ f. Leads-Reached net server.memory _ stays)
            λ f.
              on_option-Reached net server.memory fresh.recovery_codes _ _
                (Leads-Reached net server.memory _ stays)
                λ codes g.
                  change_mfa-Reached server.memory server user user _ _ _ _ _ id stays found

  disable_mfa-Reached :
      (m : Memory) (checked : Server) (user stored : User) (valid : Bool) (id : String)
      → Leads net m checked.memory
      → lookup id checked.memory.users ≡ some stored
      → Reached net m (disable_mfa checked request user valid)
  disable_mfa-Reached m checked user stored valid id reached found =
      if-Reached net m (not valid) _ _ (λ e. Leads-Reached net m _ reached)
        λ e. change_mfa-Reached m checked user stored _ _ _ _ _ id reached found

  pub mfa_disable-Reached :
      (body : Result DecodeError MfaInput)
      → Reached net server.memory (mfa_disable env server request body)
  unfolding mfa_disable account_step
  mfa_disable-Reached body = with_password-Reached body _ λ id user input found.
      let hash = recovery_code_hash env.token_hash input.recovery_code in
      let m = server.memory in
      let consumed = with_memory server (consume_recovery_code m user.id hash).1 in
      let took : Leads net m consumed.memory =
        after stays (account_change m (consumes user.id hash) id user found) in
      let left = consumed_account m user.id hash id user found in
      if-Reached net m (user.mfa_enabled && not (trim_space input.code == "")) _ _
        (λ e. disable_mfa-Reached m server user user _ id stays found)
        λ e.
          if-Reached net m (user.mfa_enabled && not (trim_space input.recovery_code == "")) _ _
            (λ f. elim (Result-cases (consume_recovery_code m user.id hash).0) [
              | inl (problem, g) ↦ rw g (Leads-Reached net m _ took)
              | inr (valid, g) ↦
                  rw g (disable_mfa-Reached m consumed user left.0 valid id took left.1)
            ])
            λ f. disable_mfa-Reached m server user user _ id stays found
