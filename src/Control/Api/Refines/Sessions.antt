-- ===== src/Control/Api/Refines/Sessions.antt =====
-- The handlers of internal/control/server.go that set up the first administrator, log in and out
-- and change the second factor, as operations of the store.
use portflow.Prelude.{
  ◌==◌, ◌∙◌, not, trim_space, Bool-cases, ℕ, String, ◌≡◌, refl, true, false, some, Result, ok,
  Result-cases, inl, inr,
}
use portflow.Dict.{lookup}
use portflow.Domain.{Net}
use portflow.Store.{Memory, User, Session}
use portflow.Store.Users.{
  consume_recovery_code, consumes, create_initial_user, account_step, is_active_admin,
  create_initial_user,
}
use portflow.Store.Users.Index.{IsIndexed}
use portflow.Store.Sessions.{session_user_by_token_hash}
use portflow.Store.Sessions.Lifetime.{Authenticates, session_user-ok_iff}
use portflow.Control.Login.Factors.{credentials-Presents, consumed_account}
use portflow.Control.Throttle.{login_rate_limited}
use portflow.Control.Access.{require_user, require_user-ok_iff}
use portflow.Auth.{recovery_code_hash, normalize_username, hash_password}
use portflow.Control.Http.{
  Request, Environment, Fresh, Server, Response, DecodeError, with_memory, session_token,
}
use portflow.Control.Login.{
  Credentials, LoginInput, setup_admin, failed_login, bootstrap, setup_status, login, authenticate,
  credentials, second_factor, by_recovery_code, attempt_key, open_session, mfa_failed, logout, me,
  code_fits,
}
use portflow.Control.Api.Steps.{
  Leads, stays, after, first_account, account_change, session_opened, session_closed, Reached,
  Leads-Reached, on_option-Reached, on_result-Reached, if-Reached, with_body-Reached,
  only_method-Reached, audit-Leads, errors-Reached, with_user-Reached,
}

-- The account that a request is from.
pub asker_account :
    (env : Environment) (m : Memory) (token : String) (now : ℕ) (role : String) (session : Session)
    (user : User)
    → require_user env.token_hash m token now role ≡ ok (session, user)
    → Authenticates m (env.token_hash token) now session user
asker_account env m token now role session user e =
    let let_in = (require_user-ok_iff env.token_hash m token now role session user).0 e in
    (session_user-ok_iff m (env.token_hash token) now session user).0 let_in.1

module _ (net : Net) (env : Environment) (server : Server) (request : Request) where
  -- An answer that leaves the server as it was.
  pub same : (response : Response) → Reached net server.memory (response, server)
  same response = Leads-Reached net server.memory (response, server) stays

  bootstrap-Reached :
      (user : User)
      → is_active_admin user ≡ true
      → Reached net server.memory (bootstrap server request user)
  unfolding bootstrap
  bootstrap-Reached user admin =
      on_result-Reached net server.memory (create_initial_user server.memory user).0 _ _
        (errors-Reached net server.memory _ (same _) (same _) (same _) (same _) (same _))
        (λ done e. Leads-Reached net server.memory _ (
          audit-Leads net server.memory _ request _ _ _ _ _ _
            (after stays (first_account server.memory user admin))))

  pub setup_admin-Reached :
      (fresh : Fresh) (body : Result DecodeError Credentials)
      → Reached net server.memory (setup_admin env server request fresh body)
  unfolding setup_admin
  setup_admin-Reached fresh body =
      only_method-Reached net server.memory server request "POST" _ stays (
        with_body-Reached net server.memory server body _ stays λ input.
          on_result-Reached net server.memory (normalize_username input.username) _ _
            (λ problem. same _)
            λ username e.
              on_result-Reached net server.memory (hash_password env.bcrypt input.password) _ _
                (λ problem. same _)
                λ password_hash f.
                  on_option-Reached net server.memory fresh.id _ _ (same _)
                    λ id g. bootstrap-Reached _ refl)

  pub setup_status-Reached : Reached net server.memory (setup_status server request)
  unfolding setup_status
  setup_status-Reached = only_method-Reached net server.memory server request "GET" _ stays (same _)

  pub me-Reached : Reached net server.memory (me env server request)
  unfolding me
  me-Reached =
      only_method-Reached net server.memory server request "GET" _ stays
        (with_user-Reached net server.memory env server request "" _ stays λ s u e. same _)

  pub logout-Reached : Reached net server.memory (logout env server request)
  unfolding logout
  logout-Reached = only_method-Reached net server.memory server request "POST" _ stays (
      if-Reached net server.memory (session_token request == "") _ _ (λ e. same _)
        λ e.
          on_result-Reached net server.memory
            (session_user_by_token_hash server.memory (env.token_hash (session_token request))
              request.now)
            _ _
            (λ problem.
              Leads-Reached net server.memory _ (after stays (session_closed server.memory _)))
            λ found f. elim (Bool-cases (found.1.id == "")) [
              | inl b ↦
                  rw b (
                    Leads-Reached net server.memory _
                      (after stays (session_closed server.memory _)))
              | inr b ↦ rw b (
                  Leads-Reached net server.memory _ (
                    audit-Leads net server.memory _ request _ _ _ _ _ _
                      (after stays (session_closed server.memory _))))
            ])

  module _ (m : Memory) (checked : Server) (reached : Leads net m checked.memory) where
    open_session-Reached :
        (fresh : Fresh) (key : String) (user stored : User)
        → lookup user.id checked.memory.users ≡ some stored
        → stored.disabled ≡ false
        → Reached net m (open_session env checked request fresh key user)
    unfolding open_session
    open_session-Reached fresh key user stored found active =
        on_option-Reached net m fresh.token _ _ (Leads-Reached net m _ reached) λ token e.
          on_option-Reached net m fresh.id _ _ (Leads-Reached net m _ reached) λ id f.
            Leads-Reached net m _ (
              audit-Leads net m _ request _ _ _ _ _ _
                (after reached (session_opened checked.memory _ stored found active)))

    failed_login-Leads :
        (key username action target_id : String)
        → Leads net m (failed_login checked request key username action target_id).memory
    failed_login-Leads key username action target_id =
        audit-Leads net m _ request _ _ _ _ _ _ reached

    mfa_failed-Reached :
        (key username : String) (user : User)
        → Reached net m (mfa_failed checked request key username user)
    unfolding mfa_failed
    mfa_failed-Reached key username user =
        Leads-Reached net m _ (failed_login-Leads key username _ _)

  module _ (m : Memory) (checked : Server) (reached : Leads net m checked.memory) where
    second_factor-Reached :
        (fresh : Fresh) (key username : String) (input : LoginInput) (user : User)
        → lookup user.id checked.memory.users ≡ some user
        → user.disabled ≡ false
        → Reached net m (second_factor env checked request fresh key username input user)
    unfolding second_factor by_recovery_code account_step
    second_factor-Reached fresh key username input user found active =
        let hash = recovery_code_hash env.token_hash input.recovery_code in
        let consumed = with_memory checked (consume_recovery_code checked.memory user.id hash).1 in
        let took : Leads net m consumed.memory =
          after reached
            (account_change checked.memory (consumes user.id hash) user.id user found) in
        let left = consumed_account checked.memory user.id hash user.id user found in
        if-Reached net m (not (trim_space input.code == "")) _ _
          (λ e.
            if-Reached net m (code_fits env user input.code request.now) _ _
              (λ f. open_session-Reached m checked reached fresh key user user found active)
              (λ f. mfa_failed-Reached m checked reached key username user))
          (λ e.
            if-Reached net m (not (trim_space input.recovery_code == "")) _ _
              (λ f. elim (Result-cases (consume_recovery_code checked.memory user.id hash).0) [
                | inl (problem, g) ↦ rw g (Leads-Reached net m _ took)
                | inr (valid, g) ↦ rw g (
                    if-Reached net m valid _ _
                      (λ h.
                        open_session-Reached m consumed took fresh key user left.0 left.1
                          (left.2 ∙ active))
                      (λ h. mfa_failed-Reached m consumed took key username user))
              ])
              (λ f. Leads-Reached net m _ reached))

    authenticate-Reached :
        (fresh : Fresh) (key username : String) (input : LoginInput)
        → IsIndexed checked.memory
        → Reached net m (authenticate env checked request fresh key username input)
    unfolding authenticate
    authenticate-Reached fresh key username input v =
        on_option-Reached net m (credentials env checked.memory username input.password) _ _
          (Leads-Reached net m _ (failed_login-Leads m checked reached key username _ _))
          λ user e.
            let who = credentials-Presents env checked.memory username input.password user v e in
            if-Reached net m user.mfa_enabled _ _
              (λ f. second_factor-Reached fresh key username input user who.stored who.active)
              (λ f.
                open_session-Reached m checked reached fresh key user user who.stored who.active)

  pub login-Reached :
      (fresh : Fresh) (body : Result DecodeError LoginInput)
      → IsIndexed server.memory
      → Reached net server.memory (login env server request fresh body)
  unfolding login
  login-Reached fresh body v = only_method-Reached net server.memory server request "POST" _ stays (
      with_body-Reached net server.memory server body _ stays λ input.
        on_result-Reached net server.memory (normalize_username input.username) _ _
          (λ problem. same _)
          λ username e.
            let attempts =
              login_rate_limited server.login_attempts (attempt_key request username) request.now in
            if-Reached net server.memory attempts.0 _ _
              (λ f. Leads-Reached net server.memory _ stays)
              (λ f. authenticate-Reached server.memory _ stays fresh _ username input v))
