-- ===== src/Control/Login/Outcome.antt =====
-- When the handler login of internal/control/server.go opens a session, and for whom.
use portflow.Prelude.{
  if-both, String, ◌≡◌, ◌⊎◌, inl, inr, refl, true, false, Result, ok, err, ◌==◌, not, ◌∙◌,
  trim_space, Option-cases, Result-cases, Bool-cases,
}
use portflow.Dict.{Dict}
use portflow.Store.{Memory, User}
use portflow.Store.Users.{consume_recovery_code}
use portflow.Store.Users.Index.{IsIndexed}
use portflow.Auth.{normalize_username, recovery_code_hash}
use portflow.Control.Throttle.{login_rate_limited}
use portflow.Control.Http.{
  Request, Environment, Fresh, Server, DecodeError, with_memory, only_method, with_body,
  invalid_content_type, invalid_json, refuse,
}
use portflow.Control.Login.{
  LoginInput, login, authenticate, credentials, second_factor, by_recovery_code, mfa_failed,
  code_fits, attempt_key,
}
use portflow.Control.Login.Factors.{Presents, credentials-Presents, consumed_account}
use portflow.Control.Login.Opens.{
  Ends, Ends-before, Ends-map, opened-Ends, failed-Ends, is_new_session,
  consume_recovery_code-sessions,
}

-- The second factor: not asked for, a code that fits, or a recovery code. In the last case the
-- accounts that the login leaves are those that ConsumeRecoveryCode writes; else they are as before.
pub SecondFactor : Environment → Memory → Request → LoginInput → User → Dict User → Type 0
SecondFactor env m request input user left =
    let consumed =
      consume_recovery_code m user.id (recovery_code_hash env.token_hash input.recovery_code) in
    ((user.mfa_enabled ≡ false) × (left ≡ m.users))
    ⊎ ((code_fits env user input.code request.now ≡ true) × (left ≡ m.users))
    ⊎ ((consumed.0 ≡ ok true) × (left ≡ consumed.1.users))

-- Both factors.
pub record Proves (env : Environment) (m : Memory) (request : Request) (username : String)
    (input : LoginInput) (user : User) (left : Dict User) : Type 0 where
  pub presents : Presents env m username input.password user
  pub second : SecondFactor env m request input user left

module _ (env : Environment) (request : Request) (fresh : Fresh) (key username : String)
    (server : Server) (input : LoginInput) where
  Proved : User → Dict User → Type 0
  Proved = Proves env server.memory request username input

  by_recovery_code-Ends :
      (user : User)
      → Presents env server.memory username input.password user
      → let consumed =
          consume_recovery_code server.memory user.id
            (recovery_code_hash env.token_hash input.recovery_code) in
        Ends env request fresh server.memory Proved (
          by_recovery_code env
            (with_memory server consumed.1)
            request
            fresh
            key
            username
            user
            consumed.0)
  unfolding by_recovery_code mfa_failed is_new_session Ends SecondFactor Proved
  by_recovery_code-Ends user who =
      let hash = recovery_code_hash env.token_hash input.recovery_code in
      let consumed = with_memory server (consume_recovery_code server.memory user.id hash).1 in
      let sessions = consume_recovery_code-sessions server.memory user.id hash in
      let (account, there, active, shown) =
        consumed_account server.memory user.id hash user.id user who.stored in
      elim (Result-cases (consume_recovery_code server.memory user.id hash).0) [
        | inl (problem, e) ↦ rw e (inl (record { answered = refl; unchanged = sessions }))
        | inr (true, e) ↦ rw e (
            Ends-before env request fresh consumed.memory server.memory Proved _ sessions (
              opened-Ends env request fresh key username consumed user account Proved
                (record { presents = who; second = inr (inr (e, refl)) }) there
                (active ∙ who.active) shown))
        | inr (false, e) ↦ rw e (
            Ends-before env request fresh consumed.memory server.memory Proved _ sessions (
              failed-Ends env request fresh key username consumed _ "auth.mfa_failed" user.id Proved
                refl))
      ]

  second_factor-Ends :
      (user : User)
      → Presents env server.memory username input.password user
      → Ends env request fresh server.memory Proved
          (second_factor env server request fresh key username input user)
  unfolding second_factor mfa_failed is_new_session Ends SecondFactor Proved
  second_factor-Ends user who = elim (Bool-cases (trim_space input.code == "")) [
    | inr typed ↦ elim (Bool-cases (code_fits env user input.code request.now)) [
      | inl fits ↦
          rw (typed, fits)
            (opened-Ends env request fresh key username server user user Proved
              (record { presents = who; second = inr (inl (fits, refl)) }) who.stored who.active
              refl)
      | inr wrong ↦
          rw (typed, wrong)
            (failed-Ends env request fresh key username server _ "auth.mfa_failed" user.id Proved
              refl)
    ]
    | inl e ↦ elim (Bool-cases (trim_space input.recovery_code == "")) [
      | inl nothing ↦ rw (e, nothing) (inl (record { answered = refl; unchanged = refl }))
      | inr typed ↦ rw (e, typed) (by_recovery_code-Ends user who)
    ]
  ]

  authenticate-Ends :
      IsIndexed server.memory
      → Ends env request fresh server.memory Proved
          (authenticate env server request fresh key username input)
  unfolding authenticate is_new_session SecondFactor Proved
  authenticate-Ends v =
      elim (Option-cases (credentials env server.memory username input.password)) [
        | inl e ↦
            rw e (
              failed-Ends env request fresh key username server _ "auth.login_failed" "" Proved
                refl)
        | inr (user, e) ↦
            let who = credentials-Presents env server.memory username input.password user v e in
            rw e (
              if-both (Ends env request fresh server.memory Proved) user.mfa_enabled _ _
                (λ f. second_factor-Ends user who)
                (λ f.
                  opened-Ends env request fresh key username server user user Proved
                    (record { presents = who; second = inl (f, refl) }) who.stored who.active refl))
      ]

-- What a login that opens a session was, and proved.
pub record LogsIn (env : Environment) (server : Server) (request : Request)
    (body : Result DecodeError LoginInput) (user : User) (left : Dict User) : Type 0 where
  pub input : LoginInput
  pub username : String
  pub decoded : body ≡ ok input
  pub named : normalize_username input.username ≡ ok username
  pub unthrottled :
      (login_rate_limited server.login_attempts (attempt_key request username) request.now).0
      ≡ false
  pub proves : Proves env server.memory request username input user left

-- Where the two account maps agree, a login either leaves the sessions as they were and hands out
-- no token, or it hands out a fresh token, whose session, until the session's life from now, is the
-- only new one. In that case the login was not throttled, and the session's account was stored
-- under the name of the request, not disabled, with the password of the request and, where it has a
-- second factor, with a code that fits or a recovery code that ConsumeRecoveryCode takes. The
-- accounts that the login leaves are as before, but for a recovery code, which is consumed in them.
pub login_outcome :
    (env : Environment) (server : Server) (request : Request) (fresh : Fresh)
    (body : Result DecodeError LoginInput)
    → IsIndexed server.memory
    → Ends env request fresh server.memory
        (LogsIn env server request body)
        (login env server request fresh body)
unfolding login only_method with_body Ends is_new_session Proved
login_outcome env server request fresh (err invalid_content_type) v =
    if-both
      (Ends env request fresh server.memory (LogsIn env server request (err invalid_content_type)))
      (not (request.method == "POST")) _ _
      (λ other. inl (record { answered = refl; unchanged = refl }))
      (λ post. inl (record { answered = refl; unchanged = refl }))
login_outcome env server request fresh (err invalid_json) v =
    if-both (Ends env request fresh server.memory (LogsIn env server request (err invalid_json)))
      (not (request.method == "POST")) _ _
      (λ other. inl (record { answered = refl; unchanged = refl }))
      (λ post. inl (record { answered = refl; unchanged = refl }))
login_outcome env server request fresh (ok input) v =
    let LoggedIn = LogsIn env server request (ok input) in
    if-both (Ends env request fresh server.memory LoggedIn) (not (request.method == "POST")) _ _
      (λ other. inl (record { answered = refl; unchanged = refl }))
      λ post. elim (Result-cases (normalize_username input.username)) [
        | inl (problem, e) ↦ rw e (inl (record { answered = refl; unchanged = refl }))
        | inr (username, e) ↦
            let key = attempt_key request username in
            let attempts = login_rate_limited server.login_attempts key request.now in
            let checked = record server { login_attempts = attempts.1 } in
            rw e (
              if-both (Ends env request fresh server.memory LoggedIn) attempts.0
                (refuse checked 429 "login_rate_limited")
                (authenticate env checked request fresh key username input)
                (λ limited. inl (record { answered = refl; unchanged = refl }))
                (λ free.
                  Ends-map env request fresh server.memory
                    (Proves env server.memory request username input) LoggedIn _
                    (λ user left proves. record {
                      input = input;
                      username = username;
                      decoded = refl;
                      named = e;
                      unthrottled = free;
                      proves = proves;
                    })
                    (authenticate-Ends env request fresh key username checked input v)))
      ]
