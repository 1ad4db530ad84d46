-- ===== src/Control/Login/Opens.antt =====
-- The two ends of a login, internal/control/server.go: a session that is new, or sessions as before.
use portflow.Prelude.{
  ◌+◌, String, ◌≡◌, ◌⊎◌, inl, inr, refl, Bool, true, false, some, ◌∙◌, ap, sym, subst, Option-cases,
}
use portflow.Dict.{lookup, insert, Dict}
use portflow.Store.{Memory, Session, User}
use portflow.Store.Users.{consume_recovery_code, without_code}
use portflow.Store.Sessions.{create_session}
use portflow.Store.Telemetry.{record_audit}
use portflow.Control.Http.{
  Request, Environment, Fresh, Server, Answer, Response, reply, audit, public_user, new_session,
}
use portflow.Control.Login.{open_session, failed_login}

-- The session of this token, and of this user, is the one thing that is new among the sessions, and
-- the user is still there and active.
pub record Opens (env : Environment) (request : Request) (token : String) (user : User)
    (before : Memory) (answer : Answer) : Type 0 where
  pub answered :
      answer.0 ≡ reply 200 (new_session token (public_user user) (request.now + env.session_ttl))
  pub session : Session
  pub stored : answer.1.memory.sessions ≡ insert (env.token_hash token) session before.sessions
  pub owner : session.user_id ≡ user.id
  pub until : session.expires_at ≡ request.now + env.session_ttl
  pub account : User
  pub there : lookup user.id answer.1.memory.users ≡ some account
  pub active : account.disabled ≡ false
  pub shown : public_user account ≡ public_user user

unfoldable pub is_new_session : Response → Bool
is_new_session (reply status (new_session token user until)) = true
is_new_session other = false

-- No session is opened or ended.
pub record Refuses (before : Memory) (answer : Answer) : Type 0 where
  pub answered : is_new_session answer.0 ≡ false
  pub unchanged : answer.1.memory.sessions ≡ before.sessions

pub audit-same :
    (server : Server) (request : Request)
    (actor_type actor_id action target_type target_id : String) (details : Dict String)
    → let after =
        (audit server request actor_type actor_id action target_type target_id details).memory in
      (after.sessions ≡ server.memory.sessions) × (after.users ≡ server.memory.users)
unfolding audit record_audit
audit-same server request actor_type actor_id action target_type target_id details =
    elim (Option-cases request.audit_id) [
      | inl e ↦ rw e (refl, refl)
      | inr (id, e) ↦ rw e (refl, refl)
    ]

-- What behind the two factors can still go wrong is a token or an identifier that is missing.
open_session_outcome :
    (env : Environment) (server : Server) (request : Request) (fresh : Fresh) (key : String)
    (user account : User)
    → lookup user.id server.memory.users ≡ some account
    → account.disabled ≡ false
    → public_user account ≡ public_user user
    → Refuses server.memory (open_session env server request fresh key user)
      ⊎ ((token : String) × (fresh.token ≡ some token)
          × Opens env request token user server.memory
              (open_session env server request fresh key user)
          × ((open_session env server request fresh key user).1.memory.users ≡ server.memory.users))
unfolding open_session create_session is_new_session
open_session_outcome env server request fresh key user account there active shown =
    elim (Option-cases fresh.token) [
      | inl e ↦ rw e (inl (record { answered = refl; unchanged = refl }))
      | inr (token, e) ↦ elim (Option-cases fresh.id) [
        | inl f ↦ rw (e, f) (inl (record { answered = refl; unchanged = refl }))
        | inr (id, f) ↦
            rw (e, f)
              (inr (
                token,
                refl,
                record {
                  answered = refl;
                  session = _;
                  stored = (audit-same _ request _ _ _ _ _ _).0;
                  owner = refl;
                  until = refl;
                  account = account;
                  there = rw ((audit-same _ request _ _ _ _ _ _).1) there;
                  active = active;
                  shown = shown;
                },
                (audit-same _ request _ _ _ _ _ _).1,
              ))
      ]
    ]

-- The two ends that a login has, with what the second one proves of the user and of the accounts
-- that it leaves.
unfoldable pub Ends :
    Environment → Request → Fresh → Memory → (User → Dict User → Type 0) → Answer → Type 0
Ends env request fresh before Proved answer =
    Refuses before answer
    ⊎ ((user : User) × (token : String) × (fresh.token ≡ some token)
        × Proved user answer.1.memory.users
        × Opens env request token user before answer)

pub consume_recovery_code-sessions :
    (m : Memory) (id hash : String) → (consume_recovery_code m id hash).1.sessions ≡ m.sessions
unfolding consume_recovery_code
consume_recovery_code-sessions m id hash = elim (Option-cases (lookup id m.users)) [
  | inl e ↦ rw e refl
  | inr (user, e) ↦ elim (Option-cases (without_code hash user.mfa_recovery_hashes)) [
    | inl n ↦ rw (e, n) refl
    | inr (kept, n) ↦ rw (e, n) refl
  ]
]

-- Only the sessions of the memory before count.
pub Ends-before :
    (env : Environment) (request : Request) (fresh : Fresh) (before other : Memory)
    (Proved : User → Dict User → Type 0) (answer : Answer)
    → before.sessions ≡ other.sessions
    → Ends env request fresh before Proved answer
    → Ends env request fresh other Proved answer
unfolding Ends
Ends-before env request fresh before other Proved answer e (inl refused) =
    inl (record { answered = refused.answered; unchanged = refused.unchanged ∙ e })
Ends-before env request fresh before other Proved answer e (inr (user, token, t, proved, opened)) =
    inr (
      user,
      token,
      t,
      proved,
      record {
        answered = opened.answered;
        session = opened.session;
        stored = opened.stored ∙ ap (insert (env.token_hash token) opened.session) e;
        owner = opened.owner;
        until = opened.until;
        account = opened.account;
        there = opened.there;
        active = opened.active;
        shown = opened.shown;
      },
    )

pub Ends-map :
    (env : Environment) (request : Request) (fresh : Fresh) (before : Memory)
    (P Q : User → Dict User → Type 0) (answer : Answer)
    → ((user : User) (users : Dict User) → P user users → Q user users)
    → Ends env request fresh before P answer
    → Ends env request fresh before Q answer
unfolding Ends
Ends-map env request fresh before P Q answer f (inl refused) = inl refused
Ends-map env request fresh before P Q answer f (inr (user, token, t, proved, opened)) =
    inr (user, token, t, f user answer.1.memory.users proved, opened)

module _ (env : Environment) (request : Request) (fresh : Fresh) (key username : String) where
  pub opened-Ends :
      (server : Server) (user account : User) (Proved : User → Dict User → Type 0)
      → Proved user server.memory.users
      → lookup user.id server.memory.users ≡ some account
      → account.disabled ≡ false
      → public_user account ≡ public_user user
      → Ends env request fresh server.memory Proved (open_session env server request fresh key user)
  unfolding Ends
  opened-Ends server user account Proved proved there active shown =
      elim (open_session_outcome env server request fresh key user account there active shown) [
        | inl refused ↦ inl refused
        | inr (token, t, opened, same) ↦
            inr (user, token, t, subst (Proved user) (sym same) proved, opened)
      ]

  pub failed-Ends :
      (server : Server) (response : Response) (action target : String)
      (Proved : User → Dict User → Type 0)
      → is_new_session response ≡ false
      → Ends env request fresh server.memory Proved
          (response, failed_login server request key username action target)
  unfolding Ends
  failed-Ends server response action target Proved e =
      inl (record { answered = e; unchanged = (audit-same _ request _ _ _ _ _ _).0 })
