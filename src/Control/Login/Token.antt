-- ===== src/Control/Login/Token.antt =====
-- The token that the handler login of internal/control/server.go hands out, until logout.
use portflow.Prelude.{
  ℕ, ◌+◌, ◌<◌, String, ◌≡◌, ◌≢◌, inl, inr, refl, false, none, some, Result, ok, ◌==◌, ◌∙◌, ap, sym,
  subst, arith, eq_iff, eq_refl, Result-cases, Bool-cases,
}
use portflow.Dict.{lookup, remove}
use portflow.Dict.Laws.{lookup-insert, lookup-remove}
use portflow.Store.{Memory, Session, User}
use portflow.Store.Users.Index.{IsIndexed}
use portflow.Store.Sessions.{session_user_by_token_hash, delete_session_by_token_hash}
use portflow.Store.Sessions.Lifetime.{session_user-ok_iff}
use portflow.Control.Access.{require_user, require_user-ok_iff}
use portflow.Control.Http.{
  Request, Environment, Fresh, Server, Answer, Response, PublicUser, DecodeError, reply, refusal,
  with_user, on_access, session_token, only_method, one_user, new_session, public_user,
}
use portflow.Control.Login.{LoginInput, login, me, logout}
use portflow.Control.Login.Opens.{Opens, Ends, is_new_session, audit-same}
use portflow.Control.Login.Outcome.{login_outcome}

-- A GET with this token for a cookie.
pub record Shows (token : String) (request : Request) : Type 0 where
  pub asks : request.method ≡ "GET"
  pub carries : request.cookie ≡ some token

session_token-cookie :
    (request : Request) (token : String)
    → request.cookie ≡ some token
    → session_token request ≡ token
unfolding session_token
session_token-cookie request token e = rw e refl

-- What me answers, by what requireUser does.
me-ok :
    (env : Environment) (server : Server) (request : Request) (token : String) (session : Session)
    (user : User)
    → Shows token request
    → require_user env.token_hash server.memory token request.now "" ≡ ok (session, user)
    → me env server request ≡ (reply 200 (one_user (public_user user)), server)
unfolding me only_method with_user on_access
me-ok env server request token session user shows e =
    let cookie = session_token-cookie request token shows.carries in rw (cookie, e, shows.asks) refl

me-unknown :
    (env : Environment) (server : Server) (request : Request) (token : String)
    → Shows token request
    → token ≢ ""
    → lookup (env.token_hash token) server.memory.sessions ≡ none
    → me env server request ≡ (refusal 401 "invalid_session", server)
unfolding me only_method with_user on_access require_user session_user_by_token_hash
me-unknown env server request token shows named gone =
    let cookie = session_token-cookie request token shows.carries in
    rw (cookie, gone, shows.asks) (ground (arith, eq_iff token ""))

-- The session that opened authenticates its account, as the answer shows it.
opened-require_user :
    (env : Environment) (request later : Request) (token : String) (user : User) (before : Memory)
    (answer : Answer)
    → (opened : Opens env request token user before answer) → token ≢ ""
    → later.now < request.now + env.session_ttl
    → require_user env.token_hash answer.1.memory token later.now ""
      ≡ ok (opened.session, opened.account)
opened-require_user env request later token user before answer opened named early =
    let hash = env.token_hash token in
    let found = lookup-insert hash hash opened.session before.sessions in
    (require_user-ok_iff env.token_hash answer.1.memory token later.now "" opened.session
        opened.account).1
      (
        named,
        (session_user-ok_iff answer.1.memory hash later.now opened.session opened.account).1
            (record {
              stored = rw (opened.stored, found, eq_refl hash) refl;
              unexpired = rw (opened.until) early;
              account = rw (opened.owner) opened.there;
              active = opened.active;
            }),
        inl refl,
      )

shown_of : Response → PublicUser → PublicUser
shown_of (reply status (new_session token shown until)) other = shown
shown_of response other = other

token_of : Response → String
token_of (reply status (new_session token shown until)) = token
token_of response = ""

until_of : Response → ℕ
until_of (reply status (new_session token shown until)) = until
until_of response = 0

-- Two answers with sessions that are the same have the same parts.
session_of-reply :
    (t token : String) (u user : PublicUser) (n until : ℕ)
    → reply 200 (new_session t u n) ≡ reply 200 (new_session token user until)
    → (t ≡ token) × (u ≡ user) × (n ≡ until)
unfolding shown_of token_of until_of
session_of-reply t token u user n until e =
    (ap token_of e, ap (λ r. shown_of r user) e, ap until_of e)

-- A POST to logout with a token for a cookie removes its session.
logout-removes :
    (env : Environment) (server : Server) (request : Request) (token : String)
    → request.method ≡ "POST"
    → request.cookie ≡ some token
    → token ≢ ""
    → (logout env server request).1.memory.sessions
      ≡ remove (env.token_hash token) server.memory.sessions
unfolding logout only_method delete_session_by_token_hash
logout-removes env server request token post cookie named =
    let carried = session_token-cookie request token cookie in
    elim (Result-cases
      (session_user_by_token_hash server.memory (env.token_hash token) request.now)) [
        | inl (problem, e) ↦ rw (carried, e, post) (ground (arith, eq_iff token ""))
        | inr (found, e) ↦
            rw (carried, e, post)
              (elim (Bool-cases (found.1.id == "")) [
                | inl f ↦ rw f (ground (arith, eq_iff token ""))
                | inr f ↦ rw f (
                    let filled : (token == "") ≡ false = ground (arith, eq_iff token "") in
                    rw filled ((audit-same _ _ _ _ _ _ _ _).0))
              ])
      ]

-- Where the two account maps agree and a login hands out a token, a request that carries it to me
-- before the session ends is answered with the account that the login showed. After a logout with
-- the token, me answers 401 to it at every time.
pub login-me-logout :
    (env : Environment) (server : Server) (request : Request) (fresh : Fresh)
    (body : Result DecodeError LoginInput) (token : String) (shown : PublicUser) (until : ℕ)
    (later leaving : Request)
    → IsIndexed server.memory
    → (login env server request fresh body).0 ≡ reply 200 (new_session token shown until)
    → token ≢ ""
    → Shows token later
    → later.now < until
    → leaving.method ≡ "POST"
    → leaving.cookie ≡ some token
    → let entered = (login env server request fresh body).1 in
      let left = (logout env entered leaving).1 in
      (me env entered later ≡ (reply 200 (one_user shown), entered))
      × (me env left later ≡ (refusal 401 "invalid_session", left))
unfolding Ends is_new_session
login-me-logout env server request fresh body token shown until later leaving v e named shows early
      post cookie =
    let entered = (login env server request fresh body).1 in
    let left = (logout env entered leaving).1 in
    let gone =
      lookup-remove (env.token_hash token) (env.token_hash token) entered.memory.sessions in
    (
      elim (login_outcome env server request fresh body v) [
        | inl refused ↦ absurd (ground (arith, refused.answered, ap is_new_session e))
        | inr (user, other, t, logs, opened) ↦
            let parts =
              session_of-reply other token (public_user user) shown _ until
                (sym opened.answered ∙ e) in
            let same =
              subst
                (λ t. Opens env request t user server.memory (login env server request fresh body))
                parts.0 opened in
            me-ok env entered later token same.session same.account shows (
              opened-require_user env request later token user server.memory _ same named
                (rw (parts.2) early))
            ∙ ap (λ u. (reply 200 (one_user u), entered)) (same.shown ∙ parts.1)
      ],
      me-unknown env left later token shows named (
          rw (logout-removes env entered leaving token post cookie named)
            (ground (arith, gone, eq_refl (env.token_hash token)))),
    )
