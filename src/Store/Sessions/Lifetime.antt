-- ===== src/Store/Sessions/Lifetime.antt =====
-- Which tokens authenticate, and when they stop to.
use portflow.Prelude.{
  ℕ, ◌≤◌, ◌<◌, String, ◌≡◌, ◌↔◌, ◌≢◌, false, some, arith, eq_iff, eq_refl, Option-cases, ok, err,
  inl, inr,
}
use portflow.Dict.{lookup, insert}
use portflow.Dict.Laws.{lookup-insert, lookup-remove}
use portflow.Store.{Memory, Session, User, not_found}
use portflow.Store.Sessions.{
  create_session, session_user_by_token_hash, delete_session_by_token_hash,
}

-- What it takes for a token to authenticate as a user at a time.
pub record Authenticates (m : Memory) (token : String) (now : ℕ) (s : Session) (u : User)
    : Type 0 where
  pub stored : lookup token m.sessions ≡ some s
  pub unexpired : now < s.expires_at
  pub account : lookup s.user_id m.users ≡ some u
  pub active : u.disabled ≡ false

authenticated :
    (m : Memory) (token : String) (now : ℕ) (s : Session) (u : User)
    → session_user_by_token_hash m token now ≡ ok (s, u)
    → Authenticates m token now s u
unfolding session_user_by_token_hash
authenticated m token now s u h = elim (Option-cases (lookup token m.sessions)) [
  | inl e ↦ ground (arith, e)
  | inr (t, e) ↦ elim (Option-cases (lookup t.user_id m.users)) [
    | inl f ↦ ground (arith, e, f)
    | inr (w, f) ↦ ground (arith, e, f)
  ]
]

-- A token authenticates exactly when its session is stored and has not expired, and the session's
-- account exists and is not disabled.
pub session_user-ok_iff :
    (m : Memory) (token : String) (now : ℕ) (s : Session) (u : User)
    → (session_user_by_token_hash m token now ≡ ok (s, u)) ↔ Authenticates m token now s u
unfolding session_user_by_token_hash
session_user-ok_iff m token now s u =
    (authenticated m token now s u, λ a. ground (arith, a.stored, a.account))

-- A created session authenticates its account, if that is active, until it expires. Deleting it
-- ends that at every time. Neither changes the answer for any other token.
pub session_lifetime :
    (m : Memory) (s : Session) (u : User) (now : ℕ)
    → lookup s.user_id m.users ≡ some u
    → u.disabled ≡ false
    → now < s.expires_at
    → let created = (create_session m s).1 in
      let deleted = (delete_session_by_token_hash created s.token_hash).1 in
      (session_user_by_token_hash created s.token_hash now ≡ ok (s, u))
      × ((later : ℕ)
          → s.expires_at ≤ later
          → session_user_by_token_hash created s.token_hash later ≡ err not_found)
      × ((at : ℕ) → session_user_by_token_hash deleted s.token_hash at ≡ err not_found)
      × ((token : String) (at : ℕ)
          → token ≢ s.token_hash
          → (session_user_by_token_hash created token at ≡ session_user_by_token_hash m token at)
            × (session_user_by_token_hash deleted token at ≡ session_user_by_token_hash m token at))
unfolding session_user_by_token_hash create_session delete_session_by_token_hash
session_lifetime m s u now account active fresh =
    let self = lookup-insert s.token_hash s.token_hash s m.sessions in
    let gone = lookup-remove s.token_hash s.token_hash (insert s.token_hash s m.sessions) in
    let same = eq_refl s.token_hash in
    (
      ground (arith, self, same, account),
      λ later h. ground (arith, self, same),
      λ at. ground (arith, gone, same),
      λ token at h.
          let other = lookup-insert s.token_hash token s m.sessions in
          let left = lookup-remove s.token_hash token (insert s.token_hash s m.sessions) in
          let apart = eq_iff s.token_hash token in
          (ground (arith, other, apart), ground (arith, other, left, apart)),
    )
