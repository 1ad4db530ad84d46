-- ===== src/Store/Sessions.antt =====
-- The session operations of internal/store/memory.go. A session is kept under the hash of its
-- token.
pub mod Lifetime
use portflow.Prelude.{
  ℕ, String, Bool, ◌==◌, ltb, not, ◌&&◌, ◌||◌, if◌then◌else◌, on_option, Result, ok, err,
}
use portflow.Dict.{lookup, insert, remove}
use portflow.Store.{Memory, Reply, StoreError, Session, User, not_found}

unfoldable pub create_session : Memory → Session → Reply Unit
create_session memory session =
    (ok tt, record memory { sessions = insert session.token_hash session memory.sessions })

unfoldable pub session_user_by_token_hash : Memory → String → ℕ → Result StoreError (Session × User)
session_user_by_token_hash memory token_hash now =
    on_option (lookup token_hash memory.sessions) (err not_found) λ session.
      if not (ltb now session.expires_at)
      then err not_found
      else on_option (lookup session.user_id memory.users) (err not_found)
          λ user. if user.disabled then err not_found else ok (session, user)

unfoldable pub delete_session_by_token_hash : Memory → String → Reply Unit
delete_session_by_token_hash memory token_hash =
    (ok tt, record memory { sessions = remove token_hash memory.sessions })
