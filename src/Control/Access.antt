-- ===== src/Control/Access.antt =====
-- Who a request is from, and how the nodes' statuses are shown, internal/control/server.go.
use portflow.Prelude.{
  ℕ, ◌+◌, ◌*◌, ◌≡◌, ◌≢◌, ◌↔◌, ◌⊎◌, String, List, ◌==◌, ◌&&◌, not, eq_iff, ltb, map, if◌then◌else◌,
  Result, ok, err, on_result, Result-cases, inl, inr, arith,
}
use portflow.Domain.{Node, node_online, node_offline}
use portflow.Store.{Memory, Session, User, second}
use portflow.Store.Sessions.{session_user_by_token_hash}

pub data AccessError : Type 0 where
  authentication_required invalid_session permission_denied : AccessError

-- requireUser: `token_hash` is auth.TokenHash, a digest of the token; an empty role asks for none.
unfoldable pub require_user :
    (String → String) → Memory → String → ℕ → String → Result AccessError (Session × User)
require_user token_hash memory token now role =
    if token == ""
    then err authentication_required
    else on_result (session_user_by_token_hash memory (token_hash token) now)
        (λ problem. err invalid_session)
        λ found.
          if not (role == "") && not (found.1.role == role) then err permission_denied else ok found

abbrev pub node_offline_threshold : ℕ
node_offline_threshold = 45 * second

abbrev pub effective_status : ℕ → Node → Node
effective_status now node =
    if node.status == node_online && ltb (node.last_heartbeat + node_offline_threshold) now
    then record node { status = node_offline }
    else node

-- effectiveNodeStatuses
unfoldable pub effective_node_statuses : List Node → ℕ → List Node
effective_node_statuses nodes now = map (effective_status now) nodes

-- A request is let in, as the session and the account that its token stands for, exactly when it
-- has a token, the store accepts that token's hash at the time, and the account has the role that
-- is asked for, if one is.
pub require_user-ok_iff :
    (token_hash : String → String) (memory : Memory) (token : String) (now : ℕ) (role : String)
    (session : Session) (user : User)
    → (require_user token_hash memory token now role ≡ ok (session, user)) ↔ (
        (token ≢ "")
        × (session_user_by_token_hash memory (token_hash token) now ≡ ok (session, user))
        × ((role ≡ "") ⊎ (user.role ≡ role)))
unfolding require_user
require_user-ok_iff token_hash memory token now role session user =
    elim (Result-cases (session_user_by_token_hash memory (token_hash token) now)) [
      | inl (problem, bad) ↦ rw bad (ground (arith, eq_iff token ""))
      | inr ((s, u), good) ↦ rw good (
          ground
            (arith, eq_iff token "", eq_iff role "", eq_iff u.role role, eq_iff user.role role))
    ]
