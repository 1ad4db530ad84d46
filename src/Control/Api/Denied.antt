-- ===== src/Control/Api/Denied.antt =====
-- The handlers of internal/control/server.go and a request without the right session.
use portflow.Prelude.{
  String, Bool, true, false, not, ◌||◌, ◌≡◌, ◌⊎◌, inl, inr, refl, Option, none, some, err, arith,
  Bool-cases, ◌==◌,
}
use portflow.Domain.{Net}
use portflow.Store.{role_admin}
use portflow.Control.Access.{AccessError}
use portflow.Control.Http.{
  Request, Environment, Fresh, Server, Answer, access_refusal, asker, with_user, on_access,
  only_method, method_not_allowed,
}
use portflow.Control.Mfa.{mfa_setup, mfa_enable, mfa_disable, with_password}
use portflow.Control.Login.{me}
use portflow.Control.Users.{users, user}
use portflow.Control.Enroll.{enrollment_tokens}
use portflow.Control.Forwarding.{forward_rules, forward_rule}
use portflow.Control.Fleet.{
  nodes, dashboard_summary, traffic_history, audit_events, agent_logs, active_connections,
  read_only,
}
use portflow.Control.Api.{
  Call, handle, setup_status_call, logout_call, me_call, agent_config_call, nodes_call,
  dashboard_call, connections_call, setup_admin_call, login_call, mfa_setup_call, mfa_enable_call,
  mfa_disable_call, users_call, user_call, enrollment_tokens_call, enroll_call, heartbeat_call,
  forward_rules_call, forward_rule_call, traffic_call, audit_events_call, agent_logs_call,
}

-- The role that a call asks for: none for those that need no session, an empty one for any account.
unfoldable pub required_role : Call → Option String
required_role setup_status_call = none
required_role logout_call = none
required_role me_call = some ""
required_role agent_config_call = none
required_role nodes_call = some ""
required_role dashboard_call = some ""
required_role connections_call = some ""
required_role (setup_admin_call body) = none
required_role (login_call body) = none
required_role (mfa_setup_call body) = some ""
required_role (mfa_enable_call body) = some ""
required_role (mfa_disable_call body) = some ""
required_role (users_call body) = some role_admin
required_role (user_call body) = some role_admin
required_role (enrollment_tokens_call body) = some role_admin
required_role (enroll_call body) = none
required_role (heartbeat_call body) = none
required_role (forward_rules_call body) = some ""
required_role (forward_rule_call body) = some ""
required_role (traffic_call hours) = some ""
required_role (audit_events_call limit before) = some role_admin
required_role (agent_logs_call node level limit before) = some role_admin

-- The handler looks at the method before the session, and it is none of its own.
unfoldable pub turned_away : Call → String → Bool
turned_away setup_status_call method = not (method == "GET")
turned_away logout_call method = not (method == "POST")
turned_away me_call method = not (method == "GET")
turned_away agent_config_call method = not (method == "GET")
turned_away nodes_call method = not (method == "GET")
turned_away dashboard_call method = not (method == "GET")
turned_away connections_call method = not (method == "GET")
turned_away (setup_admin_call body) method = not (method == "POST")
turned_away (login_call body) method = not (method == "POST")
turned_away (mfa_setup_call body) method = not (method == "POST")
turned_away (mfa_enable_call body) method = not (method == "POST")
turned_away (mfa_disable_call body) method = not (method == "POST")
turned_away (users_call body) method = false
turned_away (user_call body) method = not (method == "PUT" || method == "DELETE")
turned_away (enrollment_tokens_call body) method = not (method == "POST")
turned_away (enroll_call body) method = not (method == "POST")
turned_away (heartbeat_call body) method = not (method == "POST")
turned_away (forward_rules_call body) method = false
turned_away (forward_rule_call body) method = false
turned_away (traffic_call hours) method = not (method == "GET")
turned_away (audit_events_call limit before) method = not (method == "GET")
turned_away (agent_logs_call node level limit before) method = not (method == "GET")

-- A refusal of the method where it is turned away, and else of the session; the server stays as it
-- was.
pub IsDenied : Server → AccessError → Bool → Answer → Type 0
IsDenied server problem away answer =
    ((away ≡ false) × (answer ≡ access_refusal server problem))
    ⊎ ((away ≡ true) × (answer ≡ method_not_allowed server))

module _ (env : Environment) (server : Server) (request : Request) (problem : AccessError) where
  with_user_denied :
      (role : String) (next : _)
      → asker env server request role ≡ err problem
      → with_user env server request role next ≡ access_refusal server problem
  unfolding with_user on_access
  with_user_denied role next e = rw e refl

  only_method-IsDenied :
      (method : String) (next : Answer)
      → next ≡ access_refusal server problem
      → IsDenied server problem
          (not (request.method == method))
          (only_method server request method next)
  unfolding only_method IsDenied
  only_method-IsDenied method next e = elim (Bool-cases (request.method == method)) [
    | inl m ↦ rw m (inl (refl, e))
    | inr m ↦ rw m (inr (refl, refl))
  ]

  behind_method :
      (method role : String) (next : _)
      → asker env server request role ≡ err problem
      → IsDenied server problem
          (not (request.method == method))
          (only_method server request method (with_user env server request role next))
  behind_method method role next e = only_method-IsDenied method _ (with_user_denied role next e)

-- A request to any handler that asks for a session, where requireUser turns it down for the role
-- that the handler asks for, leaves the server as it was, whatever its body. It is answered 405 where
-- the handler looks at the method first and does not have it, and else 401 or 403 as requireUser
-- says.
pub handle-IsDenied :
    (net : Net) (env : Environment) (server : Server) (request : Request) (fresh : Fresh)
    (call : Call) (role : String) (problem : AccessError)
    → required_role call ≡ some role
    → asker env server request role ≡ err problem
    → IsDenied server problem
        (turned_away call request.method)
        (handle net env server request fresh call)
unfolding handle required_role turned_away IsDenied me mfa_setup mfa_enable mfa_disable
    with_password users user enrollment_tokens forward_rules forward_rule nodes dashboard_summary
    traffic_history audit_events agent_logs active_connections read_only
handle-IsDenied net env server request fresh setup_status_call role problem r e =
    absurd (ground arith)
handle-IsDenied net env server request fresh logout_call role problem r e = absurd (ground arith)
handle-IsDenied net env server request fresh agent_config_call role problem r e =
    absurd (ground arith)
handle-IsDenied net env server request fresh (setup_admin_call body) role problem r e =
    absurd (ground arith)
handle-IsDenied net env server request fresh (login_call body) role problem r e =
    absurd (ground arith)
handle-IsDenied net env server request fresh (enroll_call body) role problem r e =
    absurd (ground arith)
handle-IsDenied net env server request fresh (heartbeat_call body) role problem r e =
    absurd (ground arith)
handle-IsDenied net env server request fresh me_call role problem r e =
    behind_method env server request problem "GET" "" _ (ground arith)
handle-IsDenied net env server request fresh nodes_call role problem r e =
    behind_method env server request problem "GET" "" _ (ground arith)
handle-IsDenied net env server request fresh dashboard_call role problem r e =
    behind_method env server request problem "GET" "" _ (ground arith)
handle-IsDenied net env server request fresh connections_call role problem r e =
    behind_method env server request problem "GET" "" _ (ground arith)
handle-IsDenied net env server request fresh (mfa_setup_call body) role problem r e =
    behind_method env server request problem "POST" "" _ (ground arith)
handle-IsDenied net env server request fresh (mfa_enable_call body) role problem r e =
    behind_method env server request problem "POST" "" _ (ground arith)
handle-IsDenied net env server request fresh (mfa_disable_call body) role problem r e =
    behind_method env server request problem "POST" "" _ (ground arith)
handle-IsDenied net env server request fresh (enrollment_tokens_call body) role problem r e =
    behind_method env server request problem "POST" role_admin _ (ground arith)
handle-IsDenied net env server request fresh (traffic_call hours) role problem r e =
    behind_method env server request problem "GET" "" _ (ground arith)
handle-IsDenied net env server request fresh (audit_events_call limit before) role problem r e =
    behind_method env server request problem "GET" role_admin _ (ground arith)
handle-IsDenied net env server request fresh (agent_logs_call node level limit before) role problem
      r e =
    behind_method env server request problem "GET" role_admin _ (ground arith)
handle-IsDenied net env server request fresh (users_call body) role problem r e =
    inl (refl, with_user_denied env server request problem role_admin _ (ground arith))
handle-IsDenied net env server request fresh (forward_rules_call body) role problem r e =
    inl (refl, with_user_denied env server request problem "" _ (ground arith))
handle-IsDenied net env server request fresh (forward_rule_call body) role problem r e =
    inl (refl, with_user_denied env server request problem "" _ (ground arith))
handle-IsDenied net env server request fresh (user_call body) role problem r e =
    let turned_down = with_user_denied env server request problem role_admin in
    elim (Bool-cases (request.method == "PUT")) [
      | inl put ↦ rw put (inl (refl, turned_down _ (ground arith)))
      | inr other ↦ elim (Bool-cases (request.method == "DELETE")) [
        | inl delete ↦ rw (other, delete) (inl (refl, turned_down _ (ground arith)))
        | inr unknown ↦ rw (other, unknown) (inr (refl, refl))
      ]
    ]
