-- ===== src/Control/Api.antt =====
-- The requests that NewServer of internal/control/server.go routes to its handlers, and any history
-- of them. A call is the handler that a request's path leads to, with its decoded body or query.
pub mod Denied
pub mod Steps
pub mod Refines
pub mod Accounts
pub mod Clashes
use portflow.Prelude.{String, List, [], ◌∷◌, Option, none, some, Result}
use portflow.Domain.{Net}
use portflow.Store.{new_memory}
use portflow.Store.{Memory, role_admin}
use portflow.Control.Rules.{ForwardRuleInput}
use portflow.Control.Http.{Request, Environment, Fresh, Server, Answer, DecodeError}
use portflow.Control.Login.{Credentials, LoginInput, setup_admin, setup_status, login, logout, me}
use portflow.Control.Mfa.{MfaInput, mfa_setup, mfa_enable, mfa_disable}
use portflow.Control.Users.{UserInput, UserUpdateInput, users, user}
use portflow.Control.Enroll.{TokenInput, EnrollInput, enrollment_tokens, enroll, agent_config}
use portflow.Control.Heartbeat.{HeartbeatInput, agent_heartbeat}
use portflow.Control.Forwarding.{forward_rules, forward_rule}
use portflow.Control.Fleet.{
  Parameter, nodes, dashboard_summary, traffic_history, audit_events, agent_logs,
  active_connections,
}

abbrev pub Body : Type 0 → Type 0
Body A = Result DecodeError A

pub data Call : Type 0 where
  setup_status_call logout_call me_call agent_config_call nodes_call dashboard_call
        connections_call :
      Call
  setup_admin_call : Body Credentials → Call
  login_call : Body LoginInput → Call
  mfa_setup_call mfa_enable_call mfa_disable_call : Body MfaInput → Call
  users_call : Body UserInput → Call
  user_call : Body UserUpdateInput → Call
  enrollment_tokens_call : Body TokenInput → Call
  enroll_call : Body EnrollInput → Call
  heartbeat_call : Body HeartbeatInput → Call
  forward_rules_call forward_rule_call : Body ForwardRuleInput → Call
  traffic_call : Parameter → Call
  audit_events_call : Parameter → Parameter → Call
  agent_logs_call : String → String → Parameter → Parameter → Call

unfoldable pub handle : Net → Environment → Server → Request → Fresh → Call → Answer
handle net env server request fresh setup_status_call = setup_status server request
handle net env server request fresh logout_call = logout env server request
handle net env server request fresh me_call = me env server request
handle net env server request fresh agent_config_call = agent_config env server request
handle net env server request fresh nodes_call = nodes env server request
handle net env server request fresh dashboard_call = dashboard_summary env server request
handle net env server request fresh connections_call = active_connections env server request
handle net env server request fresh (setup_admin_call body) =
    setup_admin env server request fresh body
handle net env server request fresh (login_call body) = login env server request fresh body
handle net env server request fresh (mfa_setup_call body) = mfa_setup env server request fresh body
handle net env server request fresh (mfa_enable_call body) =
    mfa_enable env server request fresh body
handle net env server request fresh (mfa_disable_call body) = mfa_disable env server request body
handle net env server request fresh (users_call body) = users env server request fresh body
handle net env server request fresh (user_call body) = user env server request body
handle net env server request fresh (enrollment_tokens_call body) =
    enrollment_tokens env server request fresh body
handle net env server request fresh (enroll_call body) = enroll env server request fresh body
handle net env server request fresh (heartbeat_call body) =
    agent_heartbeat net env server request body
handle net env server request fresh (forward_rules_call body) =
    forward_rules net env server request fresh body
handle net env server request fresh (forward_rule_call body) =
    forward_rule net env server request fresh body
handle net env server request fresh (traffic_call hours) = traffic_history env server request hours
handle net env server request fresh (audit_events_call limit before) =
    audit_events env server request limit before
handle net env server request fresh (agent_logs_call node level limit before) =
    agent_logs env server request node level limit before

-- A server on a new memory store.
abbrev pub new_server : Server
new_server = record { memory = new_memory; login_attempts = [] }

-- The server after each request in turn, whatever each is given afresh.
unfoldable pub serve : Net → Environment → Server → List (Request × Fresh × Call) → Server
unfolding handle
serve net env server [] = server
serve net env server ((request, fresh, call) ∷ calls) =
    serve net env (handle net env server request fresh call).1 calls
