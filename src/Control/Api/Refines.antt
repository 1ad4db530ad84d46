-- ===== src/Control/Api/Refines.antt =====
-- The handlers of internal/control/server.go as steps of the store. The children have the handlers by
-- theme.
pub mod Sessions
pub mod Mfa
pub mod Accounts
pub mod Agents
pub mod Forwarding
pub mod Reads
use portflow.Prelude.{String}
use portflow.Domain.{Net}
use portflow.Store.Users.Index.{IsIndexed}
use portflow.Control.Http.{Request, Environment, Fresh, Server}
use portflow.Control.Api.{
  Call, handle, setup_status_call, logout_call, me_call, agent_config_call, nodes_call,
  dashboard_call, connections_call, setup_admin_call, login_call, mfa_setup_call, mfa_enable_call,
  mfa_disable_call, users_call, user_call, enrollment_tokens_call, enroll_call, heartbeat_call,
  forward_rules_call, forward_rule_call, traffic_call, audit_events_call, agent_logs_call,
}
use portflow.Control.Api.Steps.{Leads, Reached}
use portflow.Control.Api.Refines.Sessions.{
  setup_admin-Reached, setup_status-Reached, me-Reached, logout-Reached, login-Reached,
}
use portflow.Control.Api.Refines.Mfa.{mfa_setup-Reached, mfa_enable-Reached, mfa_disable-Reached}
use portflow.Control.Api.Refines.Accounts.{users-Reached, user-Reached}
use portflow.Control.Api.Refines.Agents.{
  enrollment_tokens-Reached, enroll-Reached, agent_config-Reached, agent_heartbeat-Reached,
}
use portflow.Control.Api.Refines.Forwarding.{forward_rules-Reached, forward_rule-Reached}
use portflow.Control.Api.Refines.Reads.{
  nodes-Reached, dashboard_summary-Reached, active_connections-Reached, traffic_history-Reached,
  audit_events-Reached, agent_logs-Reached,
}

-- Where the two account maps agree, whatever a request is, the memory that it leaves is reached
-- from the one before by operations of the store, each under its condition: accounts are changed
-- only where there is one, but for a first administrator, a session is opened only for an account
-- that is stored and not disabled, and only valid rules are stored.
pub handle-Leads :
    (net : Net) (env : Environment) (server : Server) (request : Request) (fresh : Fresh)
    (call : Call)
    → IsIndexed server.memory
    → Leads net server.memory (handle net env server request fresh call).1.memory
unfolding handle Reached
handle-Leads net env server request fresh setup_status_call v =
    setup_status-Reached net env server request
handle-Leads net env server request fresh logout_call v = logout-Reached net env server request
handle-Leads net env server request fresh me_call v = me-Reached net env server request
handle-Leads net env server request fresh agent_config_call v =
    agent_config-Reached net env server request
handle-Leads net env server request fresh nodes_call v = nodes-Reached net env server request
handle-Leads net env server request fresh dashboard_call v =
    dashboard_summary-Reached net env server request
handle-Leads net env server request fresh connections_call v =
    active_connections-Reached net env server request
handle-Leads net env server request fresh (setup_admin_call body) v =
    setup_admin-Reached net env server request fresh body
handle-Leads net env server request fresh (login_call body) v =
    login-Reached net env server request fresh body v
handle-Leads net env server request fresh (mfa_setup_call body) v =
    mfa_setup-Reached net env server request fresh body
handle-Leads net env server request fresh (mfa_enable_call body) v =
    mfa_enable-Reached net env server request fresh body
handle-Leads net env server request fresh (mfa_disable_call body) v =
    mfa_disable-Reached net env server request body
handle-Leads net env server request fresh (users_call body) v =
    users-Reached net env server request fresh body
handle-Leads net env server request fresh (user_call body) v =
    user-Reached net env server request body
handle-Leads net env server request fresh (enrollment_tokens_call body) v =
    enrollment_tokens-Reached net env server request fresh body
handle-Leads net env server request fresh (enroll_call body) v =
    enroll-Reached net env server request fresh body
handle-Leads net env server request fresh (heartbeat_call body) v =
    agent_heartbeat-Reached net env server request body
handle-Leads net env server request fresh (forward_rules_call body) v =
    forward_rules-Reached net env server request fresh body
handle-Leads net env server request fresh (forward_rule_call body) v =
    forward_rule-Reached net env server request fresh body
handle-Leads net env server request fresh (traffic_call hours) v =
    traffic_history-Reached net env server request hours
handle-Leads net env server request fresh (audit_events_call limit before) v =
    audit_events-Reached net env server request limit before
handle-Leads net env server request fresh (agent_logs_call node level limit before) v =
    agent_logs-Reached net env server request node level limit before
