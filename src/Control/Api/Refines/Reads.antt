-- ===== src/Control/Api/Refines/Reads.antt =====
-- The handlers of internal/control/server.go that only read, as operations of the store.
use portflow.Prelude.{◌||◌, String, ltb, byte_length, trim_space, lower}
use portflow.Domain.{Net}
use portflow.Store.{role_admin}
use portflow.Control.Http.{Request, Environment, Server}
use portflow.Control.Fleet.{
  Parameter, nodes, dashboard_summary, traffic_history, audit_events, agent_logs,
  active_connections, in_range, cursor, unknown_level, read_only,
}
use portflow.Control.Api.Refines.Sessions.{same}
use portflow.Control.Api.Steps.{
  stays, Reached, on_option-Reached, if-Reached, only_method-Reached, with_user-Reached,
}

module _ (net : Net) (env : Environment) (server : Server) (request : Request) where
  refused : (response : _) → Reached net server.memory (response, server)
  refused = same net env server request

  read_only-Reached :
      (role : String) (next : _)
      → Reached net server.memory next
      → Reached net server.memory (read_only env server request role next)
  unfolding read_only
  read_only-Reached role next h =
      only_method-Reached net server.memory server request "GET" _ stays
        (with_user-Reached net server.memory env server request role _ stays λ session user e. h)

  pub nodes-Reached : Reached net server.memory (nodes env server request)
  unfolding nodes
  nodes-Reached = read_only-Reached "" _ (refused _)

  pub dashboard_summary-Reached : Reached net server.memory (dashboard_summary env server request)
  unfolding dashboard_summary
  dashboard_summary-Reached = read_only-Reached "" _ (refused _)

  pub active_connections-Reached : Reached net server.memory (active_connections env server request)
  unfolding active_connections
  active_connections-Reached = read_only-Reached "" _ (refused _)

  pub traffic_history-Reached :
      (hours : Parameter) → Reached net server.memory (traffic_history env server request hours)
  unfolding traffic_history
  traffic_history-Reached hours =
      read_only-Reached "" _ (
        on_option-Reached net server.memory (in_range 168 24 hours) _ _ (refused _)
          λ n e. refused _)

  pub audit_events-Reached :
      (limit before : Parameter)
      → Reached net server.memory (audit_events env server request limit before)
  unfolding audit_events
  audit_events-Reached limit before = read_only-Reached role_admin _ (
      on_option-Reached net server.memory (in_range 200 50 limit) _ _ (refused _)
        λ n e. on_option-Reached net server.memory (cursor before) _ _ (refused _) λ t f. refused _)

  pub agent_logs-Reached :
      (node level : String) (limit before : Parameter)
      → Reached net server.memory (agent_logs env server request node level limit before)
  unfolding agent_logs
  agent_logs-Reached node level limit before = read_only-Reached role_admin _ (
      if-Reached net server.memory
        (ltb 128 (byte_length (trim_space node)) || unknown_level (lower (trim_space level))) _ _
        (λ d. refused _)
        λ d. on_option-Reached net server.memory (in_range 200 100 limit) _ _ (refused _) λ n e.
          on_option-Reached net server.memory (cursor before) _ _ (refused _) λ t f. refused _)
