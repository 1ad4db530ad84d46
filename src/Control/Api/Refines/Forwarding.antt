-- ===== src/Control/Api/Refines/Forwarding.antt =====
-- The handlers forwardRules and forwardRule of internal/control/server.go, as operations of the
-- store.
use portflow.Prelude.{◌==◌, String, ◌≡◌, refl, none, Result, ok, err}
use portflow.Domain.{Net, ForwardRule, validate}
use portflow.Store.{User}
use portflow.Store.Rules.{create_forward_rule, update_forward_rule, delete_forward_rule}
use portflow.Store.Telemetry.{list_nodes}
use portflow.Control.Rules.{
  ForwardRuleInput, BuildError, internal_error, limits_exceeded, unsupported_protocol,
  unsupported_mode, egress_in_direct, relay_port_in_direct, permission_denied,
  relay_not_provisioned, invalid_listen_host, invalid_target_host, sensitive_target_denied,
  invalid_rule,
}
use portflow.Control.Rules.Permissions.{build_forward_rule-IsAllowed}
use portflow.Control.Http.{Request, Environment, Fresh, Server, DecodeError, path_id}
use portflow.Control.Forwarding.{
  forward_rules, forward_rule, save_new, save_old, delete_rule, built, build_refusal,
  rule_store_refusal,
}
use portflow.Control.Api.Refines.Sessions.{same}
use portflow.Control.Api.Steps.{
  stays, after, rule_created, rule_updated, rule_deleted, Reached, Leads-Reached, on_option-Reached,
  errors-Reached, on_result-Reached, if-Reached, with_body-Reached, audit-Leads, with_user-Reached,
}

module _ (net : Net) (env : Environment) (server : Server) (request : Request) where
  refused : (response : _) → Reached net server.memory (response, server)
  refused = same net env server request

  build_refusal-Reached :
      (problem : BuildError) → Reached net server.memory (build_refusal server problem)
  unfolding build_refusal
  build_refusal-Reached internal_error = refused _
  build_refusal-Reached limits_exceeded = refused _
  build_refusal-Reached unsupported_protocol = refused _
  build_refusal-Reached unsupported_mode = refused _
  build_refusal-Reached egress_in_direct = refused _
  build_refusal-Reached relay_port_in_direct = refused _
  build_refusal-Reached permission_denied = refused _
  build_refusal-Reached relay_not_provisioned = refused _
  build_refusal-Reached invalid_listen_host = refused _
  build_refusal-Reached invalid_target_host = refused _
  build_refusal-Reached sensitive_target_denied = refused _
  build_refusal-Reached (invalid_rule problem) = refused _

  store_errors-Reached :
      (problem : _) → Reached net server.memory (rule_store_refusal server problem)
  unfolding rule_store_refusal
  store_errors-Reached =
      errors-Reached net server.memory (rule_store_refusal server) (refused _) (refused _)
        (refused _) (refused _) (refused _)

  save_new-Reached :
      (actor : User) (rule : Result BuildError ForwardRule)
      → ((accepted : ForwardRule) → rule ≡ ok accepted → validate net accepted ≡ none)
      → Reached net server.memory (save_new server request actor rule)
  unfolding save_new
  save_new-Reached actor (err problem) valid = build_refusal-Reached problem
  save_new-Reached actor (ok rule) valid =
      on_result-Reached net server.memory (create_forward_rule server.memory rule).0 _ _
        store_errors-Reached
        λ created e. Leads-Reached net server.memory _ (
          audit-Leads net server.memory _ request _ _ _ _ _ _
            (after stays (rule_created server.memory rule (valid rule refl))))

  save_old-Reached :
      (actor : User) (rule : Result BuildError ForwardRule)
      → ((accepted : ForwardRule) → rule ≡ ok accepted → validate net accepted ≡ none)
      → Reached net server.memory (save_old server request actor rule)
  unfolding save_old
  save_old-Reached actor (err problem) valid = build_refusal-Reached problem
  save_old-Reached actor (ok rule) valid =
      on_result-Reached net server.memory (update_forward_rule server.memory rule).0 _ _
        store_errors-Reached
        λ updated e. Leads-Reached net server.memory _ (
          audit-Leads net server.memory _ request _ _ _ _ _ _
            (after stays (rule_updated server.memory rule (valid rule refl))))

  delete_rule-Reached :
      (actor : User) (id : String) → Reached net server.memory (delete_rule server request actor id)
  unfolding delete_rule
  delete_rule-Reached actor id =
      on_result-Reached net server.memory (delete_forward_rule server.memory id).0 _ _
        store_errors-Reached
        λ done e. Leads-Reached net server.memory _ (
          audit-Leads net server.memory _ request _ _ _ _ _ _
            (after stays (rule_deleted server.memory id)))

  built_valid :
      (fresh : Fresh) (input : ForwardRuleInput) (id role : String) (accepted : ForwardRule)
      → built net server fresh input id role ≡ ok accepted
      → validate net accepted ≡ none
  built_valid fresh input id role accepted e =
      (build_forward_rule-IsAllowed net (list_nodes server.memory) fresh.id input id role accepted
        e).valid

  pub forward_rules-Reached :
      (fresh : Fresh) (body : Result DecodeError ForwardRuleInput)
      → Reached net server.memory (forward_rules net env server request fresh body)
  unfolding forward_rules
  forward_rules-Reached fresh body =
      with_user-Reached net server.memory env server request "" _ stays λ session actor e.
        if-Reached net server.memory (request.method == "GET") _ _ (λ f. refused _)
          λ f.
            if-Reached net server.memory (request.method == "POST") _ _
              (λ g. with_body-Reached net server.memory server body _ stays λ input.
                save_new-Reached actor (built net server fresh input "" actor.role)
                  (built_valid fresh input "" actor.role))
              (λ g. refused _)

  pub forward_rule-Reached :
      (fresh : Fresh) (body : Result DecodeError ForwardRuleInput)
      → Reached net server.memory (forward_rule net env server request fresh body)
  unfolding forward_rule
  forward_rule-Reached fresh body =
      with_user-Reached net server.memory env server request "" _ stays λ session actor e.
        on_option-Reached net server.memory (path_id "/api/v1/forward-rules/" request.path) _ _
          (refused _)
          λ id f.
            if-Reached net server.memory (request.method == "PUT") _ _
              (λ g. with_body-Reached net server.memory server body _ stays λ input.
                save_old-Reached actor (built net server fresh input id actor.role)
                  (built_valid fresh input id actor.role))
              λ g.
                if-Reached net server.memory (request.method == "DELETE") _ _
                  (λ h. delete_rule-Reached actor id) (λ h. refused _)
