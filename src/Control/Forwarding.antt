-- ===== src/Control/Forwarding.antt =====
-- The handlers forwardRules and forwardRule of internal/control/server.go.
use portflow.Prelude.{String, [], ◌∷◌, ◌==◌, if◌then◌else◌, on_option, on_result, Result, ok, err}
use portflow.Domain.{Net, ForwardRule}
use portflow.Store.{
  User, StoreError, not_found, conflict, bootstrap_completed, token_invalid, last_administrator,
}
use portflow.Store.Rules.{
  list_forward_rules, create_forward_rule, update_forward_rule, delete_forward_rule,
}
use portflow.Store.Telemetry.{list_nodes}
use portflow.Control.Rules.{
  ForwardRuleInput, BuildError, build_forward_rule, internal_error, limits_exceeded,
  unsupported_protocol, unsupported_mode, egress_in_direct, relay_port_in_direct, permission_denied,
  relay_not_provisioned, invalid_listen_host, invalid_target_host, sensitive_target_denied,
  invalid_rule,
}
use portflow.Control.Http.{
  Request, Environment, Fresh, Server, Answer, DecodeError, reply, refuse, with_body, with_user,
  user_audit, with_memory, method_not_allowed, path_id, one_rule, rule_list, no_content,
}

-- The error responses of buildForwardRule.
unfoldable pub build_refusal : Server → BuildError → Answer
build_refusal server internal_error = refuse server 500 "internal_error"
build_refusal server limits_exceeded = refuse server 422 "invalid_rule"
build_refusal server unsupported_protocol = refuse server 422 "unsupported_rule"
build_refusal server unsupported_mode = refuse server 422 "unsupported_rule"
build_refusal server egress_in_direct = refuse server 422 "invalid_rule"
build_refusal server relay_port_in_direct = refuse server 422 "invalid_rule"
build_refusal server permission_denied = refuse server 403 "permission_denied"
build_refusal server relay_not_provisioned = refuse server 422 "relay_not_provisioned"
build_refusal server invalid_listen_host = refuse server 422 "invalid_listen_host"
build_refusal server invalid_target_host = refuse server 422 "invalid_target_host"
build_refusal server sensitive_target_denied = refuse server 403 "sensitive_target"
build_refusal server (invalid_rule problem) = refuse server 422 "invalid_rule"

-- writeForwardRuleStoreError
unfoldable pub rule_store_refusal : Server → StoreError → Answer
rule_store_refusal server not_found = refuse server 404 "not_found"
rule_store_refusal server conflict = refuse server 409 "listener_conflict"
rule_store_refusal server bootstrap_completed = refuse server 500 "storage_error"
rule_store_refusal server token_invalid = refuse server 500 "storage_error"
rule_store_refusal server last_administrator = refuse server 500 "storage_error"

abbrev pub rule_audit : Server → Request → User → String → ForwardRule → Server
rule_audit server request actor action rule =
    user_audit server request actor.id action "forward_rule" rule.id (
      ("name", rule.name)
      ∷ ("mode", rule.mode)
      ∷ ("ingressNodeId", rule.ingress_node_id)
      ∷ ("egressNodeId", rule.egress_node_id)
      ∷ [])

-- CreateForwardRule and what follows.
unfoldable pub save_new : Server → Request → User → Result BuildError ForwardRule → Answer
unfolding build_refusal rule_store_refusal
save_new server request actor (err problem) = build_refusal server problem
save_new server request actor (ok rule) =
    let (answer, memory) = create_forward_rule server.memory rule in
    on_result answer (rule_store_refusal server) λ created. (
      reply 201 (one_rule created),
      rule_audit (with_memory server memory) request actor "forward_rule.create" created,
    )

-- UpdateForwardRule and what follows.
unfoldable pub save_old : Server → Request → User → Result BuildError ForwardRule → Answer
unfolding build_refusal rule_store_refusal
save_old server request actor (err problem) = build_refusal server problem
save_old server request actor (ok rule) =
    let (answer, memory) = update_forward_rule server.memory rule in
    on_result answer (rule_store_refusal server) λ updated. (
      reply 200 (one_rule updated),
      rule_audit (with_memory server memory) request actor "forward_rule.update" updated,
    )

unfoldable pub delete_rule : Server → Request → User → String → Answer
unfolding rule_store_refusal
delete_rule server request actor id =
    let (answer, memory) = delete_forward_rule server.memory id in
    on_result answer (rule_store_refusal server) λ done. (
      reply 204 no_content,
      user_audit (with_memory server memory) request actor.id "forward_rule.delete" "forward_rule"
          id [],
    )

-- The rule that a request's body asks for.
abbrev pub built :
    Net → Server → Fresh → ForwardRuleInput → String → String → Result BuildError ForwardRule
built net server fresh input id role =
    build_forward_rule net (list_nodes server.memory) fresh.id input id role

unfoldable pub forward_rules :
    Net → Environment → Server → Request → Fresh → Result DecodeError ForwardRuleInput → Answer
unfolding with_user with_body save_new
forward_rules net env server request fresh body = with_user env server request "" λ actor.
    if request.method == "GET"
    then (reply 200 (rule_list (list_forward_rules server.memory)), server)
    else if request.method == "POST"
    then with_body server body
        (λ input. save_new server request actor (built net server fresh input "" actor.role))
    else method_not_allowed server

unfoldable pub forward_rule :
    Net → Environment → Server → Request → Fresh → Result DecodeError ForwardRuleInput → Answer
unfolding with_user with_body save_old delete_rule
forward_rule net env server request fresh body = with_user env server request "" λ actor.
    on_option (path_id "/api/v1/forward-rules/" request.path) (refuse server 404 "not_found") λ id.
      if request.method == "PUT"
      then with_body server body
          (λ input. save_old server request actor (built net server fresh input id actor.role))
      else if request.method == "DELETE"
      then delete_rule server request actor id
      else method_not_allowed server
