-- ===== src/Control/Api/Clashes.antt =====
-- The stored rules over a history of requests to internal/control/server.go, under the test
-- listenerConflictLocked of internal/store/memory.go. That test does not compare a direct rule's
-- listener with the relay listener of another rule.
use portflow.Prelude.{ap, trim_space, ◌≡◌, ◌≢◌, refl, List, [], ◌∷◌, none, arith}
use portflow.Dict.{lookup}
use portflow.Domain.{Net, ForwardRule, validate}
use portflow.Domain.Validity.{validate-none_iff}
use portflow.Store.{Memory}
use portflow.Store.Users.{creates_initial, account_step}
use portflow.Store.Sessions.{create_session, delete_session_by_token_hash}
use portflow.Store.Telemetry.{record_audit}
use portflow.Store.Rules.Conflicts.{
  NoClash, create_forward_rule-NoClash, update_forward_rule-NoClash, delete_forward_rule-NoClash,
}
use portflow.Store.Frames.Rules.{
  create_enrollment_token-rules, enroll_agent-rules, account_step-rules,
  update_agent_heartbeat-NoClash,
}
use portflow.Control.Http.{Request, Environment, Fresh, Server}
use portflow.Control.Api.{Call, handle, serve, new_server}
use portflow.Control.Api.Accounts.{IsStaffed, Leads-IsStaffed, new_server-IsStaffed}
use portflow.Control.Api.Refines.{handle-Leads}
use portflow.Control.Api.Steps.{
  StoreStep, first_account, account_change, session_opened, session_closed, audited, token_added,
  enrolled, reported, rule_created, rule_updated, rule_deleted, Leads, stays, after,
}

valid-named : (net : Net) (rule : ForwardRule) → validate net rule ≡ none → rule.id ≢ ""
unfolding trim_space
valid-named net rule valid e =
    let accepted = (validate-none_iff net rule).0 valid in accepted.has_id (ap trim_space e)

module _ (net : Net) where
  step-NoClash :
      {k l : Memory} → StoreStep net k l → NoClash k.forward_rules → NoClash l.forward_rules
  unfolding account_step create_session delete_session_by_token_hash record_audit
  step-NoClash (first_account m user admin) v = rw (account_step-rules m (creates_initial user)) v
  step-NoClash (account_change m call id user found) v = rw (account_step-rules m call) v
  step-NoClash (session_opened m session user found active) v = v
  step-NoClash (session_closed m hash) v = v
  step-NoClash (audited m event) v = v
  step-NoClash (token_added m token) v = rw (create_enrollment_token-rules m token) v
  step-NoClash (enrolled m hash now agent) v = rw (enroll_agent-rules m hash now agent) v
  step-NoClash (reported m node_id hash heartbeat) v =
      update_agent_heartbeat-NoClash m node_id hash heartbeat v
  step-NoClash (rule_created m rule valid) v =
      create_forward_rule-NoClash m rule (valid-named net rule valid) v
  step-NoClash (rule_updated m rule valid) v = update_forward_rule-NoClash m rule v
  step-NoClash (rule_deleted m id) v = delete_forward_rule-NoClash m id v

  Leads-NoClash : {m l : Memory} → Leads net m l → NoClash m.forward_rules → NoClash l.forward_rules
  Leads-NoClash stays v = v
  Leads-NoClash (after reached step) v = step-NoClash step (Leads-NoClash reached v)

  serve-NoClash :
      (env : Environment) (server : Server) (calls : List (Request × Fresh × Call))
      → IsStaffed server.memory
      → NoClash server.memory.forward_rules
      → NoClash (serve net env server calls).memory.forward_rules
  unfolding serve
  serve-NoClash env server [] s v = v
  serve-NoClash env server ((request, fresh, call) ∷ calls) s v =
      let reached = handle-Leads net env server request fresh call s.indexed in
      serve-NoClash env (handle net env server request fresh call).1 calls
        (Leads-IsStaffed net reached s) (Leads-NoClash reached v)

-- After any history of requests to a server with a new store, heartbeats among them, the stored
-- rules are kept under their identifiers and no two of them clash: none have the same listening host
-- and port of one ingress node with a protocol in common, nor the same relay port of one egress node.
pub serve-rules_apart :
    (net : Net) (env : Environment) (calls : List (Request × Fresh × Call))
    → NoClash (serve net env new_server calls).memory.forward_rules
unfolding lookup
serve-rules_apart net env calls =
    serve-NoClash net env new_server calls new_server-IsStaffed (record {
      no_blank = refl;
      keyed = λ k r h. ground arith;
      apart = λ j k r s h e n. ground arith;
    })
