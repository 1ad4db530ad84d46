-- ===== src/Control/Api/Accounts.antt =====
-- The administrators over a history of requests to internal/control/server.go.
use portflow.Prelude.{
  ◌≡◌, ◌≤◌, ◌⊎◌, inl, inr, refl, true, List, [], ◌∷◌, length, eqb, arith, Bool-cases,
}
use portflow.Dict.Entries.{count-insert_new}
use portflow.Domain.{Net}
use portflow.Store.{Memory, User}
use portflow.Store.Users.{
  active_administrators, is_active_admin, create_initial_user, creates_initial, account_step,
}
use portflow.Store.Users.Index.{IsIndexed, empty_lookup}
use portflow.Store.Users.Indexed.{account_step-IsIndexed, new_memory-IsIndexed}
use portflow.Store.Users.Administrators.{account_step-admins}
use portflow.Store.Sessions.{create_session, delete_session_by_token_hash}
use portflow.Store.Telemetry.{record_audit}
use portflow.Store.Frames.{
  SameAccounts, create_enrollment_token-SameAccounts, enroll_agent-SameAccounts,
  create_forward_rule-SameAccounts, update_forward_rule-SameAccounts,
  delete_forward_rule-SameAccounts, update_agent_heartbeat-SameAccounts,
}
use portflow.Control.Http.{Request, Environment, Fresh, Server}
use portflow.Control.Api.{Call, handle, serve, new_server}
use portflow.Control.Api.Refines.{handle-Leads}
use portflow.Control.Api.Steps.{
  StoreStep, first_account, account_change, session_opened, session_closed, audited, token_added,
  enrolled, reported, rule_created, rule_updated, rule_deleted, Leads, stays, after,
}

-- The account maps agree, and there is no account at all or an administrator who is not disabled.
pub record IsStaffed (m : Memory) : Type 0 where
  pub indexed : IsIndexed m
  pub staffed : (eqb (length m.users) 0 ≡ true) ⊎ (1 ≤ active_administrators m)

same-IsStaffed : (m m' : Memory) → SameAccounts m m' → IsStaffed m → IsStaffed m'
same-IsStaffed m m' (us, ns) v =
    let i = v.indexed in
    record {
      indexed = record {
        distinct = rw us i.distinct;
        keyed = rw us i.keyed;
        named = rw (us, ns) i.named;
        owned = rw (us, ns) i.owned;
      };
      staffed = rw us v.staffed;
    }

first_account-staffed :
    (m : Memory) (user : User)
    → is_active_admin user ≡ true
    → IsStaffed m
    → 1 ≤ active_administrators (create_initial_user m user).1
unfolding create_initial_user
first_account-staffed m user admin v = elim (Bool-cases (eqb (length m.users) 0)) [
  | inl e ↦ rw e (
      let new =
        count-insert_new is_active_admin user.id user m.users (empty_lookup m.users user.id e) in
      ground (arith, new))
  | inr e ↦ rw e (ground (arith, v.staffed))
]

module _ (net : Net) where
  step-IsStaffed : {k l : Memory} → StoreStep net k l → IsStaffed k → IsStaffed l
  unfolding account_step create_session delete_session_by_token_hash record_audit
  step-IsStaffed (first_account m user admin) v = record {
    indexed = account_step-IsIndexed m (creates_initial user) v.indexed;
    staffed = inr (first_account-staffed m user admin v);
  }
  step-IsStaffed (account_change m call id user found) v =
      let some_admin : 1 ≤ active_administrators m =
        ground (arith, v.staffed, found, empty_lookup m.users id) in
      record {
        indexed = account_step-IsIndexed m call v.indexed;
        staffed = inr (account_step-admins m v.indexed some_admin call);
      }
  step-IsStaffed (session_opened m session user found active) v = same-IsStaffed m _ (refl, refl) v
  step-IsStaffed (session_closed m hash) v = same-IsStaffed m _ (refl, refl) v
  step-IsStaffed (audited m event) v = same-IsStaffed m _ (refl, refl) v
  step-IsStaffed (token_added m token) v =
      same-IsStaffed m _ (create_enrollment_token-SameAccounts m token) v
  step-IsStaffed (enrolled m hash now agent) v =
      same-IsStaffed m _ (enroll_agent-SameAccounts m hash now agent) v
  step-IsStaffed (reported m node_id hash heartbeat) v =
      same-IsStaffed m _ (update_agent_heartbeat-SameAccounts m node_id hash heartbeat) v
  step-IsStaffed (rule_created m rule valid) v =
      same-IsStaffed m _ (create_forward_rule-SameAccounts m rule) v
  step-IsStaffed (rule_updated m rule valid) v =
      same-IsStaffed m _ (update_forward_rule-SameAccounts m rule) v
  step-IsStaffed (rule_deleted m id) v =
      same-IsStaffed m _ (delete_forward_rule-SameAccounts m id) v

  pub Leads-IsStaffed : {m l : Memory} → Leads net m l → IsStaffed m → IsStaffed l
  Leads-IsStaffed stays v = v
  Leads-IsStaffed (after reached step) v = step-IsStaffed step (Leads-IsStaffed reached v)

  pub serve-IsStaffed :
      (env : Environment) (server : Server) (calls : List (Request × Fresh × Call))
      → IsStaffed server.memory
      → IsStaffed (serve net env server calls).memory
  unfolding serve
  serve-IsStaffed env server [] v = v
  serve-IsStaffed env server ((request, fresh, call) ∷ calls) v =
      serve-IsStaffed env (handle net env server request fresh call).1 calls
        (Leads-IsStaffed (handle-Leads net env server request fresh call v.indexed) v)

pub new_server-IsStaffed : IsStaffed new_server.memory
new_server-IsStaffed = record { indexed = new_memory-IsIndexed; staffed = inl refl }

-- After any history of requests to a server with a new store, the two account maps agree, and there
-- is no account at all or at least one administrator who is not disabled.
pub serve-new_server :
    (net : Net) (env : Environment) (calls : List (Request × Fresh × Call))
    → IsStaffed (serve net env new_server calls).memory
serve-new_server net env calls = serve-IsStaffed net env new_server calls new_server-IsStaffed
