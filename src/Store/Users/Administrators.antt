-- ===== src/Store/Users/Administrators.antt =====
-- The active administrators and the sessions of an account, across the operations on accounts of
-- internal/store/memory.go.
use portflow.Prelude.{
  ◌≤◌, String, ◌≡◌, ◌≢◌, Bool, List, [], ◌∷◌, some, true, false, arith, ◌↔◌, ◌==◌, eq_iff,
  Option-cases, Bool-cases, length, eqb, ok, err, inl, inr,
}
use portflow.Dict.{lookup, Distinct}
use portflow.Dict.Entries.{count-insert, count-insert_new, count-remove, count-le-length}
use portflow.Dict.Laws.{lookup-remove_where, lookup-remove_where_kept}
use portflow.Store.{Memory, User, UserUpdate, Session, role_admin, last_administrator}
use portflow.Store.Users.{
  create_initial_user, create_user, update_user, updated_user, delete_user, without_code,
  end_sessions, set_user_mfa, consume_recovery_code, AccountCall, creates_initial, creates, updates,
  deletes, sets_mfa, consumes, account_step, run_accounts, is_active_admin, active_administrators,
}
use portflow.Store.Users.Index.{IsIndexed}
use portflow.Store.Users.Indexed.{account_step-IsIndexed}

module _ (m : Memory) (v : IsIndexed m) (some_admin : 1 ≤ active_administrators m) where
  create_initial_user-admins :
      (user : User) → 1 ≤ active_administrators (create_initial_user m user).1
  unfolding create_initial_user
  create_initial_user-admins user = elim (Bool-cases (eqb (length m.users) 0)) [
    | inl e ↦ absurd (ground (arith, count-le-length is_active_admin m.users))
    | inr e ↦ rw e some_admin
  ]

  create_user-admins : (user : User) → 1 ≤ active_administrators (create_user m user).1
  unfolding create_user
  create_user-admins user = ground (arith, count-insert_new is_active_admin user.id user m.users)

  update_user-admins :
      (id : String) (update : UserUpdate) → 1 ≤ active_administrators (update_user m id update).1
  unfolding update_user updated_user
  update_user-admins id update = elim (Option-cases (lookup id m.users)) [
    | inl e ↦ rw e some_admin
    | inr (user, e) ↦ ground (
      arith,
      e,
      count-insert is_active_admin id (updated_user user update) user m.users,
      eq_iff update.role role_admin,
    )
  ]

  delete_user-admins : (id : String) → 1 ≤ active_administrators (delete_user m id).1
  unfolding delete_user
  delete_user-admins id = elim (Option-cases (lookup id m.users)) [
    | inl e ↦ rw e some_admin
    | inr (user, e) ↦ ground (arith, e, count-remove is_active_admin id user m.users v.distinct)
  ]

  set_user_mfa-admins :
      (id : String) (enabled : Bool) (secret : String) (hashes : List String)
      → 1 ≤ active_administrators (set_user_mfa m id enabled secret hashes).1
  unfolding set_user_mfa
  set_user_mfa-admins id enabled secret hashes = elim (Option-cases (lookup id m.users)) [
    | inl e ↦ rw e some_admin
    | inr (user, e) ↦ rw e (omega (arith, count-insert is_active_admin id _ user m.users e))
  ]

  consume_recovery_code-admins :
      (id hash : String) → 1 ≤ active_administrators (consume_recovery_code m id hash).1
  unfolding consume_recovery_code
  consume_recovery_code-admins id hash = elim (Option-cases (lookup id m.users)) [
    | inl e ↦ rw e some_admin
    | inr (user, e) ↦ elim (Option-cases (without_code hash user.mfa_recovery_hashes)) [
      | inl n ↦ rw (e, n) some_admin
      | inr (kept, n) ↦ rw (e, n) (omega (arith, count-insert is_active_admin id _ user m.users e))
    ]
  ]

  pub account_step-admins : (call : AccountCall) → 1 ≤ active_administrators (account_step m call)
  unfolding account_step
  account_step-admins (creates_initial user) = create_initial_user-admins user
  account_step-admins (creates user) = create_user-admins user
  account_step-admins (updates id update) = update_user-admins id update
  account_step-admins (deletes id) = delete_user-admins id
  account_step-admins (sets_mfa id e s hs) = set_user_mfa-admins id e s hs
  account_step-admins (consumes id hash) = consume_recovery_code-admins id hash

-- From accounts whose two maps agree and that have an active administrator, every history of
-- account operations leaves at least one active administrator.
pub run_accounts-admins :
    (m : Memory) (calls : List AccountCall)
    → IsIndexed m
    → 1 ≤ active_administrators m
    → 1 ≤ active_administrators (run_accounts m calls)
unfolding run_accounts
run_accounts-admins m [] v h = h
run_accounts-admins m (call ∷ calls) v h =
    run_accounts-admins (account_step m call) calls (account_step-IsIndexed m call v)
      (account_step-admins m v h call)

-- UpdateUser refuses with ErrLastAdministrator exactly when the account is the only active
-- administrator and the update would demote or disable it; then nothing changes.
update_user-last_admin :
    (m : Memory) (id : String) (update : UserUpdate) (user : User)
    → lookup id m.users ≡ some user
    → (update_user m id update ≡ (err last_administrator, m)) ↔ (
        (is_active_admin user ≡ true)
        × (is_active_admin (updated_user user update) ≡ false)
        × (active_administrators m ≤ 1))
unfolding update_user updated_user
update_user-last_admin m id update user found = (λ h. ground arith, λ h. ground arith)

-- The sessions that an update or a deletion leaves: those of the other accounts, unchanged.
abbrev pub EndsSessions : String → Memory → Memory → Type 0
EndsSessions id m m' =
    (token : String) (s : Session)
    → (lookup token m'.sessions ≡ some s) ↔ ((lookup token m.sessions ≡ some s) × (s.user_id ≢ id))

end_sessions_lem :
    (id : String) (m m' : Memory)
    → Distinct m.sessions
    → m'.sessions ≡ end_sessions id m.sessions
    → EndsSessions id m m'
end_sessions_lem id m m' d e token s = (
  λ h.
      let kept = lookup-remove_where (λ s. s.user_id == id) token m.sessions s d (rw e at h) in
      (kept.0, ground (arith, eq_iff s.user_id id)),
  λ h. rw e (
      lookup-remove_where_kept (λ s. s.user_id == id) token m.sessions s h.0
        (ground (arith, eq_iff s.user_id id))),
)

-- A UpdateUser that succeeds ends exactly the sessions of that account.
update_user-EndsSessions :
    (m m' : Memory) (id : String) (update : UserUpdate) (user : User)
    → Distinct m.sessions
    → update_user m id update ≡ (ok user, m')
    → EndsSessions id m m'
unfolding update_user
update_user-EndsSessions m m' id update user d h = end_sessions_lem id m m' d (ground arith)

-- A DeleteUser that succeeds ends exactly the sessions of that account.
delete_user-EndsSessions :
    (m m' : Memory) (id : String)
    → Distinct m.sessions
    → delete_user m id ≡ (ok tt, m')
    → EndsSessions id m m'
unfolding delete_user
delete_user-EndsSessions m m' id d h = end_sessions_lem id m m' d (ground arith)
