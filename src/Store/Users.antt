-- ===== src/Store/Users.antt =====
-- The account operations of internal/store/memory.go.
pub mod Index
pub mod Indexed
pub mod Administrators
pub mod Recovery
use portflow.Prelude.{
  ℕ, String, Bool, true, false, Option, none, some, List, [], ◌∷◌, ◌==◌, ◌&&◌, ◌||◌, not, ltb, leb,
  eqb, if◌then◌else◌, on_option, Result, ok, err, sort_by, length,
}
use text.Mathlib.Text.{is_lt}
use Prim.Native.String.{compare}
use portflow.Dict.{Dict, lookup, get_or, insert, remove, remove_where, values}
use portflow.Dict.Entries.{count}
use portflow.Store.{
  Memory, Reply, StoreError, User, UserUpdate, Session, EnrollmentToken, not_found, conflict,
  bootstrap_completed, last_administrator, role_admin,
}

-- User{}
abbrev pub zero_user : User
zero_user = record {
  id = "";
  username = "";
  password_hash = "";
  role = "";
  disabled = false;
  mfa_enabled = false;
  mfa_secret = "";
  mfa_recovery_hashes = [];
  created_at = 0;
}

-- Both maps, written together.
abbrev pub put_user : Memory → User → Memory
put_user memory user = record memory {
  users = insert user.id user memory.users;
  usernames = insert user.username user.id memory.usernames;
}

unfoldable pub create_initial_user : Memory → User → Reply Unit
create_initial_user memory user =
    if eqb (length memory.users) 0
    then (ok tt, put_user memory user)
    else (err bootstrap_completed, memory)

unfoldable pub create_user : Memory → User → Reply Unit
create_user memory user =
    on_option (lookup user.id memory.users)
      (on_option (lookup user.username memory.usernames) (ok tt, put_user memory user)
        λ other. (err conflict, memory))
      λ other. (err conflict, memory)

-- candidate.Role == RoleAdmin && !candidate.Disabled
abbrev pub is_active_admin : User → Bool
is_active_admin user = user.role == role_admin && not user.disabled

abbrev pub active_administrators : Memory → ℕ
active_administrators memory = count is_active_admin memory.users

-- The account with an update's fields.
unfoldable pub updated_user : User → UserUpdate → User
updated_user user update = record user {
  role = update.role;
  disabled = update.disabled;
  password_hash = if update.password_hash == "" then user.password_hash else update.password_hash;
  mfa_enabled = if update.reset_mfa then false else user.mfa_enabled;
  mfa_secret = if update.reset_mfa then "" else user.mfa_secret;
  mfa_recovery_hashes = if update.reset_mfa then [] else user.mfa_recovery_hashes;
}

abbrev pub end_sessions : String → Dict Session → Dict Session
end_sessions user_id = remove_where λ session. session.user_id == user_id

-- The guards of UpdateUser and DeleteUser for the last active administrator.
abbrev pub demotes_last : Memory → User → UserUpdate → Bool
demotes_last memory user update =
    is_active_admin user
    && (not (update.role == role_admin) || update.disabled)
    && leb (active_administrators memory) 1

abbrev pub is_last_admin : Memory → User → Bool
is_last_admin memory user = is_active_admin user && leb (active_administrators memory) 1

unfoldable pub update_user : Memory → String → UserUpdate → Reply User
update_user memory user_id update =
    on_option (lookup user_id memory.users) (err not_found, memory)
      λ user. if demotes_last memory user update then (err last_administrator, memory) else (
        ok (updated_user user update),
        record memory {
          users = insert user_id (updated_user user update) memory.users;
          sessions = end_sessions user_id memory.sessions;
        },
      )

unfoldable pub delete_user : Memory → String → Reply Unit
delete_user memory user_id =
    on_option (lookup user_id memory.users) (err not_found, memory)
      λ user. if is_last_admin memory user then (err last_administrator, memory) else (
        ok tt,
        record memory {
          users = remove user_id memory.users;
          usernames = remove user.username memory.usernames;
          enrollment_tokens =
              remove_where (λ token. token.created_by == user_id) memory.enrollment_tokens;
          sessions = end_sessions user_id memory.sessions;
        },
      )

abbrev pub with_mfa : User → Bool → String → List String → User
with_mfa user enabled secret recovery_hashes = record user {
  mfa_enabled = enabled;
  mfa_secret = secret;
  mfa_recovery_hashes = recovery_hashes;
}

unfoldable pub set_user_mfa : Memory → String → Bool → String → List String → Reply User
set_user_mfa memory user_id enabled secret recovery_hashes =
    on_option (lookup user_id memory.users) (err not_found, memory)
      λ user.
        let user' = with_mfa user enabled secret recovery_hashes in
        (ok user', record memory { users = insert user_id user' memory.users })

-- The hashes without the first that matches; `none` where none does.
unfoldable pub without_code : String → List String → Option (List String)
without_code hash [] = none
without_code hash (candidate ∷ rest) =
    if candidate == hash
    then some rest
    else on_option (without_code hash rest) none λ kept. some (candidate ∷ kept)

unfoldable pub consume_recovery_code : Memory → String → String → Reply Bool
consume_recovery_code memory user_id hash =
    on_option (lookup user_id memory.users) (err not_found, memory)
      λ user.
        on_option (without_code hash user.mfa_recovery_hashes) (ok false, memory)
          λ kept. (
            ok true,
            record memory {
              users = insert user_id (record user { mfa_recovery_hashes = kept }) memory.users;
            },
          )

-- The order of ListUsers: by creation, then by name.
abbrev pub user_before : User → User → Bool
user_before left right =
    if eqb left.created_at right.created_at
    then is_lt (compare left.username right.username)
    else ltb left.created_at right.created_at

unfoldable pub list_users : Memory → List User
list_users memory = sort_by user_before (values memory.users)

unfoldable pub user_by_username : Memory → String → Result StoreError User
user_by_username memory username =
    on_option (lookup username memory.usernames) (err not_found)
      λ id. ok (get_or zero_user (lookup id memory.users))

unfoldable pub user_by_id : Memory → String → Result StoreError User
user_by_id memory id = on_option (lookup id memory.users) (err not_found) λ user. ok user

-- The operations that write accounts, as calls, and any history of them.
pub data AccountCall : Type 0 where
  creates_initial creates : User → AccountCall
  updates : String → UserUpdate → AccountCall
  deletes : String → AccountCall
  sets_mfa : String → Bool → String → List String → AccountCall
  consumes : String → String → AccountCall

unfoldable pub account_step : Memory → AccountCall → Memory
account_step m (creates_initial user) = (create_initial_user m user).1
account_step m (creates user) = (create_user m user).1
account_step m (updates id update) = (update_user m id update).1
account_step m (deletes id) = (delete_user m id).1
account_step m (sets_mfa id enabled secret hashes) = (set_user_mfa m id enabled secret hashes).1
account_step m (consumes id hash) = (consume_recovery_code m id hash).1

unfoldable pub run_accounts : Memory → List AccountCall → Memory
unfolding account_step
run_accounts m [] = m
run_accounts m (call ∷ calls) = run_accounts (account_step m call) calls
