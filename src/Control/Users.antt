-- ===== src/Control/Users.antt =====
-- The handlers users and user of internal/control/server.go, which only administrators may call.
use portflow.Prelude.{
  String, Bool, [], ◌∷◌, ◌==◌, ◌&&◌, not, map, if◌then◌else◌, on_option, on_result, Result, ok,
}
use portflow.Store.{
  User, UserUpdate, StoreError, role_admin, role_member, not_found, conflict, last_administrator,
  bootstrap_completed, token_invalid,
}
use portflow.Store.Users.{create_user, update_user, delete_user, list_users, user_by_id}
use portflow.Auth.{normalize_username, hash_password, AuthError}
use portflow.Control.Login.{fresh_user}
use portflow.Control.Http.{
  Request, Environment, Fresh, Server, Answer, DecodeError, reply, refuse, with_body, with_user,
  user_audit, with_memory, public_user, one_user, user_list, no_content, method_not_allowed,
  path_id, bool_text,
}

pub record UserInput : Type 0 where
  pub username : String
  pub password : String
  pub role : String

pub record UserUpdateInput : Type 0 where
  pub role : String
  pub disabled : Bool
  pub password : String
  pub reset_mfa : Bool

abbrev pub unknown_role : String → Bool
unknown_role role = not (role == role_admin) && not (role == role_member)

abbrev pub creation_refusal : Server → StoreError → Answer
creation_refusal server conflict = refuse server 409 "username_conflict"
creation_refusal server not_found = refuse server 500 "storage_error"
creation_refusal server bootstrap_completed = refuse server 500 "storage_error"
creation_refusal server last_administrator = refuse server 500 "storage_error"
creation_refusal server token_invalid = refuse server 500 "storage_error"

-- CreateUser and what follows.
unfoldable pub add_user : Server → Request → User → User → Answer
add_user server request actor created =
    let (answer, memory) = create_user server.memory created in
    on_result answer (creation_refusal server) λ done. (
      reply 201 (one_user (public_user created)),
      user_audit (with_memory server memory) request actor.id "user.create" "user" created.id
          (("username", created.username) ∷ ("role", created.role) ∷ []),
    )

unfoldable pub post_user : Environment → Server → Request → Fresh → User → UserInput → Answer
unfolding add_user
post_user env server request fresh actor input =
    let role = if input.role == "" then role_member else input.role in
    on_result (normalize_username input.username) (λ problem. refuse server 422 "invalid_username")
      λ username.
        if unknown_role role
        then refuse server 422 "invalid_role"
        else on_result (hash_password env.bcrypt input.password)
            (λ problem. refuse server 422 "invalid_password")
            λ password_hash. on_option fresh.id (refuse server 500 "internal_error") λ id.
              add_user server request actor (fresh_user id username password_hash role request.now)

unfoldable pub users :
    Environment → Server → Request → Fresh → Result DecodeError UserInput → Answer
unfolding with_user with_body post_user
users env server request fresh body = with_user env server request role_admin λ actor.
    if request.method == "GET"
    then (reply 200 (user_list (map public_user (list_users server.memory))), server)
    else if request.method == "POST"
    then with_body server body (post_user env server request fresh actor)
    else method_not_allowed server

-- The errors of UpdateUser and DeleteUser.
abbrev pub account_refusal : Server → StoreError → Answer
account_refusal server last_administrator = refuse server 409 "last_administrator"
account_refusal server not_found = refuse server 404 "not_found"
account_refusal server conflict = refuse server 500 "storage_error"
account_refusal server bootstrap_completed = refuse server 500 "storage_error"
account_refusal server token_invalid = refuse server 500 "storage_error"

unfoldable pub remove_user : Server → Request → User → String → Answer
remove_user server request actor user_id =
    on_result (user_by_id server.memory user_id) (account_refusal server) λ previous.
      let (answer, memory) = delete_user server.memory user_id in
      on_result answer (account_refusal server) λ done. (
        reply 204 no_content,
        user_audit (with_memory server memory) request actor.id "user.delete" "user" user_id
            (("username", previous.username) ∷ ("role", previous.role) ∷ []),
      )

-- UserByID, UpdateUser and what follows.
unfoldable pub change_user : Server → Request → User → String → UserUpdate → Answer
change_user server request actor user_id update =
    on_result (user_by_id server.memory user_id) (account_refusal server) λ previous.
      let (answer, memory) = update_user server.memory user_id update in
      on_result answer (account_refusal server) λ updated. (
        reply 200 (one_user (public_user updated)),
        user_audit (with_memory server memory) request actor.id "user.update" "user" updated.id (
            ("username", updated.username)
            ∷ ("previousRole", previous.role)
            ∷ ("role", updated.role)
            ∷ ("previousDisabled", bool_text previous.disabled)
            ∷ ("disabled", bool_text updated.disabled)
            ∷ ("passwordReset", bool_text (not (update.password_hash == "")))
            ∷ ("mfaReset", bool_text update.reset_mfa)
            ∷ []),
      )

-- The hash of a new password, or an empty text where none is asked for.
unfoldable pub new_password : Environment → String → Result AuthError String
new_password env password = if password == "" then ok "" else hash_password env.bcrypt password

unfoldable pub put_user_input :
    Environment → Server → Request → User → String → UserUpdateInput → Answer
unfolding change_user new_password
put_user_input env server request actor user_id input =
    if unknown_role input.role
    then refuse server 422 "invalid_role"
    else on_result (new_password env input.password)
        (λ problem. refuse server 422 "invalid_password")
        λ password_hash. change_user server request actor user_id (record {
          role = input.role;
          disabled = input.disabled;
          password_hash = password_hash;
          reset_mfa = input.reset_mfa;
        })

unfoldable pub user : Environment → Server → Request → Result DecodeError UserUpdateInput → Answer
unfolding with_user with_body put_user_input remove_user
user env server request body =
    if not (request.method == "PUT") && not (request.method == "DELETE")
    then method_not_allowed server
    else with_user env server request role_admin λ actor.
      on_option (path_id "/api/v1/users/" request.path) (refuse server 404 "not_found") λ user_id.
        if user_id == actor.id
        then refuse server 409 "self_modification"
        else if request.method == "DELETE"
        then remove_user server request actor user_id
        else with_body server body (put_user_input env server request actor user_id)
