-- ===== src/Control/Api/Refines/Accounts.antt =====
-- The handlers users and user of
-- internal/control/server.go, as operations of the store.
use portflow.Prelude.{if◌then◌else◌, ◌==◌, ◌&&◌, not, String, ◌≡◌, some, Result}
use portflow.Dict.{lookup}
use portflow.Domain.{Net}
use portflow.Store.{User, UserUpdate, role_admin, role_member}
use portflow.Store.Users.{
  create_user, update_user, delete_user, user_by_id, creates, updates, deletes, account_step,
}
use portflow.Auth.{normalize_username, hash_password}
use portflow.Control.Login.{fresh_user}
use portflow.Control.Http.{
  Request, Environment, Fresh, Server, Response, DecodeError, session_token, path_id,
}
use portflow.Control.Users.{
  UserInput, UserUpdateInput, users, user, add_user, post_user, remove_user, change_user,
  put_user_input, account_refusal, unknown_role, new_password,
}
use portflow.Control.Api.Refines.Sessions.{asker_account}
use portflow.Control.Api.Steps.{
  Leads, stays, after, account_change, Reached, Leads-Reached, on_option-Reached, errors-Reached,
  on_result-Reached, if-Reached, with_body-Reached, audit-Leads, with_user-Reached,
}

module _ (net : Net) (env : Environment) (server : Server) (request : Request) where
  same : (response : Response) → Reached net server.memory (response, server)
  same response = Leads-Reached net server.memory (response, server) stays

  -- What an account asks for, by the account's place in the store.
  module _ (id : String) (actor : User) (found : lookup id server.memory.users ≡ some actor) where
    post_user-Reached :
        (fresh : Fresh) (input : UserInput)
        → Reached net server.memory (post_user env server request fresh actor input)
    unfolding post_user add_user account_step
    post_user-Reached fresh input =
        on_result-Reached net server.memory (normalize_username input.username) _ _
          (λ problem. same _)
          λ username e.
            if-Reached net server.memory
              (unknown_role (if input.role == "" then role_member else input.role)) _ _
              (λ f. same _)
              λ f.
                on_result-Reached net server.memory (hash_password env.bcrypt input.password) _ _
                  (λ problem. same _)
                  λ hash g. on_option-Reached net server.memory fresh.id _ _ (same _) λ new_id h.
                    let created =
                      fresh_user new_id username hash
                        (if input.role == "" then role_member else input.role) request.now in
                    let call : Leads net server.memory (create_user server.memory created).1 =
                      after stays (account_change server.memory (creates created) id actor found) in
                    on_result-Reached net server.memory (create_user server.memory created).0 _ _
                      (errors-Reached net server.memory _ (same _) (same _) (same _) (same _)
                        (same _))
                      λ done k.
                        Leads-Reached net server.memory _
                          (audit-Leads net server.memory _ request _ _ _ _ _ _ call)

    remove_user-Reached :
        (user_id : String) → Reached net server.memory (remove_user server request actor user_id)
    unfolding remove_user account_step
    remove_user-Reached user_id =
        let errors =
          errors-Reached net server.memory (account_refusal server) (same _) (same _) (same _)
            (same _) (same _) in
        let call : Leads net server.memory (delete_user server.memory user_id).1 =
          after stays (account_change server.memory (deletes user_id) id actor found) in
        on_result-Reached net server.memory (user_by_id server.memory user_id) _ _ errors
          λ previous e.
            on_result-Reached net server.memory (delete_user server.memory user_id).0 _ _ errors
              λ done f.
                Leads-Reached net server.memory _
                  (audit-Leads net server.memory _ request _ _ _ _ _ _ call)

    change_user-Reached :
        (user_id : String) (update : UserUpdate)
        → Reached net server.memory (change_user server request actor user_id update)
    unfolding change_user account_step
    change_user-Reached user_id update =
        let errors =
          errors-Reached net server.memory (account_refusal server) (same _) (same _) (same _)
            (same _) (same _) in
        let call : Leads net server.memory (update_user server.memory user_id update).1 =
          after stays (account_change server.memory (updates user_id update) id actor found) in
        on_result-Reached net server.memory (user_by_id server.memory user_id) _ _ errors
          λ previous e.
            on_result-Reached net server.memory (update_user server.memory user_id update).0 _ _
              errors
              λ done f.
                Leads-Reached net server.memory _
                  (audit-Leads net server.memory _ request _ _ _ _ _ _ call)

    put_user_input-Reached :
        (user_id : String) (input : UserUpdateInput)
        → Reached net server.memory (put_user_input env server request actor user_id input)
    unfolding put_user_input
    put_user_input-Reached user_id input =
        if-Reached net server.memory (unknown_role input.role) _ _ (λ e. same _)
          λ e.
            on_result-Reached net server.memory (new_password env input.password) _ _
              (λ problem. same _) λ hash f. change_user-Reached user_id _

  pub users-Reached :
      (fresh : Fresh) (body : Result DecodeError UserInput)
      → Reached net server.memory (users env server request fresh body)
  unfolding users
  users-Reached fresh body =
      with_user-Reached net server.memory env server request role_admin _ stays λ session actor e.
        if-Reached net server.memory (request.method == "GET") _ _ (λ f. same _)
          λ f.
            if-Reached net server.memory (request.method == "POST") _ _
              (λ g. with_body-Reached net server.memory server body _ stays (
                post_user-Reached session.user_id actor
                  (asker_account env server.memory (session_token request) request.now role_admin
                    session actor e).account
                  fresh))
              (λ g. same _)

  pub user-Reached :
      (body : Result DecodeError UserUpdateInput)
      → Reached net server.memory (user env server request body)
  unfolding user
  user-Reached body =
      if-Reached net server.memory
        (not (request.method == "PUT") && not (request.method == "DELETE")) _ _ (λ f. same _)
        λ f.
          with_user-Reached net server.memory env server request role_admin _ stays
            λ session actor e.
              let found =
                (asker_account env server.memory (session_token request) request.now role_admin
                  session actor e).account in
              on_option-Reached net server.memory (path_id "/api/v1/users/" request.path) _ _
                (same _)
                λ user_id g.
                  if-Reached net server.memory (user_id == actor.id) _ _ (λ h. same _)
                    λ h.
                      if-Reached net server.memory (request.method == "DELETE") _ _
                        (λ k. remove_user-Reached session.user_id actor found user_id)
                        (λ k.
                          with_body-Reached net server.memory server body _ stays
                            (put_user_input-Reached session.user_id actor found user_id))
