-- ===== src/Store/Users/Indexed.antt =====
-- The two account maps across the operations on accounts of internal/store/memory.go.
use portflow.Prelude.{
  String, ◌≡◌, refl, Bool, List, [], ◌∷◌, arith, Option-cases, Bool-cases, subst, sym, length, eqb,
  ok, inl, inr, err, ◌⊎◌,
}
use portflow.Dict.{lookup, get_or}
use portflow.Store.{Memory, User, UserUpdate, new_memory, not_found}
use portflow.Store.Users.{
  create_initial_user, create_user, update_user, updated_user, delete_user, set_user_mfa,
  consume_recovery_code, without_code, user_by_username, user_by_id, AccountCall, creates_initial,
  creates, updates, deletes, sets_mfa, consumes, account_step, run_accounts, demotes_last,
  is_last_admin,
}
use portflow.Store.Users.Index.{
  IsIndexed, empty_lookup, put_user-IsIndexed, rewrite-IsIndexed, remove-IsIndexed, empty_names,
}

create_initial_user-IsIndexed :
    (m : Memory) (user : User) → IsIndexed m → IsIndexed (create_initial_user m user).1
unfolding create_initial_user
create_initial_user-IsIndexed m user v = elim (Bool-cases (eqb (length m.users) 0)) [
  | inl e ↦ rw e (
      put_user-IsIndexed m user (empty_lookup m.users user.id e) (empty_names m user.username v e)
        v)
  | inr e ↦ rw e v
]

create_user-IsIndexed : (m : Memory) (user : User) → IsIndexed m → IsIndexed (create_user m user).1
unfolding create_user
create_user-IsIndexed m user v = elim (Option-cases (lookup user.id m.users)) [
  | inr (other, e) ↦ rw e v
  | inl e ↦ elim (Option-cases (lookup user.username m.usernames)) [
    | inr (id, n) ↦ rw (e, n) v
    | inl n ↦ rw (e, n) (put_user-IsIndexed m user e n v)
  ]
]

update_user-IsIndexed :
    (m : Memory) (id : String) (update : UserUpdate)
    → IsIndexed m
    → IsIndexed (update_user m id update).1
unfolding update_user updated_user
update_user-IsIndexed m id update v = elim (Option-cases (lookup id m.users)) [
  | inl e ↦ rw e v
  | inr (user, e) ↦ elim (Bool-cases (demotes_last m user update)) [
    | inl refused ↦ rw (e, refused) v
    | inr done ↦
        rw (e, done)
          (rewrite-IsIndexed m _ id user (updated_user user update) e refl refl refl refl v)
  ]
]

delete_user-IsIndexed : (m : Memory) (id : String) → IsIndexed m → IsIndexed (delete_user m id).1
unfolding delete_user
delete_user-IsIndexed m id v = elim (Option-cases (lookup id m.users)) [
  | inl e ↦ rw e v
  | inr (user, e) ↦ elim (Bool-cases (is_last_admin m user)) [
    | inl refused ↦ rw (e, refused) v
    | inr done ↦ rw (e, done) (remove-IsIndexed m _ id user e refl refl v)
  ]
]

set_user_mfa-IsIndexed :
    (m : Memory) (id : String) (enabled : Bool) (secret : String) (hashes : List String)
    → IsIndexed m
    → IsIndexed (set_user_mfa m id enabled secret hashes).1
unfolding set_user_mfa
set_user_mfa-IsIndexed m id enabled secret hashes v = elim (Option-cases (lookup id m.users)) [
  | inl e ↦ rw e v
  | inr (user, e) ↦ rw e (rewrite-IsIndexed m _ id user _ e refl refl refl refl v)
]

consume_recovery_code-IsIndexed :
    (m : Memory) (id hash : String) → IsIndexed m → IsIndexed (consume_recovery_code m id hash).1
unfolding consume_recovery_code
consume_recovery_code-IsIndexed m id hash v = elim (Option-cases (lookup id m.users)) [
  | inl e ↦ rw e v
  | inr (user, e) ↦ elim (Option-cases (without_code hash user.mfa_recovery_hashes)) [
    | inl n ↦ rw (e, n) v
    | inr (kept, s) ↦ rw (e, s) (rewrite-IsIndexed m _ id user _ e refl refl refl refl v)
  ]
]

-- From accounts whose two maps agree, each account operation, refused or not, leaves them so.
pub account_step-IsIndexed :
    (m : Memory) (call : AccountCall) → IsIndexed m → IsIndexed (account_step m call)
unfolding account_step
account_step-IsIndexed m (creates_initial user) v = create_initial_user-IsIndexed m user v
account_step-IsIndexed m (creates user) v = create_user-IsIndexed m user v
account_step-IsIndexed m (updates id update) v = update_user-IsIndexed m id update v
account_step-IsIndexed m (deletes id) v = delete_user-IsIndexed m id v
account_step-IsIndexed m (sets_mfa id e s hs) v = set_user_mfa-IsIndexed m id e s hs v
account_step-IsIndexed m (consumes id hash) v = consume_recovery_code-IsIndexed m id hash v

run_accounts-IsIndexed :
    (m : Memory) (calls : List AccountCall) → IsIndexed m → IsIndexed (run_accounts m calls)
unfolding run_accounts
run_accounts-IsIndexed m [] v = v
run_accounts-IsIndexed m (call ∷ calls) v =
    run_accounts-IsIndexed (account_step m call) calls (account_step-IsIndexed m call v)

pub new_memory-IsIndexed : IsIndexed new_memory
unfolding lookup
new_memory-IsIndexed = record {
  distinct = tt;
  keyed = λ k u h. ground arith;
  named = λ k u h. ground arith;
  owned = λ n k h. ground arith;
}

-- After any history of account operations on a new store, a look-up by name gives either
-- ErrNotFound or an account that has that name and that a look-up by its identifier gives too.
user_by_username-user_by_id :
    (calls : List AccountCall) (name : String)
    → let m = run_accounts new_memory calls in
      (user_by_username m name ≡ err not_found)
      ⊎ ((u : User) × (user_by_username m name ≡ ok u)
          × (u.username ≡ name)
          × (user_by_id m u.id ≡ ok u))
unfolding user_by_username user_by_id get_or
user_by_username-user_by_id calls name =
    let m = run_accounts new_memory calls in
    let v = run_accounts-IsIndexed new_memory calls new_memory-IsIndexed in
    elim (Option-cases (lookup name m.usernames)) [
      | inl e ↦ inl (rw e)
      | inr (k, e) ↦ elim (Option-cases (lookup k m.users)) [
        | inl f ↦ absurd (ground (arith, v.owned name k e))
        | inr (u, f) ↦ inr (
          u,
          rw e (rw f),
          ground (arith, v.owned name k e),
          subst (λ j. user_by_id m j ≡ ok u) (sym (v.keyed k u f)) (rw f),
        )
      ]
    ]
