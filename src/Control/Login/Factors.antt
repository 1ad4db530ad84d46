-- ===== src/Control/Login/Factors.antt =====
-- What a login proves: the name and the password, and the recovery code.
use portflow.Prelude.{
  String, ◌≡◌, true, false, some, arith, eq_iff, Option-cases, Result-cases, inl, inr, ok, refl,
  Bool-cases, ◌==◌,
}
use portflow.Dict.{lookup, get_or}
use portflow.Store.{Memory, User}
use portflow.Dict.Laws.{lookup-insert}
use portflow.Store.Users.{user_by_username, consume_recovery_code, without_code}
use portflow.Store.Users.Index.{IsIndexed, name_of}
use portflow.Control.Http.{Environment, public_user}
use portflow.Control.Login.{credentials}

pub record Presents (env : Environment) (m : Memory) (username password : String) (user : User)
    : Type 0 where
  pub stored : lookup user.id m.users ≡ some user
  pub named : user.username ≡ username
  pub active : user.disabled ≡ false
  pub matches : env.check_password user.password_hash password ≡ true

named_account :
    (m : Memory) (username : String) (user : User)
    → IsIndexed m
    → user_by_username m username ≡ ok user
    → (lookup user.id m.users ≡ some user) × (user.username ≡ username)
unfolding user_by_username name_of get_or
named_account m username user v e = elim (Option-cases (lookup username m.usernames)) [
  | inl n ↦ ground (arith, n)
  | inr (id, n) ↦ elim (Option-cases (lookup id m.users)) [
    | inl u ↦ ground (arith, n, u, v.owned username id n)
    | inr (other, u) ↦ ground (arith, n, u, v.keyed id other u, v.owned username id n)
  ]
]

pub credentials-Presents :
    (env : Environment) (m : Memory) (username password : String) (user : User)
    → IsIndexed m
    → credentials env m username password ≡ some user
    → Presents env m username password user
unfolding credentials
credentials-Presents env m username password user v e =
    elim (Result-cases (user_by_username m username)) [
      | inl (problem, n) ↦ absurd (ground (arith, n))
      | inr (other, n) ↦
          let found = named_account m username other v n in
          record {
            stored = ground (arith, n, found.0);
            named = ground (arith, n, found.1);
            active = ground (arith, n);
            matches = ground (arith, n);
          }
    ]

-- A recovery code that is consumed leaves every account there, and active where it was.
pub consumed_account :
    (m : Memory) (id hash other : String) (user : User)
    → lookup other m.users ≡ some user
    → (left : User) × (lookup other (consume_recovery_code m id hash).1.users ≡ some left)
      × (left.disabled ≡ user.disabled)
      × (public_user left ≡ public_user user)
unfolding consume_recovery_code public_user
consumed_account m id hash other user found = elim (Option-cases (lookup id m.users)) [
  | inl e ↦ rw e (user, found, refl, refl)
  | inr (target, e) ↦ elim (Option-cases (without_code hash target.mfa_recovery_hashes)) [
    | inl n ↦ rw (e, n) (user, found, refl, refl)
    | inr (kept, n) ↦
        let left = record target { mfa_recovery_hashes = kept } in
        let there = lookup-insert id other left m.users in
        elim (Bool-cases (id == other)) [
          | inl eq ↦
              rw (e, n)
                (
                  left,
                  ground (arith, there, eq),
                  ground (arith, eq_iff id other),
                  ground (arith, eq_iff id other),
                )
          | inr ne ↦ rw (e, n) (user, ground (arith, there, ne), refl, refl)
        ]
  ]
]
