-- ===== src/Store/Users/Recovery.antt =====
-- ConsumeRecoveryCode of internal/store/memory.go and the codes that are left.
use portflow.Prelude.{
  ℕ, ◌+◌, String, ◌≡◌, refl, List, [], ◌∷◌, Option, eq_refl, none, some, true, false, arith, ◌==◌,
  ◌⊎◌, eq_iff, Option-cases, Bool-cases, ok, inl, inr, if◌then◌else◌, suc,
}
use portflow.Dict.{lookup}
use portflow.Dict.Laws.{lookup-insert}
use portflow.Store.{Memory, User}
use portflow.Store.Users.{consume_recovery_code, without_code}

-- How many of the account's hashes are this one.
pub codes_left : String → List String → ℕ
codes_left hash [] = 0
codes_left hash (h ∷ rest) = if h == hash then suc (codes_left hash rest) else codes_left hash rest

pub hashes_of : Option User → List String
hashes_of none = []
hashes_of (some u) = u.mfa_recovery_hashes

without_code-codes_left :
    (hash other : String) (hs kept : List String)
    → without_code hash hs ≡ some kept
    → codes_left other hs ≡ codes_left other kept + (if other == hash then 1 else 0)
unfolding without_code codes_left
without_code-codes_left hash other [] kept e = ground arith
without_code-codes_left hash other (h ∷ hs) kept e = elim (Bool-cases (h == hash)) [
  | inl hit ↦ ground (arith, eq_iff h hash, eq_iff other hash, eq_iff h other)
  | inr miss ↦ elim (Option-cases (without_code hash hs)) [
    | inl n ↦ ground arith
    | inr (rest, n) ↦ ground (arith, without_code-codes_left hash other hs rest n)
  ]
]

without_code-none :
    (hash : String) (hs : List String) → without_code hash hs ≡ none → codes_left hash hs ≡ 0
unfolding without_code codes_left
without_code-none hash [] e = refl
without_code-none hash (h ∷ hs) e = ground (arith, without_code-none hash hs)

none-without_code :
    (hash : String) (hs : List String) → codes_left hash hs ≡ 0 → without_code hash hs ≡ none
unfolding without_code codes_left
none-without_code hash [] e = refl
none-without_code hash (h ∷ hs) e = ground (arith, none-without_code hash hs)

-- ConsumeRecoveryCode on an account: with no matching hash it answers false and changes nothing;
-- else it answers true, and the account keeps its other hashes, as often as before, and one
-- matching hash less.
pub consume_recovery_code-codes_left :
    (m : Memory) (id hash : String) (user : User)
    → lookup id m.users ≡ some user
    → ((codes_left hash user.mfa_recovery_hashes ≡ 0)
        × (consume_recovery_code m id hash ≡ (ok false, m)))
      ⊎ (((consume_recovery_code m id hash).0 ≡ ok true)
          × ((other : String)
              → codes_left other user.mfa_recovery_hashes
                ≡ codes_left other (hashes_of (lookup id (consume_recovery_code m id hash).1.users))
                  + (if other == hash then 1 else 0)))
unfolding consume_recovery_code hashes_of
consume_recovery_code-codes_left m id hash user found =
    elim (Option-cases (without_code hash user.mfa_recovery_hashes)) [
      | inl n ↦ inl (without_code-none hash user.mfa_recovery_hashes n, rw found (rw n))
      | inr (kept, n) ↦ inr (
        rw found (rw n),
        λ other. rw found (
            rw
              (
                n,
                lookup-insert id id (record user { mfa_recovery_hashes = kept }) m.users,
                eq_refl id,
              )
              (without_code-codes_left hash other user.mfa_recovery_hashes kept n)),
      )
    ]
