-- ===== src/Examples/Accounts.antt =====
-- Account, session and enrollment operations on a small store.
use portflow.Prelude.{
  ◌+◌, ◌≤◌, String, ◌≡◌, ◌⊎◌, refl, true, false, none, [], ◌∷◌, arith, ◌==◌, eq_iff, ok, err,
  if◌then◌else◌,
}
use portflow.Dict.{lookup}
use portflow.Dict.Entries.{count}
use portflow.Store.{
  Memory, User, UserUpdate, Session, EnrollmentToken, AgentIdentity, new_memory, role_admin,
  role_member, last_administrator,
}
use portflow.Store.Users.{
  update_user, updated_user, run_accounts, updates, deletes, active_administrators,
  consume_recovery_code,
}
use portflow.Store.Users.Index.{IsIndexed}
use portflow.Store.Users.Administrators.{run_accounts-admins}
use portflow.Store.Users.Recovery.{codes_left, hashes_of, consume_recovery_code-codes_left}
use portflow.Store.Sessions.{create_session, session_user_by_token_hash}
use portflow.Store.Sessions.Lifetime.{session_lifetime}

abbrev ann : User
ann = record {
  id = "u1";
  username = "ann";
  password_hash = "h";
  role = role_admin;
  disabled = false;
  mfa_enabled = true;
  mfa_secret = "s";
  mfa_recovery_hashes = "c1" ∷ "c2" ∷ [];
  created_at = 1;
}

abbrev bob : User
bob = record ann { id = "u2"; username = "bob"; role = role_member; created_at = 2 }

abbrev ann_session : Session
ann_session = record {
  id = "s1";
  user_id = "u1";
  token_hash = "t1";
  expires_at = 50;
  created_at = 1;
}

abbrev bob_session : Session
bob_session = record ann_session { id = "s2"; user_id = "u2"; token_hash = "t2" }

abbrev ticket : EnrollmentToken
ticket = record {
  id = "e1";
  name = "edge";
  token_hash = "x1";
  created_by = "u1";
  expires_at = 50;
  created_at = 1;
  used_at = none;
}

abbrev edge : AgentIdentity
edge = record {
  id = "n1";
  name = "edge";
  region = "";
  public_ip = "192.0.2.1";
  architecture = "amd64";
  agent_version = "1";
  credential_hash = "k";
  created_at = 3;
}

abbrev office : Memory
office = record new_memory {
  users = ("u1", ann) ∷ ("u2", bob) ∷ [];
  usernames = ("ann", "u1") ∷ ("bob", "u2") ∷ [];
  sessions = ("t1", ann_session) ∷ ("t2", bob_session) ∷ [];
  enrollment_tokens = ("x1", ticket) ∷ [];
}

abbrev demotion : UserUpdate
demotion = record { role = role_member; disabled = false; password_hash = ""; reset_mfa = false }

office-IsIndexed : IsIndexed office
unfolding lookup
office-IsIndexed = record {
  distinct = (refl, (refl, tt));
  keyed = λ k u h. ground (arith, eq_iff "u1" k, eq_iff "u2" k);
  named = λ k u h. ground (
    arith,
    eq_iff "u1" k,
    eq_iff "u2" k,
    eq_iff "ann" u.username,
    eq_iff "bob" u.username,
    eq_iff "ann" "bob",
  );
  owned = λ n k h.
      ground
        (arith, eq_iff "ann" n, eq_iff "bob" n, eq_iff "u1" k, eq_iff "u2" k, eq_iff "u1" "u2");
}

run_accounts-admins_example :
    1 ≤ active_administrators (run_accounts office (updates "u1" demotion ∷ deletes "u1" ∷ []))
unfolding count
run_accounts-admins_example =
    run_accounts-admins office (updates "u1" demotion ∷ deletes "u1" ∷ []) office-IsIndexed
      (omega arith)

consume_recovery_code-codes_left_example :
    ((codes_left "c1" ann.mfa_recovery_hashes ≡ 0)
      × (consume_recovery_code office "u1" "c1" ≡ (ok false, office)))
    ⊎ (((consume_recovery_code office "u1" "c1").0 ≡ ok true)
        × ((other : String)
            → codes_left other ann.mfa_recovery_hashes
              ≡ codes_left other
                  (hashes_of (lookup "u1" (consume_recovery_code office "u1" "c1").1.users))
                + (if other == "c1" then 1 else 0)))
unfolding lookup
consume_recovery_code-codes_left_example =
    consume_recovery_code-codes_left office "u1" "c1" ann refl

session_lifetime_example :
    session_user_by_token_hash
      (create_session office (record bob_session { token_hash = "t3" })).1
      "t3"
      10
    ≡ ok (record bob_session { token_hash = "t3" }, bob)
unfolding lookup
session_lifetime_example =
    (session_lifetime office (record bob_session { token_hash = "t3" }) bob 10 refl refl
      (omega arith)).0

-- The last administrator cannot be demoted; the member can.
demotions :
    ((update_user office "u1" demotion).0 ≡ err last_administrator)
    × ((update_user office "u2" demotion).0 ≡ ok bob)
unfolding update_user updated_user lookup count
demotions = (refl, refl)
