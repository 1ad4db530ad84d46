-- ===== src/Store/Users/Index.antt =====
-- When the two account maps agree: `users` is keyed by the accounts' identifiers, and `usernames` is
-- exactly the index of `users` by name.
use portflow.Prelude.{
  String, ◌≡◌, refl, [], ◌∷◌, Option, none, some, true, arith, eq_iff, Option-cases, length, eqb,
  inl, inr,
}
use portflow.Dict.{Dict, lookup, insert, remove, Distinct}
use portflow.Dict.Laws.{lookup-insert, lookup-remove}
use portflow.Dict.Entries.{insert-Distinct, remove-Distinct}
use portflow.Store.{Memory, User}
use portflow.Store.Users.{put_user}

abbrev pub name_of : Option User → Option String
name_of none = none
name_of (some u) = some u.username

pub record IsIndexed (m : Memory) : Type 0 where
  pub distinct : Distinct m.users
  pub keyed : (k : String) (u : User) → lookup k m.users ≡ some u → u.id ≡ k
  pub named :
      (k : String) (u : User) → lookup k m.users ≡ some u → lookup u.username m.usernames ≡ some k
  pub owned : (n k : String) → lookup n m.usernames ≡ some k → name_of (lookup k m.users) ≡ some n

pub empty_lookup {ℓ} :
    {V : Type ℓ} (m : Dict V) (k : String) → eqb (length m) 0 ≡ true → lookup k m ≡ none
unfolding lookup
empty_lookup [] k h = refl
empty_lookup (e ∷ m) k h = ground arith

pub empty_names :
    (m : Memory) (n : String)
    → IsIndexed m
    → eqb (length m.users) 0 ≡ true
    → lookup n m.usernames ≡ none
empty_names m n v h = elim (Option-cases (lookup n m.usernames)) [
  | inl e ↦ e
  | inr (k, e) ↦ ground (arith, v.owned n k e, empty_lookup m.users k h)
]

-- A new account under an identifier and a name that nobody has.
pub put_user-IsIndexed :
    (m : Memory) (user : User)
    → lookup user.id m.users ≡ none
    → lookup user.username m.usernames ≡ none
    → IsIndexed m
    → IsIndexed (put_user m user)
put_user-IsIndexed m user new_id new_name v = record {
  distinct = insert-Distinct user.id user m.users v.distinct;
  keyed =
      λ k u h. ground (arith, lookup-insert user.id k user m.users, eq_iff user.id k, v.keyed k u);
  named = λ k u h. ground (
    arith,
    lookup-insert user.id k user m.users,
    eq_iff user.id k,
    v.named k u,
    lookup-insert user.username u.username user.id m.usernames,
    eq_iff user.username u.username,
  );
  owned = λ n k h. ground (
    arith,
    lookup-insert user.username n user.id m.usernames,
    eq_iff user.username n,
    v.owned n k,
    lookup-insert user.id k user m.users,
    eq_iff user.id k,
  );
}

-- An account written back under its identifier and name. `m'` differs from `m` in other maps.
pub rewrite-IsIndexed :
    (m m' : Memory) (k : String) (old user : User)
    → lookup k m.users ≡ some old
    → user.id ≡ old.id
    → user.username ≡ old.username
    → m'.users ≡ insert k user m.users
    → m'.usernames ≡ m.usernames
    → IsIndexed m
    → IsIndexed m'
rewrite-IsIndexed m m' k old user found same_id same_name us ns v = record {
  distinct = rw us (insert-Distinct k user m.users v.distinct);
  keyed = λ j u.
      rw us (λ h.
        ground (arith, lookup-insert k j user m.users, eq_iff k j, v.keyed j u, v.keyed k old));
  named = λ j u.
      rw (us, ns)
        (λ h.
          ground (arith, lookup-insert k j user m.users, eq_iff k j, v.named j u, v.named k old));
  owned = λ n j.
      rw (us, ns) (λ h. ground (arith, lookup-insert k j user m.users, eq_iff k j, v.owned n j));
}

-- An account that leaves both maps.
pub remove-IsIndexed :
    (m m' : Memory) (k : String) (user : User)
    → lookup k m.users ≡ some user
    → m'.users ≡ remove k m.users
    → m'.usernames ≡ remove user.username m.usernames
    → IsIndexed m
    → IsIndexed m'
remove-IsIndexed m m' k user found us ns v = record {
  distinct = rw us (remove-Distinct k m.users v.distinct);
  keyed = λ j u. rw us (λ h. ground (arith, lookup-remove k j m.users, v.keyed j u));
  named = λ j u.
      rw (us, ns)
        (λ h. ground (
          arith,
          lookup-remove k j m.users,
          eq_iff k j,
          v.named j u,
          v.named k user,
          lookup-remove user.username u.username m.usernames,
          eq_iff user.username u.username,
        ));
  owned = λ n j.
      rw (us, ns)
        (λ h. ground (
          arith,
          lookup-remove user.username n m.usernames,
          eq_iff user.username n,
          v.owned n j,
          lookup-remove k j m.users,
          eq_iff k j,
        ));
}
