-- ===== src/Dict/Entries.antt =====
-- Loops over a dictionary's entries: distinct keys are kept by every write, and the number of
-- entries that pass a test changes with the one entry that is written.
use portflow.Prelude.{
  ℕ, suc, ◌≤◌, length, ◌+◌, String, ◌≡◌, refl, Bool, none, some, [], ◌∷◌, arith, eq_iff,
  if◌then◌else◌,
}
use portflow.Dict.{Dict, lookup, insert, remove, remove_where, Distinct}
use portflow.Dict.Laws.{lookup-insert, lookup-remove, lookup-remove_where-none}

abbrev pub unit_if : Bool → ℕ
unit_if b = if b then 1 else 0

module _ {ℓ} {V : Type ℓ} where
  pub insert-Distinct : (k : String) (v : V) (m : Dict V) → Distinct m → Distinct (insert k v m)
  unfolding insert lookup
  insert-Distinct k v [] d = (refl, tt)
  insert-Distinct k v ((j, w) ∷ m) d =
      ground (arith, eq_iff j k, eq_iff k j, lookup-insert k j v m, insert-Distinct k v m d.1)

  pub remove-Distinct : (k : String) (m : Dict V) → Distinct m → Distinct (remove k m)
  unfolding remove
  remove-Distinct k [] d = tt
  remove-Distinct k ((j, w) ∷ m) d = ground (arith, lookup-remove k j m, remove-Distinct k m d.1)

  pub remove_where-Distinct : (p : V → Bool) (m : Dict V) → Distinct m → Distinct (remove_where p m)
  unfolding remove_where
  remove_where-Distinct p [] d = tt
  remove_where-Distinct p ((j, w) ∷ m) d =
      ground (arith, lookup-remove_where-none p j m, remove_where-Distinct p m d.1)

  -- How many entries pass a test.
  unfoldable pub count : (V → Bool) → Dict V → ℕ
  count p [] = 0
  count p ((j, v) ∷ m) = if p v then suc (count p m) else count p m

  pub count-le-length : (p : V → Bool) (m : Dict V) → count p m ≤ length m
  unfolding count
  count-le-length p [] = omega arith
  count-le-length p ((j, v) ∷ m) = ground (arith, count-le-length p m)

  pub count-insert :
      (p : V → Bool) (k : String) (v w : V) (m : Dict V)
      → lookup k m ≡ some w
      → count p (insert k v m) + unit_if (p w) ≡ count p m + unit_if (p v)
  unfolding count insert lookup
  count-insert p k v w [] h = cc
  count-insert p k v w ((j, u) ∷ m) h = ground (arith, count-insert p k v w m)

  pub count-insert_new :
      (p : V → Bool) (k : String) (v : V) (m : Dict V)
      → lookup k m ≡ none
      → count p (insert k v m) ≡ count p m + unit_if (p v)
  unfolding count insert lookup
  count-insert_new p k v [] h = ground arith
  count-insert_new p k v ((j, u) ∷ m) h = ground (arith, count-insert_new p k v m)

  pub remove_missing : (k : String) (m : Dict V) → lookup k m ≡ none → remove k m ≡ m
  unfolding remove lookup
  remove_missing k [] h = refl
  remove_missing k ((j, u) ∷ m) h = ground (arith, remove_missing k m)

  pub count-remove :
      (p : V → Bool) (k : String) (w : V) (m : Dict V)
      → Distinct m
      → lookup k m ≡ some w
      → count p (remove k m) + unit_if (p w) ≡ count p m
  unfolding count remove lookup
  count-remove p k w [] d h = cc
  count-remove p k w ((j, u) ∷ m) d h =
      ground (arith, eq_iff j k, remove_missing k m, count-remove p k w m d.1)
