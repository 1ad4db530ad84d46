-- ===== src/Dict/Laws.antt =====
-- Reads of a dictionary after a write, a deletion or a conditional sweep.
use portflow.Prelude.{
  String, ◌≡◌, refl, Bool, false, none, some, [], ◌∷◌, arith, ◌==◌, eq_iff, if◌then◌else◌,
}
use portflow.Dict.{Dict, lookup, insert, remove, remove_where, Distinct}

module _ {ℓ} {V : Type ℓ} where
  -- A write changes what is read under its own key and nothing else.
  pub lookup-insert :
      (written read : String) (value : V) (m : Dict V)
      → lookup read (insert written value m)
        ≡ (if written == read then some value else lookup read m)
  unfolding insert lookup
  lookup-insert written read value [] = refl
  lookup-insert written read value ((key, old) ∷ rest) = ground (
    arith,
    eq_iff written read,
    eq_iff key read,
    eq_iff key written,
    lookup-insert written read value rest,
  )

  pub lookup-remove :
      (k j : String) (m : Dict V) → lookup j (remove k m) ≡ (if k == j then none else lookup j m)
  unfolding lookup remove
  lookup-remove k j [] = ground arith
  lookup-remove k j ((i, w) ∷ m) =
      ground (arith, eq_iff k j, eq_iff i k, eq_iff i j, lookup-remove k j m)

  -- A swept dictionary answers with an entry that it had and that the sweep spares.
  pub lookup-remove_where :
      (p : V → Bool) (j : String) (m : Dict V) (v : V)
      → Distinct m
      → lookup j (remove_where p m) ≡ some v
      → (lookup j m ≡ some v) × (p v ≡ false)
  unfolding lookup remove_where
  lookup-remove_where p j [] v d h = cc
  lookup-remove_where p j ((i, w) ∷ m) v d h =
      ground (arith, eq_iff i j, lookup-remove_where p j m v d.1)

  pub lookup-remove_where_kept :
      (p : V → Bool) (j : String) (m : Dict V) (v : V)
      → lookup j m ≡ some v
      → p v ≡ false
      → lookup j (remove_where p m) ≡ some v
  unfolding lookup remove_where
  lookup-remove_where_kept p j [] v h q = cc
  lookup-remove_where_kept p j ((i, w) ∷ m) v h q =
      ground (arith, eq_iff i j, lookup-remove_where_kept p j m v)

  pub lookup-remove_where-none :
      (p : V → Bool) (j : String) (m : Dict V)
      → lookup j m ≡ none
      → lookup j (remove_where p m) ≡ none
  unfolding lookup remove_where
  lookup-remove_where-none p j [] h = refl
  lookup-remove_where-none p j ((i, w) ∷ m) h =
      ground (arith, eq_iff i j, lookup-remove_where-none p j m)
