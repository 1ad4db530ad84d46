-- ===== src/Dict.antt =====
-- Go's map with string keys, as an association list: the first entry of a key counts, a write
-- replaces the entry in place or adds one, and `delete` removes every entry of the key. Go leaves
-- the order of an iteration open; a loop over a map is a loop over this list, in whatever order it
-- stands, so a theorem about every list covers every order.
pub mod Laws
pub mod Entries
use portflow.Prelude.{
  ℕ, suc, String, Bool, true, false, Option, none, some, List, [], ◌∷◌, ◌==◌, if◌then◌else◌, ◌≡◌,
}

abbrev pub Dict {ℓ} : Type ℓ → Type ℓ
Dict V = List (String × V)

module _ {ℓ} {V : Type ℓ} where
  -- value, exists := m[key]
  unfoldable pub lookup : String → Dict V → Option V
  lookup key [] = none
  lookup key ((name, value) ∷ rest) = if name == key then some value else lookup key rest

  -- m[key], the zero value where the key is missing
  unfoldable pub get_or : V → Option V → V
  get_or d none = d
  get_or d (some v) = v

  -- m[key] = value
  unfoldable pub insert : String → V → Dict V → Dict V
  insert key value [] = (key, value) ∷ []
  insert key value ((name, old) ∷ rest) =
      if name == key then (key, value) ∷ rest else (name, old) ∷ insert key value rest

  -- delete(m, key)
  unfoldable pub remove : String → Dict V → Dict V
  remove k [] = []
  remove k ((j, v) ∷ m) = if j == k then remove k m else (j, v) ∷ remove k m

  -- for key, value := range m { if drops(value) { delete(m, key) } }
  unfoldable pub remove_where : (V → Bool) → Dict V → Dict V
  remove_where p [] = []
  remove_where p ((j, v) ∷ m) = if p v then remove_where p m else (j, v) ∷ remove_where p m

  unfoldable pub values : Dict V → List V
  values [] = []
  values ((j, v) ∷ m) = v ∷ values m

  -- No key has two entries: the shape that Go's maps always have.
  abbrev pub Distinct : Dict V → Type ℓ
  Distinct [] = Unit
  Distinct ((j, v) ∷ m) = (lookup j m ≡ none) × Distinct m
