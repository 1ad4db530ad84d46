-- ===== src/Store/Telemetry/Connections.antt =====
-- The number of the connections that are kept of a node, internal/store/memory.go.
use portflow.Prelude.{
  ℕ, zero, suc, ◌+◌, ◌≤◌, ◌≡◌, refl, ap, ◌∙◌, String, Bool, true, not, ◌&&◌, List, [], ◌∷◌, ◌==◌,
  eq_iff, eq_refl, ltb, arith, length, length-keep, keep, take, drop, sort_by, place, Bool-cases,
  inl, inr,
}
use portflow.Dict.{Dict, insert, remove, values}
use portflow.Store.{ActiveConnection, max_stored_connections_per_node}
use portflow.Store.Telemetry.{add_connections, is_newer, remove_connections, trim_connections}

-- Every entry stands under its connection's identifier.
abbrev pub IsKeyed : Dict ActiveConnection → Type 0
IsKeyed [] = Unit
IsKeyed ((key, connection) ∷ stored) = (connection.connection_id ≡ key) × IsKeyed stored

insert-IsKeyed :
    (key : String) (connection : ActiveConnection) (stored : Dict ActiveConnection)
    → connection.connection_id ≡ key
    → IsKeyed stored
    → IsKeyed (insert key connection stored)
unfolding insert
insert-IsKeyed key connection [] same k = (same, tt)
insert-IsKeyed key connection ((j, c) ∷ stored) same k =
    ground (arith, insert-IsKeyed key connection stored same k.1)

pub add_connections-IsKeyed :
    (node_id : String) (received_at : ℕ) (connections : List ActiveConnection)
    (stored : Dict ActiveConnection)
    → IsKeyed stored
    → IsKeyed (add_connections node_id received_at connections stored)
unfolding add_connections
add_connections-IsKeyed node_id received_at [] stored k = k
add_connections-IsKeyed node_id received_at (c ∷ connections) stored k =
    add_connections-IsKeyed node_id received_at connections
      (insert c.connection_id (record c { node_id = node_id; observed_at = received_at }) stored)
      (insert-IsKeyed c.connection_id (record c { node_id = node_id; observed_at = received_at })
        stored refl k)

-- The entry is none of those that are removed.
unfoldable spared : List ActiveConnection → ActiveConnection → Bool
spared [] c = true
spared (gone ∷ dropped) c = not (c.connection_id == gone.connection_id) && spared dropped c

remove-IsKeyed :
    (key : String) (stored : Dict ActiveConnection) → IsKeyed stored → IsKeyed (remove key stored)
unfolding remove
remove-IsKeyed key [] k = tt
remove-IsKeyed key ((j, c) ∷ stored) k = ground (arith, remove-IsKeyed key stored k.1)

remove_connections-IsKeyed :
    (dropped : List ActiveConnection) (stored : Dict ActiveConnection)
    → IsKeyed stored
    → IsKeyed (remove_connections dropped stored)
unfolding remove_connections
remove_connections-IsKeyed [] stored k = k
remove_connections-IsKeyed (gone ∷ dropped) stored k =
    remove_connections-IsKeyed dropped (remove gone.connection_id stored)
      (remove-IsKeyed gone.connection_id stored k)

-- How many values pass a test, through a removal, a sort and a split.
keep-values-remove :
    (p : ActiveConnection → Bool) (gone : ActiveConnection) (stored : Dict ActiveConnection)
    → IsKeyed stored
    → length (keep p (values (remove gone.connection_id stored)))
      ≡ length (keep (λ c. not (c.connection_id == gone.connection_id) && p c) (values stored))
unfolding remove values keep
keep-values-remove p gone [] k = refl
keep-values-remove p gone ((j, c) ∷ stored) k = ground (
  arith,
  eq_iff j gone.connection_id,
  eq_iff c.connection_id gone.connection_id,
  k.0,
  keep-values-remove p gone stored k.1,
)

keep_all : {A : Type 0} (xs : List A) → keep (λ x. true) xs ≡ xs
unfolding keep
keep_all [] = refl
keep_all (x ∷ xs) = ap (λ l. x ∷ l) (keep_all xs)

length-values : {A : Type 0} (m : Dict A) → length (values m) ≡ length m
unfolding values
length-values [] = refl
length-values ((k, a) ∷ m) = omega (arith, length-values m)

keep-ext :
    {A : Type 0} (p q : A → Bool) (xs : List A) → ((x : A) → p x ≡ q x) → keep p xs ≡ keep q xs
unfolding keep
keep-ext p q [] same = refl
keep-ext p q (x ∷ xs) same = ground (arith, same x, keep-ext p q xs same)

keep-remove_connections :
    (p : ActiveConnection → Bool) (dropped : List ActiveConnection) (stored : Dict ActiveConnection)
    → IsKeyed stored
    → length (keep p (values (remove_connections dropped stored)))
      ≡ length (keep (λ c. spared dropped c && p c) (values stored))
unfolding remove_connections spared
keep-remove_connections p [] stored k = refl
keep-remove_connections p (gone ∷ dropped) stored k =
    keep-remove_connections p dropped (remove gone.connection_id stored)
      (remove-IsKeyed gone.connection_id stored k)
    ∙ keep-values-remove (λ c. spared dropped c && p c) gone stored k
    ∙ ap length (
        keep-ext (λ c. not (c.connection_id == gone.connection_id) && (spared dropped c && p c))
          (λ c. (not (c.connection_id == gone.connection_id) && spared dropped c) && p c)
          (values stored) (λ c. ground arith))

module _ {A : Type 0} (p : A → Bool) where
  keep-place :
      (less : A → A → Bool) (a : A) (xs : List A)
      → length (keep p (place less a xs)) ≡ length (keep p (a ∷ xs))
  unfolding place keep
  keep-place less a [] = refl
  keep-place less a (x ∷ xs) = ground (arith, keep-place less a xs)

  keep-sort_by :
      (less : A → A → Bool) (xs : List A) → length (keep p (sort_by less xs)) ≡ length (keep p xs)
  unfolding sort_by keep
  keep-sort_by less [] = refl
  keep-sort_by less (x ∷ xs) =
      ground (arith, keep-place less x (sort_by less xs), keep-sort_by less xs)

  keep-take-drop :
      (n : ℕ) (xs : List A)
      → length (keep p xs) ≡ length (keep p (take n xs)) + length (keep p (drop n xs))
  unfolding keep
  keep-take-drop zero xs = omega arith
  keep-take-drop (suc n) [] = omega arith
  keep-take-drop (suc n) (x ∷ xs) = ground (arith, keep-take-drop n xs)

length-take : {A : Type 0} (n : ℕ) (xs : List A) → length (take n xs) ≤ n
length-take zero xs = omega arith
length-take (suc n) [] = omega arith
length-take (suc n) (x ∷ xs) = omega (arith, length-take n xs)

-- No dropped connection is spared.
not_spared :
    (extra : ActiveConnection) (dropped rest : List ActiveConnection)
    → length (keep (spared dropped) rest) ≡ 0
    → length (keep (spared (extra ∷ dropped)) rest) ≡ 0
unfolding spared keep
not_spared extra dropped [] gone = refl
not_spared extra dropped (c ∷ rest) gone = ground (arith, not_spared extra dropped rest)

keep-spared : (dropped : List ActiveConnection) → length (keep (spared dropped) dropped) ≡ 0
unfolding spared keep
keep-spared [] = refl
keep-spared (c ∷ dropped) =
    ground (arith, eq_refl c.connection_id, not_spared c dropped dropped (keep-spared dropped))

trimmed_length :
    (stored : Dict ActiveConnection)
    → IsKeyed stored
    → let dropped = drop max_stored_connections_per_node (sort_by is_newer (values stored)) in
      length (remove_connections dropped stored) ≤ max_stored_connections_per_node
trimmed_length stored k =
    let sorted = sort_by is_newer (values stored) in
    let dropped = drop max_stored_connections_per_node sorted in
    let kept = remove_connections dropped stored in
    let passing : ActiveConnection → Bool = λ c. spared dropped c && true in
    omega (
      arith,
      length-values kept,
      ap length (keep_all (values kept)),
      keep-remove_connections (λ c. true) dropped stored k,
      ap length (keep-ext passing (spared dropped) (values stored) (λ c. ground arith)),
      keep-sort_by (spared dropped) is_newer (values stored),
      keep-take-drop (spared dropped) max_stored_connections_per_node sorted,
      keep-spared dropped,
      length-keep (spared dropped) (take max_stored_connections_per_node sorted),
      length-take max_stored_connections_per_node sorted,
    )

pub trim_connections-bound :
    (stored : Dict ActiveConnection)
    → IsKeyed stored
    → (length (trim_connections stored) ≤ max_stored_connections_per_node)
      × IsKeyed (trim_connections stored)
unfolding trim_connections
trim_connections-bound stored k =
    elim (Bool-cases (ltb max_stored_connections_per_node (length stored))) [
      | inl above ↦ rw above (
        trimmed_length stored k,
        remove_connections-IsKeyed
            (drop max_stored_connections_per_node (sort_by is_newer (values stored))) stored k,
      )
      | inr within ↦ rw within (ground (arith, within), k)
    ]
