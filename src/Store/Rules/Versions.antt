-- ===== src/Store/Rules/Versions.antt =====
-- The version numbers of the nodes that a rule's write touches.
use portflow.Prelude.{
  String, ◌≡◌, ◌≢◌, refl, ap, ◌∙◌, true, false, Option, none, some, List, [], ◌∷◌, arith, eq_iff,
  Option-cases, inl, inr, if◌then◌else◌, contains,
}
use portflow.Dict.{Dict, lookup, insert, get_or}
use portflow.Dict.Laws.{lookup-insert}
use portflow.Domain.{ForwardRule, Node}
use portflow.Store.Rules.{
  all_available, rule_node_ids, bump_nodes, bump_affected, node_at, bumped, distinct_ids,
}

-- Every node is kept under its identifier.
abbrev pub NodesKeyed : Dict Node → Type 0
NodesKeyed nodes = (k : String) (n : Node) → lookup k nodes ≡ some n → n.id ≡ k

abbrev pub NoRepeat : List String → Type 0
NoRepeat [] = Unit
NoRepeat (id ∷ ids) = (contains id ids ≡ false) × NoRepeat ids

abbrev pub AllPresent : Dict Node → List String → Type 0
AllPresent nodes [] = Unit
AllPresent nodes (id ∷ ids) = (lookup id nodes ≢ none) × AllPresent nodes ids

abbrev pub bump_option : Option Node → Option Node
bump_option none = none
bump_option (some n) = some (bumped n)

pub available-AllPresent :
    (nodes : Dict Node) (ids : List String) → all_available nodes ids ≡ true → AllPresent nodes ids
unfolding all_available
available-AllPresent nodes [] h = tt
available-AllPresent nodes (id ∷ ids) h =
    (ground arith, available-AllPresent nodes ids (ground arith))

pub rule_node_ids-NoRepeat : (r : ForwardRule) → NoRepeat (rule_node_ids r)
unfolding rule_node_ids contains
rule_node_ids-NoRepeat r = ground (arith, eq_iff r.egress_node_id r.ingress_node_id)

pub contains-distinct_ids :
    (j : String) (ids : List String) → contains j (distinct_ids ids) ≡ contains j ids
unfolding distinct_ids contains
contains-distinct_ids j [] = refl
contains-distinct_ids j (id ∷ ids) = ground (arith, eq_iff id j, contains-distinct_ids j ids)

pub distinct_ids-NoRepeat : (ids : List String) → NoRepeat (distinct_ids ids)
unfolding distinct_ids
distinct_ids-NoRepeat [] = tt
distinct_ids-NoRepeat (id ∷ ids) =
    ground (arith, contains-distinct_ids id ids, distinct_ids-NoRepeat ids)

insert-AllPresent :
    (nodes : Dict Node) (k : String) (n : Node) (ids : List String)
    → AllPresent nodes ids
    → AllPresent (insert k n nodes) ids
insert-AllPresent nodes k n [] h = tt
insert-AllPresent nodes k n (id ∷ ids) h =
    (ground (arith, lookup-insert k id n nodes), insert-AllPresent nodes k n ids h.1)

insert-NodesKeyed :
    (nodes : Dict Node) (k : String) (n : Node)
    → n.id ≡ k
    → NodesKeyed nodes
    → NodesKeyed (insert k n nodes)
insert-NodesKeyed nodes k n e v j u h = ground (arith, lookup-insert k j n nodes, eq_iff k j, v j u)

-- Where every node is present and keyed, the two loops are one.
pub bump_nodes-eq :
    (nodes : Dict Node) (ids : List String)
    → NodesKeyed nodes
    → AllPresent nodes ids
    → bump_nodes nodes ids ≡ bump_affected nodes ids
unfolding bump_nodes bump_affected get_or
bump_nodes-eq nodes [] v p = refl
bump_nodes-eq nodes (id ∷ ids) v p = elim (Option-cases (lookup id nodes)) [
  | inl e ↦ absurd (p.0 e)
  | inr (n, e) ↦ rw e (
      ap (λ k. bump_nodes (insert k (bumped n) nodes) ids) (v id n e)
      ∙ bump_nodes-eq (insert id (bumped n) nodes) ids
          (insert-NodesKeyed nodes id (bumped n) (v id n e) v)
          (insert-AllPresent nodes id (bumped n) ids p.1))
]

pub lookup-bump_affected :
    (nodes : Dict Node) (ids : List String) (j : String)
    → NoRepeat ids
    → AllPresent nodes ids
    → lookup j (bump_affected nodes ids)
      ≡ (if contains j ids then bump_option (lookup j nodes) else lookup j nodes)
unfolding bump_affected contains get_or
lookup-bump_affected nodes [] j d p = refl
lookup-bump_affected nodes (id ∷ ids) j d p = ground (
  arith,
  lookup-bump_affected (insert id (bumped (node_at nodes id)) nodes) ids j d.1
      (insert-AllPresent nodes id (bumped (node_at nodes id)) ids p.1),
  lookup-insert id j (bumped (node_at nodes id)) nodes,
  eq_iff id j,
)
