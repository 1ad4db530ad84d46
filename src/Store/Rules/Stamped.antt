-- ===== src/Store/Rules/Stamped.antt =====
-- The versions that CreateForwardRule and UpdateForwardRule write into the rule that they store.
use portflow.Prelude.{
  String, ◌≡◌, ◌≢◌, ◌⊎◌, refl, true, false, none, some, List, [], ◌∷◌, ◌++◌, ◌||◌, ◌==◌,
  Option-cases, Bool-cases, inl, inr, contains, arith, eq_refl, eq_iff, if◌then◌else◌, subst,
}
use portflow.Dict.{Dict, lookup, get_or}
use portflow.Domain.{ForwardRule, Node, is_relay}
use portflow.Store.{bump}
use portflow.Store.Rules.{rule_node_ids, bump_affected, node_at, bumped, affected_ids}
use portflow.Store.Rules.Versions.{
  NoRepeat, AllPresent, lookup-bump_affected, contains-distinct_ids,
}

-- `stored` is `base` with the next versions of its nodes: the ingress node's, and the egress node's
-- where it relays to a named one.
pub record IsStamped (nodes : Dict Node) (base stored : ForwardRule) : Type 0 where
  pub same : stored ≡ record base {
    config_version = stored.config_version;
    egress_config_version = stored.egress_config_version;
  }
  pub ingress :
      (node : Node) × (lookup base.ingress_node_id nodes ≡ some node)
      × (stored.config_version ≡ bump node.config_version)
  pub egress :
      ((is_relay base ≡ false) × (stored.egress_config_version ≡ base.egress_config_version))
      ⊎ ((is_relay base ≡ true) × (base.egress_node_id ≡ ""))
      ⊎ ((is_relay base ≡ true)
          × ((node : Node) × (lookup base.egress_node_id nodes ≡ some node)
              × (stored.egress_config_version ≡ bump node.config_version)))

contains-append :
    (j : String) (xs ys : List String) → contains j (xs ++ ys) ≡ (contains j xs || contains j ys)
unfolding contains
contains-append j [] ys = refl
contains-append j (x ∷ xs) ys = ground (arith, contains-append j xs ys)

present_at :
    (nodes : Dict Node) (ids : List String) (j : String)
    → AllPresent nodes ids
    → contains j ids ≡ true
    → lookup j nodes ≢ none
unfolding contains
present_at nodes [] j p c = absurd (ground (arith, c))
present_at nodes (id ∷ ids) j p c = elim (Bool-cases (id == j)) [
  | inl is ↦
      let key : id ≡ j = ground (arith, eq_iff id j, is) in
      subst (λ (k : String). lookup k nodes ≢ none) key p.0
  | inr other ↦ present_at nodes ids j p.1 (ground (arith, other, c))
]

-- A node that the loop raises is found with the next version.
node_at-bump_affected :
    (nodes : Dict Node) (ids : List String) (j : String)
    → NoRepeat ids
    → AllPresent nodes ids
    → contains j ids ≡ true
    → (node : Node) × (lookup j nodes ≡ some node)
      × ((node_at (bump_affected nodes ids) j).config_version ≡ bump node.config_version)
unfolding get_or
node_at-bump_affected nodes ids j d p c = elim (Option-cases (lookup j nodes)) [
  | inl e ↦ absurd (present_at nodes ids j p c e)
  | inr (node, e) ↦
      let raised : lookup j (bump_affected nodes ids) ≡ some (bumped node) =
        ground (arith, lookup-bump_affected nodes ids j d p, c, e) in
      (node, e, rw raised refl)
]

contains-ingress : (rule : ForwardRule) → contains rule.ingress_node_id (rule_node_ids rule) ≡ true
unfolding contains rule_node_ids
contains-ingress rule = ground (arith, eq_refl rule.ingress_node_id)

contains-egress :
    (rule : ForwardRule)
    → is_relay rule ≡ true
    → (rule.egress_node_id == "") ≡ false
    → contains rule.egress_node_id (rule_node_ids rule) ≡ true
unfolding contains rule_node_ids
contains-egress rule relays named = ground (
  arith,
  eq_refl rule.egress_node_id,
  eq_iff rule.ingress_node_id rule.egress_node_id,
  eq_iff rule.egress_node_id rule.ingress_node_id,
)

pub contains-affected_ids :
    (old rule : ForwardRule) (j : String)
    → contains j (rule_node_ids rule) ≡ true
    → contains j (affected_ids old rule) ≡ true
contains-affected_ids old rule j c = ground (
  arith,
  contains-distinct_ids j (rule_node_ids old ++ rule_node_ids rule),
  contains-append j (rule_node_ids old) (rule_node_ids rule),
  c,
)

-- The rule as the two operations write it, over nodes among which its own are raised.
abbrev pub stamp : Dict Node → ForwardRule → ForwardRule
stamp nodes base = record base {
  config_version = (node_at nodes base.ingress_node_id).config_version;
  egress_config_version =
      if is_relay base
      then (node_at nodes base.egress_node_id).config_version
      else base.egress_config_version;
}

pub stamp-IsStamped :
    (nodes : Dict Node) (ids : List String) (base : ForwardRule)
    → NoRepeat ids
    → AllPresent nodes ids
    → ((j : String) → contains j (rule_node_ids base) ≡ true → contains j ids ≡ true)
    → IsStamped nodes base (stamp (bump_affected nodes ids) base)
stamp-IsStamped nodes ids base d p covers = record {
  same = refl;
  ingress =
      node_at-bump_affected nodes ids base.ingress_node_id d p
        (covers base.ingress_node_id (contains-ingress base));
  egress = elim (Bool-cases (is_relay base)) [
    | inr direct ↦ inl (direct, rw direct refl)
    | inl relays ↦ elim (Bool-cases (base.egress_node_id == "")) [
      | inl unnamed ↦ inr (inl (relays, ground (arith, eq_iff base.egress_node_id "", unnamed)))
      | inr named ↦
          let found =
            node_at-bump_affected nodes ids base.egress_node_id d p
              (covers base.egress_node_id (contains-egress base relays named)) in
          inr (inr (relays, (found.0, found.1, rw relays found.2)))
    ]
  ];
}
