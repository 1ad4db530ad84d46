-- ===== src/Store/Rules/Conflicts.antt =====
-- The stored rules under the test listenerConflictLocked of internal/store/memory.go, across the
-- writes of rules.
use portflow.Prelude.{
  String, ◌≡◌, ◌≢◌, refl, ap, ◌∙◌, false, none, some, List, [], ◌∷◌, arith, eq_iff, Option-cases,
  Bool-cases, inl, inr,
}
use portflow.Dict.{Dict, lookup, insert, remove}
use portflow.Dict.Laws.{lookup-insert, lookup-remove}
use portflow.Domain.{ForwardRule, Node, protocols_overlap}
use portflow.Store.{Memory}
use portflow.Store.Rules.{
  clash, any_conflict, listener_conflict, create_forward_rule, update_forward_rule,
  delete_forward_rule, rebuild_agent_config, rebuild_agent_configs, created_rule, updated_rule,
  rule_nodes_available,
}

-- Rules are kept under their identifiers, and no two of them clash.
pub record NoClash (rules : Dict ForwardRule) : Type 0 where
  pub no_blank : lookup "" rules ≡ none
  pub keyed : (k : String) (r : ForwardRule) → lookup k rules ≡ some r → r.id ≡ k
  pub apart :
      (j k : String) (r s : ForwardRule)
      → lookup j rules ≡ some r
      → lookup k rules ≡ some s
      → j ≢ k
      → clash r s ≡ false

pub clash_sym : (r s : ForwardRule) → clash r s ≡ clash s r
unfolding protocols_overlap clash
clash_sym r s = ground (
  arith,
  eq_iff r.ingress_node_id s.ingress_node_id,
  eq_iff s.ingress_node_id r.ingress_node_id,
  eq_iff r.protocol s.protocol,
  eq_iff s.protocol r.protocol,
  eq_iff r.listen_host s.listen_host,
  eq_iff s.listen_host r.listen_host,
  eq_iff r.egress_node_id s.egress_node_id,
  eq_iff s.egress_node_id r.egress_node_id,
)

any_conflict-false :
    (candidate : ForwardRule) (excluded k : String) (rules : Dict ForwardRule) (r : ForwardRule)
    → any_conflict candidate excluded rules ≡ false
    → lookup k rules ≡ some r
    → k ≢ excluded
    → clash r candidate ≡ false
unfolding any_conflict lookup
any_conflict-false candidate excluded k [] r h e n = ground arith
any_conflict-false candidate excluded k ((j, rule) ∷ rules) r h e n =
    ground (arith, eq_iff j k, eq_iff j excluded, any_conflict-false candidate excluded k rules r)

-- Versions and counters are no part of a listener.
clash-created_rule :
    (nodes : Dict Node) (r t : ForwardRule) → clash t (created_rule nodes r) ≡ clash t r
unfolding clash
clash-created_rule nodes r t = refl

clash-updated_rule :
    (nodes : Dict Node) (old r t : ForwardRule) → clash t (updated_rule nodes old r) ≡ clash t r
unfolding clash
clash-updated_rule nodes old r t = refl

pub ne_blank :
    (rules : Dict ForwardRule) (k : String) (r : ForwardRule)
    → NoClash rules
    → lookup k rules ≡ some r
    → k ≢ ""
ne_blank rules k r v h e = cc (v.no_blank, h, ap (λ j. lookup j rules) e)

-- A rule written under its identifier, clashing with no other.
pub insert-NoClash :
    (rules : Dict ForwardRule) (rule : ForwardRule)
    → rule.id ≢ ""
    → ((k : String) (r : ForwardRule)
        → lookup k rules ≡ some r
        → k ≢ rule.id
        → clash r rule ≡ false)
    → NoClash rules
    → NoClash (insert rule.id rule rules)
insert-NoClash rules rule named free v = record {
  no_blank = ground (arith, lookup-insert rule.id "" rule rules, eq_iff rule.id "", v.no_blank);
  keyed =
      λ k r h. ground (arith, lookup-insert rule.id k rule rules, eq_iff rule.id k, v.keyed k r);
  apart = λ j k r s h e n. ground (
    arith,
    lookup-insert rule.id j rule rules,
    lookup-insert rule.id k rule rules,
    eq_iff rule.id j,
    eq_iff rule.id k,
    v.apart j k r s,
    free j r,
    free k s,
    clash_sym rule s,
  );
}

remove-NoClash :
    (id : String) (rules : Dict ForwardRule) → NoClash rules → NoClash (remove id rules)
remove-NoClash id rules v = record {
  no_blank = ground (arith, lookup-remove id "" rules, v.no_blank);
  keyed = λ k r h. ground (arith, lookup-remove id k rules, v.keyed k r);
  apart = λ j k r s h e n.
      ground (arith, lookup-remove id j rules, lookup-remove id k rules, v.apart j k r s);
}

pub forward_rules-rebuild_agent_configs :
    (m : Memory) (ids : List String) → (rebuild_agent_configs m ids).forward_rules ≡ m.forward_rules
unfolding rebuild_agent_configs rebuild_agent_config
forward_rules-rebuild_agent_configs m [] = refl
forward_rules-rebuild_agent_configs m (id ∷ ids) =
    ground (arith, forward_rules-rebuild_agent_configs (rebuild_agent_config m id) ids)

-- CreateForwardRule of a rule with an identifier, accepted or refused, keeps the rules free of
-- clashes: no two rules have the same listening host and port of one ingress node with a protocol in
-- common, nor the same relay port of one egress node.
pub create_forward_rule-NoClash :
    (m : Memory) (rule : ForwardRule)
    → rule.id ≢ ""
    → NoClash m.forward_rules
    → NoClash (create_forward_rule m rule).1.forward_rules
unfolding create_forward_rule listener_conflict
create_forward_rule-NoClash m rule named v = elim (Option-cases (lookup rule.id m.forward_rules)) [
  | inr (other, e) ↦ rw e v
  | inl e ↦ elim (Bool-cases (rule_nodes_available m rule)) [
    | inr missing ↦ rw (e, missing) v
    | inl available ↦ elim (Bool-cases (any_conflict rule "" m.forward_rules)) [
      | inl taken ↦ rw (e, available, taken) v
      | inr free ↦
          rw (e, available, free, forward_rules-rebuild_agent_configs)
            (insert-NoClash m.forward_rules _ named
              (λ k r h n.
                clash-created_rule _ rule r
                ∙ any_conflict-false rule "" k m.forward_rules r free h
                    (ne_blank m.forward_rules k r v h))
              v)
    ]
  ]
]

-- UpdateForwardRule, accepted or refused, keeps the rules free of clashes, which are two rules with
-- the same listening host and port of one ingress node and a protocol in common, or with the same
-- relay port of one egress node.
pub update_forward_rule-NoClash :
    (m : Memory) (rule : ForwardRule)
    → NoClash m.forward_rules
    → NoClash (update_forward_rule m rule).1.forward_rules
unfolding update_forward_rule listener_conflict
update_forward_rule-NoClash m rule v = elim (Option-cases (lookup rule.id m.forward_rules)) [
  | inl e ↦ rw e v
  | inr (old, e) ↦ elim (Bool-cases (rule_nodes_available m rule)) [
    | inr missing ↦ rw (e, missing) v
    | inl available ↦ elim (Bool-cases (any_conflict rule rule.id m.forward_rules)) [
      | inl taken ↦ rw (e, available, taken) v
      | inr free ↦
          rw (e, available, free, forward_rules-rebuild_agent_configs)
            (insert-NoClash m.forward_rules _ (ne_blank m.forward_rules rule.id old v e)
              (λ k r h n.
                clash-updated_rule _ old rule r
                ∙ any_conflict-false rule rule.id k m.forward_rules r free h n)
              v)
    ]
  ]
]

-- DeleteForwardRule keeps the rules free of clashes.
pub delete_forward_rule-NoClash :
    (m : Memory) (id : String)
    → NoClash m.forward_rules
    → NoClash (delete_forward_rule m id).1.forward_rules
unfolding delete_forward_rule
delete_forward_rule-NoClash m id v = elim (Option-cases (lookup id m.forward_rules)) [
  | inl e ↦ rw e v
  | inr (old, e) ↦ rw (e, forward_rules-rebuild_agent_configs) (remove-NoClash id m.forward_rules v)
]
