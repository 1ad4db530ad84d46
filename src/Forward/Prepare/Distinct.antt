-- ===== src/Forward/Prepare/Distinct.antt =====
-- The identifiers of what prepareRules of internal/forward/tcp.go makes.
use portflow.Prelude.{
  String, ◌≡◌, List, [], ◌∷◌, arith, Bool-cases, Option-cases, Result-cases, inl, inr, subst, ok,
}
use portflow.Dict.{Dict, lookup, insert, Distinct}
use portflow.Dict.Entries.{insert-Distinct}
use portflow.Domain.{Net, ForwardRule, validate}
use portflow.Forward.Prepare.{
  PreparedRule, Desired, prepare_rules, prepare_all, prepare_rule, prepared_rule, effective_rule,
  claim, networks_of,
}

prepare_rule-Distinct :
    (net : Net) (node_id : String) (state next : Desired) (rule : ForwardRule)
    → Distinct state.0
    → prepare_rule net node_id state rule ≡ ok next
    → Distinct next.0
unfolding prepare_rule
prepare_rule-Distinct net node_id (desired, listeners) next rule d e =
    elim (Option-cases (validate net rule)) [
      | inr (problem, f) ↦ absurd (ground (arith, f))
      | inl f ↦ elim (Bool-cases rule.enabled) [
        | inr g ↦
            let is : (desired, listeners) ≡ next = ground (arith, f, g) in
            subst (λ (s : Desired). Distinct s.0) is d
        | inl g ↦ elim (Option-cases (lookup rule.id desired)) [
          | inr (other, h) ↦ absurd (ground (arith, f, g, h))
          | inl h ↦ elim (Result-cases (effective_rule node_id rule)) [
            | inl (problem, k) ↦ absurd (ground (arith, f, g, h, k))
            | inr (effective, k) ↦
                let prepared = prepared_rule net effective in
                elim (Result-cases (
                  claim rule.id prepared.listen_host prepared.listen_port (networks_of effective)
                    listeners)) [
                      | inl (problem, c) ↦ absurd (ground (arith, f, g, h, k, c))
                      | inr (claimed, c) ↦
                          let is : (insert rule.id prepared desired, claimed) ≡ next =
                            ground (arith, f, g, h, k, c) in
                          subst (λ (s : Desired). Distinct s.0) is
                            (insert-Distinct rule.id prepared desired d)
                    ]
          ]
        ]
      ]
    ]

prepare_all-Distinct :
    (net : Net) (node_id : String) (state next : Desired) (rules : List ForwardRule)
    → Distinct state.0
    → prepare_all net node_id state rules ≡ ok next
    → Distinct next.0
unfolding prepare_all
prepare_all-Distinct net node_id state next [] d e =
    let is : state ≡ next = ground arith in subst (λ (s : Desired). Distinct s.0) is d
prepare_all-Distinct net node_id state next (rule ∷ rules) d e =
    elim (Result-cases (prepare_rule net node_id state rule)) [
      | inl (problem, f) ↦ absurd (ground (arith, f))
      | inr (middle, f) ↦
          prepare_all-Distinct net node_id middle next rules
            (prepare_rule-Distinct net node_id state middle rule d f) (ground (arith, f))
    ]

pub prepare_rules-Distinct :
    (net : Net) (rules : List ForwardRule) (node_id : String) (desired : Dict PreparedRule)
    → prepare_rules net rules node_id ≡ ok desired
    → Distinct desired
unfolding prepare_rules
prepare_rules-Distinct net rules node_id desired e =
    elim (Result-cases (prepare_all net node_id ([], []) rules)) [
      | inl (problem, f) ↦ absurd (ground (arith, f))
      | inr (state, f) ↦
          let is : state.0 ≡ desired = ground (arith, f) in
          subst (λ (d : Dict PreparedRule). Distinct d) is
            (prepare_all-Distinct net node_id ([], []) state rules tt f)
    ]
