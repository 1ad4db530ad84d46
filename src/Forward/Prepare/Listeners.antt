-- ===== src/Forward/Prepare/Listeners.antt =====
-- The listeners of what prepareRules of internal/forward/tcp.go makes.
use portflow.Prelude.{
  ℕ, ◌≡◌, sym, subst, String, true, none, some, List, [], ◌∷◌, ◌==◌, eq_iff, arith, ok, Bool-cases,
  Option-cases, Result-cases, inl, inr, contains,
}
use portflow.Dict.{Dict, lookup, insert}
use portflow.Dict.Laws.{lookup-insert}
use portflow.Domain.{Net, ForwardRule, validate}
use portflow.Forward.Prepare.{
  PreparedRule, Listeners, Desired, owner, claim, networks_of, prepare_rule, prepare_all,
  prepare_rules, prepared_rule, effective_rule,
}

-- A claim leaves every owner that there is, and owns its networks.
claim-owner :
    (id host : String) (port : ℕ) (networks : List String) (listeners claimed : Listeners)
    (n h : String) (p : ℕ) (k : String)
    → claim id host port networks listeners ≡ ok claimed
    → owner n h p listeners ≡ some k
    → owner n h p claimed ≡ some k
unfolding claim owner
claim-owner id host port [] listeners claimed n h p k done owned = ground (arith, done, owned)
claim-owner id host port (network ∷ networks) listeners claimed n h p k done owned =
    elim (Option-cases (owner network host port listeners)) [
      | inr (other, taken) ↦ ground (arith, done, taken)
      | inl free ↦
          claim-owner id host port networks ((network, host, port, id) ∷ listeners) claimed n h p k
            (ground (arith, done, free))
            (ground (arith, owned, free, eq_iff network n, eq_iff host h))
    ]

claim-claims :
    (id host : String) (port : ℕ) (networks : List String) (listeners claimed : Listeners)
    (n : String)
    → claim id host port networks listeners ≡ ok claimed
    → contains n networks ≡ true
    → owner n host port claimed ≡ some id
unfolding claim owner contains
claim-claims id host port [] listeners claimed n done asked = ground arith
claim-claims id host port (network ∷ networks) listeners claimed n done asked =
    elim (Option-cases (owner network host port listeners)) [
      | inr (other, taken) ↦ ground (arith, done, taken)
      | inl free ↦
          let next : Listeners = (network, host, port, id) ∷ listeners in
          let later : claim id host port networks next ≡ ok claimed = ground (arith, done, free) in
          elim (Bool-cases (network == n)) [
            | inl here ↦
                claim-owner id host port networks next claimed n host port id later
                  (ground (arith, here, eq_iff host host))
            | inr elsewhere ↦
                claim-claims id host port networks next claimed n later
                  (ground (arith, asked, elsewhere))
          ]
    ]

-- Every listener of a prepared rule is that rule's.
abbrev Owned : Desired → Type 0
Owned state =
    (k : String) (p : PreparedRule) (n : String)
    → lookup k state.0 ≡ some p
    → contains n (networks_of p.rule) ≡ true
    → owner n p.listen_host p.listen_port state.1 ≡ some k

-- A rule that is accepted is skipped, or is added with its claims.
data Accepted (net : Net) (state next : Desired) (rule : ForwardRule) : Type 0 where
  skipped : next ≡ state → Accepted net state next rule
  added :
      (effective : ForwardRule) (claimed : Listeners)
      → claim rule.id
          (prepared_rule net effective).listen_host
          (prepared_rule net effective).listen_port
          (networks_of effective)
          state.1
        ≡ ok claimed
      → lookup rule.id state.0 ≡ none
      → next ≡ (insert rule.id (prepared_rule net effective) state.0, claimed)
      → Accepted net state next rule

prepare_rule-Accepted :
    (net : Net) (node_id : String) (state next : Desired) (rule : ForwardRule)
    → prepare_rule net node_id state rule ≡ ok next
    → Accepted net state next rule
unfolding prepare_rule
prepare_rule-Accepted net node_id state next rule done = elim (Option-cases (validate net rule)) [
  | inr (problem, bad) ↦ ground (arith, done, bad)
  | inl valid ↦ elim (Bool-cases rule.enabled) [
    | inr disabled ↦ skipped (ground (arith, done, valid, disabled))
    | inl enabled ↦ elim (Option-cases (lookup rule.id state.0)) [
      | inr (other, taken) ↦ ground (arith, done, valid, enabled, taken)
      | inl new ↦ elim (Result-cases (effective_rule node_id rule)) [
        | inl (problem, bad) ↦ ground (arith, done, valid, enabled, new, bad)
        | inr (effective, played) ↦
            let prepared = prepared_rule net effective in
            elim (Result-cases (
              claim rule.id prepared.listen_host prepared.listen_port (networks_of effective)
                state.1)) [
                  | inl (problem, bad) ↦ ground (arith, done, valid, enabled, new, played, bad)
                  | inr (claimed, free) ↦
                      added effective claimed free new
                        (ground (arith, done, valid, enabled, new, played, free))
                ]
      ]
    ]
  ]
]

added-Owned :
    (net : Net) (state : Desired) (rule effective : ForwardRule) (claimed : Listeners)
    → Owned state
    → claim rule.id
        (prepared_rule net effective).listen_host
        (prepared_rule net effective).listen_port
        (networks_of effective)
        state.1
      ≡ ok claimed
    → Owned (insert rule.id (prepared_rule net effective) state.0, claimed)
added-Owned net state rule effective claimed owned done k p n found asked =
    let prepared = prepared_rule net effective in
    let read = lookup-insert rule.id k prepared state.0 in
    elim (Bool-cases (rule.id == k)) [
      | inl here ↦
          let same : prepared ≡ p = ground (arith, found, here, read) in
          let mine =
            claim-claims rule.id prepared.listen_host prepared.listen_port (networks_of effective)
              state.1 claimed n done
              (subst (λ q. contains n (networks_of q.rule) ≡ true) (sym same) asked) in
          subst (λ q. owner n q.listen_host q.listen_port claimed ≡ some k) same
            (ground (arith, mine, here, eq_iff rule.id k))
      | inr elsewhere ↦
          claim-owner rule.id prepared.listen_host prepared.listen_port (networks_of effective)
            state.1 claimed n p.listen_host p.listen_port k done
            (owned k p n (ground (arith, found, elsewhere, read)) asked)
    ]

prepare_rule-Owned :
    (net : Net) (node_id : String) (state next : Desired) (rule : ForwardRule)
    → Owned state
    → prepare_rule net node_id state rule ≡ ok next
    → Owned next
prepare_rule-Owned net node_id state next rule owned done =
    elim (prepare_rule-Accepted net node_id state next rule done) [
      | skipped same ↦ subst Owned (sym same) owned
      | added effective claimed free new same ↦
          subst Owned (sym same) (added-Owned net state rule effective claimed owned free)
    ]

prepare_all-Owned :
    (net : Net) (node_id : String) (state last : Desired) (rules : List ForwardRule)
    → Owned state
    → prepare_all net node_id state rules ≡ ok last
    → Owned last
unfolding prepare_all
prepare_all-Owned net node_id state last [] owned done = subst Owned (ground (arith, done)) owned
prepare_all-Owned net node_id state last (rule ∷ rules) owned done =
    elim (Result-cases (prepare_rule net node_id state rule)) [
      | inl (problem, bad) ↦ ground (arith, done, bad)
      | inr (next, fine) ↦
          prepare_all-Owned net node_id next last rules
            (prepare_rule-Owned net node_id state next rule owned fine) (ground (arith, done, fine))
    ]

-- Where prepareRules accepts a node's rules, two prepared rules that listen on one network at one
-- address and port are one rule.
pub prepare_rules-Disjoint :
    (net : Net) (rules : List ForwardRule) (node_id : String) (desired : Dict PreparedRule)
    (j k : String) (p q : PreparedRule) (network : String)
    → prepare_rules net rules node_id ≡ ok desired
    → lookup j desired ≡ some p
    → lookup k desired ≡ some q
    → contains network (networks_of p.rule) ≡ true
    → contains network (networks_of q.rule) ≡ true
    → p.listen_host ≡ q.listen_host
    → p.listen_port ≡ q.listen_port
    → j ≡ k
unfolding prepare_rules lookup
prepare_rules-Disjoint net rules node_id desired j k p q network done first second on_first
      on_second host port =
    elim (Result-cases (prepare_all net node_id ([], []) rules)) [
      | inl (problem, bad) ↦ ground (arith, done, bad)
      | inr (state, fine) ↦
          let owned =
            prepare_all-Owned net node_id ([], []) state rules (λ k p n found asked. ground arith)
              fine in
          let same : state.0 ≡ desired = ground (arith, done, fine) in
          let mine =
            owned j p network (subst (λ d. lookup j d ≡ some p) (sym same) first) on_first in
          let theirs =
            owned k q network (subst (λ d. lookup k d ≡ some q) (sym same) second) on_second in
          ground (arith, mine, theirs, host, port)
    ]
