-- ===== src/Control/Rules/Permissions.antt =====
-- What a role may put into a rule.
use portflow.Prelude.{
  ◌≡◌, ◌≢◌, ◌⊎◌, ◌∙◌, sym, subst, ap, inl, inr, String, false, Option, none, some, List, ◌==◌,
  eq_iff, not, ◌&&◌, arith, ok, Option-cases, Result-cases, first_failure, first_failure-none,
  Passes, if◌then◌else◌,
}
use portflow.Domain.{Net, Ip, Node, ForwardRule, validate, forward_relay, is_relay}
use portflow.Store.{role_admin}
use portflow.Control.Rules.{
  ForwardRuleInput, build_forward_rule, requested_rule, request_guards, address_guards, provision,
  check_rule, on_provisioned, sensitive_target, is_multicast,
}

-- A rule that may be stored: valid, with a listen host that is an address but no multicast one,
-- and for a member direct and with no sensitive target.
pub record IsAllowed (net : Net) (role : String) (rule : ForwardRule) : Type 0 where
  pub valid : validate net rule ≡ none
  pub listens : (ip : Ip) × (net.parse_ip rule.listen_host ≡ some ip) × (is_multicast ip ≡ false)
  pub permitted :
      (role ≡ role_admin)
      ⊎ ((rule.mode ≢ forward_relay) × (sensitive_target net rule.target_host ≡ false))

provision-mode :
    (net : Net) (nodes : List Node) (rule next : ForwardRule)
    → provision net nodes rule ≡ ok next
    → next.mode ≡ rule.mode
unfolding provision
provision-mode net nodes rule next h = ground arith

check_rule-ok :
    (net : Net) (role : String) (rule next : ForwardRule)
    → check_rule net role rule ≡ ok next
    → (next ≡ rule) × (validate net rule ≡ none) × Passes (address_guards net role rule)
unfolding check_rule
check_rule-ok net role rule next h =
    elim (Option-cases (first_failure (address_guards net role rule))) [
      | inr (problem, bad) ↦ ground (arith, h, bad)
      | inl fine ↦ elim (Option-cases (validate net rule)) [
        | inr (problem, bad) ↦ ground (arith, h, fine, bad)
        | inl valid ↦ (
          ground (arith, h, fine, valid),
          valid,
          first_failure-none (address_guards net role rule) fine,
        )
      ]
    ]

checked-IsAllowed :
    (net : Net) (role : String) (rule : ForwardRule)
    → validate net rule ≡ none
    → Passes (address_guards net role rule)
    → (is_relay rule && not (role == role_admin)) ≡ false
    → IsAllowed net role rule
checked-IsAllowed net role rule valid passed direct = record {
  valid = valid;
  listens = elim (Option-cases (net.parse_ip rule.listen_host)) [
    | inl unparsed ↦ ground (arith, passed.0, unparsed)
    | inr (ip, parsed) ↦ (ip, parsed, ground (arith, passed.0, parsed))
  ];
  permitted =
      ground (arith, passed.1.1.0, direct, eq_iff role role_admin, eq_iff rule.mode forward_relay);
}

-- A rule that buildForwardRule accepts is valid and listens on an address that is not multicast;
-- where the user is no administrator it is no relay rule and its target is not sensitive.
pub build_forward_rule-IsAllowed :
    (net : Net) (nodes : List Node) (fresh : Option String) (input : ForwardRuleInput)
    (id role : String) (rule : ForwardRule)
    → build_forward_rule net nodes fresh input id role ≡ ok rule
    → IsAllowed net role rule
unfolding build_forward_rule on_provisioned
build_forward_rule-IsAllowed net nodes fresh input id role rule h =
    elim (Option-cases (if id == "" then fresh else some id)) [
      | inl missing ↦ ground (arith, h, missing)
      | inr (chosen, named) ↦
          let asked = requested_rule input chosen in
          elim (Option-cases (first_failure (request_guards role asked))) [
            | inr (problem, bad) ↦ ground (arith, h, named, bad)
            | inl fine ↦
                let passed = first_failure-none (request_guards role asked) fine in
                elim (Result-cases (provision net nodes asked)) [
                  | inl (problem, bad) ↦ ground (arith, h, named, fine, bad)
                  | inr (ready, provisioned) ↦
                      let checked =
                        check_rule-ok net role ready rule
                          (ground (arith, h, named, fine, provisioned)) in
                      let mode = provision-mode net nodes asked ready provisioned in
                      subst (IsAllowed net role) (sym checked.0) (
                        checked-IsAllowed net role ready checked.1 checked.2 (
                          ap (λ m. m == forward_relay && not (role == role_admin)) mode
                          ∙ passed.1.1.1.1.1.0))
                ]
          ]
    ]
