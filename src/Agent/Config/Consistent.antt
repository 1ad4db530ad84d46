-- ===== src/Agent/Config/Consistent.antt =====
-- What a configuration that passes its validation is, described apart from the order of the tests.
use portflow.Prelude.{
  ℕ, ◌+◌, ◌<◌, String, ◌≡◌, ◌≢◌, refl, ◌⊎◌, inl, inr, ◌↔◌, true, false, none, List, [], ◌∷◌, eq_iff,
  arith, All, contains, first_failure, or_else, Passes, first_failure-none, none-first_failure,
  or_else-none, Option-cases,
}
use portflow.Domain.{Net, ForwardRule, validate, valid_tunnel_address, forward_relay}
use portflow.Agent.Config.{
  Config, validate_config, check_rules, config_guards, loop_guards, identity_fields,
}

-- The rule fits the node that the configuration is for.
pub record Fits (net : Net) (config : Config) (rule : ForwardRule) : Type 0 where
  pub valid : validate net rule ≡ none
  pub belongs :
      (config.node_id ≡ "")
      ⊎ (rule.ingress_node_id ≡ config.node_id)
      ⊎ ((rule.mode ≡ forward_relay) × (rule.egress_node_id ≡ config.node_id))
  pub relays :
      (rule.mode ≢ forward_relay)
      ⊎ (rule.enabled ≡ false)
      ⊎ ((valid_tunnel_address net config.tunnel_address ≡ true)
          × ((config.node_id ≢ rule.egress_node_id) ⊎ (config.tunnel_address ≡ rule.relay_host)))

-- No identifier twice, and none of those that were seen before.
abbrev pub UniqueIds : List String → List ForwardRule → Type 0
UniqueIds ids [] = Unit
UniqueIds ids (rule ∷ rules) = (contains rule.id ids ≡ false) × UniqueIds (rule.id ∷ ids) rules

pub record IsConsistent (net : Net) (config : Config) : Type 0 where
  pub versioned : 0 < config.version
  pub identified :
      ((config.control_url ≡ "") × (config.node_id ≡ "") × (config.credential ≡ ""))
      ⊎ ((config.control_url ≢ "") × (config.node_id ≢ "") × (config.credential ≢ ""))
  pub tunnel :
      (config.tunnel_address ≡ "") ⊎ (valid_tunnel_address net config.tunnel_address ≡ true)
  pub rules_fit : All (Fits net config) config.rules
  pub unique : UniqueIds [] config.rules

passed-Fits :
    (net : Net) (config : Config) (ids : List String) (rule : ForwardRule)
    → validate net rule ≡ none
    → Passes (loop_guards net config ids rule)
    → Fits net config rule × (contains rule.id ids ≡ false)
passed-Fits net config ids rule valid passed = (
  record {
    valid = valid;
    belongs = ground (
      arith,
      eq_iff config.node_id "",
      eq_iff rule.ingress_node_id config.node_id,
      eq_iff rule.mode forward_relay,
      eq_iff rule.egress_node_id config.node_id,
      passed.0,
    );
    relays = ground (
      arith,
      eq_iff rule.mode forward_relay,
      eq_iff config.node_id rule.egress_node_id,
      eq_iff config.tunnel_address rule.relay_host,
      passed.1.0,
      passed.1.1.0,
    );
  },
  passed.1.1.1.0,
)

Fits-passed :
    (net : Net) (config : Config) (ids : List String) (rule : ForwardRule)
    → Fits net config rule
    → contains rule.id ids ≡ false
    → Passes (loop_guards net config ids rule)
Fits-passed net config ids rule f new = (
  ground (
    arith,
    eq_iff config.node_id "",
    eq_iff rule.ingress_node_id config.node_id,
    eq_iff rule.mode forward_relay,
    eq_iff rule.egress_node_id config.node_id,
    f.belongs,
  ),
  (
    ground (arith, eq_iff rule.mode forward_relay, f.relays),
    (
      ground (
        arith,
        eq_iff rule.mode forward_relay,
        eq_iff config.node_id rule.egress_node_id,
        eq_iff config.tunnel_address rule.relay_host,
        f.relays,
      ),
      (new, tt),
    ),
  ),
)

check_rules-none :
    (net : Net) (config : Config) (index : ℕ) (ids : List String) (rules : List ForwardRule)
    → check_rules net config index ids rules ≡ none
    → All (Fits net config) rules × UniqueIds ids rules
unfolding check_rules
check_rules-none net config index ids [] h = (tt, tt)
check_rules-none net config index ids (rule ∷ rules) h = elim (Option-cases (validate net rule)) [
  | inl valid ↦
      let parts =
        or_else-none (first_failure (loop_guards net config ids rule))
          (check_rules net config (index + 1) (rule.id ∷ ids) rules) (ground (arith, h, valid)) in
      let here =
        passed-Fits net config ids rule valid
          (first_failure-none (loop_guards net config ids rule) parts.0) in
      let rest = check_rules-none net config (index + 1) (rule.id ∷ ids) rules parts.1 in
      ((here.0, rest.0), (here.1, rest.1))
  | inr (problem, bad) ↦ ground (arith, h, bad)
]

none-check_rules :
    (net : Net) (config : Config) (index : ℕ) (ids : List String) (rules : List ForwardRule)
    → All (Fits net config) rules
    → UniqueIds ids rules
    → check_rules net config index ids rules ≡ none
unfolding check_rules or_else
none-check_rules net config index ids [] fits unique = refl
none-check_rules net config index ids (rule ∷ rules) fits unique =
    let passes =
      none-first_failure (loop_guards net config ids rule)
        (Fits-passed net config ids rule fits.0 unique.0) in
    let rest = none-check_rules net config (index + 1) (rule.id ∷ ids) rules fits.1 unique.1 in
    rw (fits.0.valid, passes) rest

-- Config.Validate returns nil exactly for the configurations with a version above 0, an identity
-- that is whole or absent, no tunnel address but a private one, rules that are each valid, of the
-- node and, for enabled relays, reachable at the node's tunnel address, and no rule identifier
-- twice.
pub validate_config-none_iff :
    (net : Net) (config : Config) → (validate_config net config ≡ none) ↔ IsConsistent net config
unfolding validate_config identity_fields or_else
validate_config-none_iff net config = (
  λ h.
      let parts =
        or_else-none (first_failure (config_guards net config))
          (check_rules net config 0 [] config.rules) h in
      let passed = first_failure-none (config_guards net config) parts.0 in
      let rules = check_rules-none net config 0 [] config.rules parts.1 in
      record {
        versioned = ground (arith, passed.0);
        identified = ground (
          arith,
          passed.1.0,
          eq_iff config.control_url "",
          eq_iff config.node_id "",
          eq_iff config.credential "",
        );
        tunnel = ground (arith, passed.1.1.0, eq_iff config.tunnel_address "");
        rules_fit = rules.0;
        unique = rules.1;
      },
  λ c.
      let passed : Passes (config_guards net config) = (
        ground (arith, c.versioned),
        (
          ground (
            arith,
            c.identified,
            eq_iff config.control_url "",
            eq_iff config.node_id "",
            eq_iff config.credential "",
          ),
          (ground (arith, c.tunnel, eq_iff config.tunnel_address ""), tt),
        ),
      ) in
      rw (none-first_failure (config_guards net config) passed)
        (none-check_rules net config 0 [] config.rules c.rules_fit c.unique),
)
