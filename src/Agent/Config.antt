-- ===== src/Agent/Config.antt =====
-- internal/agent/config.go: the agent's configuration and the checks it must pass before it is
-- applied or saved.
pub mod Consistent
use portflow.Prelude.{
  ℕ, ◌+◌, String, Bool, true, false, Option, none, some, List, [], ◌∷◌, ◌==◌, ◌&&◌, ◌||◌, not, eqb,
  if◌then◌else◌, on_option, first_failure, or_else, contains,
}
use portflow.Domain.{Net, ForwardRule, RuleError, valid_tunnel_address, validate, is_relay}

pub record Config : Type 0 where
  pub version : ℕ
  pub control_url : String
  pub node_id : String
  pub credential : String
  pub tunnel_address : String
  pub rules : List ForwardRule

pub data ConfigError : Type 0 where
  version_zero partial_identity tunnel_not_private : ConfigError
  bad_rule : ℕ → RuleError → ConfigError
  foreign_rule needs_tunnel_address wrong_relay_host duplicate_rule : String → ConfigError

-- How many of the values are not empty.
unfoldable pub identity_fields : List String → ℕ
identity_fields [] = 0
identity_fields (value ∷ values) =
    if value == "" then identity_fields values else identity_fields values + 1

abbrev pub identity : Config → List String
identity config = config.control_url ∷ config.node_id ∷ config.credential ∷ []

abbrev pub belongs_to_node : Config → ForwardRule → Bool
belongs_to_node config rule =
    rule.ingress_node_id == config.node_id
    || (is_relay rule && rule.egress_node_id == config.node_id)

-- The tests that one pass of the loop makes behind rule.Validate, with the identifiers seen.
abbrev pub loop_guards : Net → Config → List String → ForwardRule → List (Bool × ConfigError)
loop_guards net config ids rule =
    (not (config.node_id == "") && not (belongs_to_node config rule), foreign_rule rule.id)
    ∷ (
      is_relay rule && rule.enabled && not (valid_tunnel_address net config.tunnel_address),
      needs_tunnel_address rule.id,
    )
    ∷ (
      is_relay rule
          && rule.enabled
          && config.node_id == rule.egress_node_id
          && not (config.tunnel_address == rule.relay_host),
      wrong_relay_host rule.id,
    )
    ∷ (contains rule.id ids, duplicate_rule rule.id)
    ∷ []

unfoldable pub check_rules : Net → Config → ℕ → List String → List ForwardRule → Option ConfigError
check_rules net config index ids [] = none
check_rules net config index ids (rule ∷ rules) =
    let later = check_rules net config (index + 1) (rule.id ∷ ids) rules in
    on_option (validate net rule) (or_else (first_failure (loop_guards net config ids rule)) later)
      λ problem. some (bad_rule index problem)

abbrev pub config_guards : Net → Config → List (Bool × ConfigError)
config_guards net config =
    (eqb config.version 0, version_zero)
    ∷ (
      not (eqb (identity_fields (identity config)) 0)
          && not (eqb (identity_fields (identity config)) 3),
      partial_identity,
    )
    ∷ (
      not (config.tunnel_address == "") && not (valid_tunnel_address net config.tunnel_address),
      tunnel_not_private,
    )
    ∷ []

-- Config.Validate
unfoldable pub validate_config : Net → Config → Option ConfigError
unfolding identity_fields
validate_config net config =
    or_else (first_failure (config_guards net config)) (check_rules net config 0 [] config.rules)
