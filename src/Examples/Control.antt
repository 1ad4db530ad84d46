-- ===== src/Examples/Control.antt =====
-- Failed logins, and the rule of a member.
use portflow.Prelude.{
  ℕ, ◌+◌, ◌≡◌, refl, true, false, none, List, [], ◌∷◌, leb, ltb, length, if◌then◌else◌,
  first_failure, or_else, trim_space, byte_length, arith,
}
use portflow.Dict.{lookup}
use portflow.Domain.{ForwardRule, validate, valid_tunnel_address, first_bad_cidr}
use portflow.Store.{role_member}
use portflow.Control.Throttle.{
  login_rate_limited, record_failures, login_failure_window, login_failure_limit,
  login_rate_limited_iff,
}
use portflow.Control.Rules.{
  ForwardRuleInput, build_forward_rule, requested_rule, provision, on_provisioned, check_rule,
  sensitive_target, is_multicast, valid_target_host,
}
use portflow.Control.Rules.Permissions.{IsAllowed, build_forward_rule-IsAllowed}
use portflow.Examples.Fleet.{sample_net, web_rule}

abbrev later_failures : List ℕ
later_failures = 11 ∷ 12 ∷ []

login_rate_limited_iff_example :
    (login_rate_limited (record_failures [] "a|root" (10 ∷ later_failures)) "a|root" 20).0 ≡ (
      if ltb 20 (10 + login_failure_window)
      then leb login_failure_limit (1 + length later_failures)
      else false)
unfolding lookup
login_rate_limited_iff_example =
    login_rate_limited_iff [] "a|root" 10 later_failures 20 refl (omega arith, (omega arith, tt))

abbrev input : ForwardRuleInput
input = record {
  name = "web";
  protocol = "";
  mode = "";
  ingress_node_id = "n1";
  egress_node_id = "";
  listen_host = "";
  listen_port = 443;
  target_host = "example.org";
  target_port = 8443;
  relay_port = 0;
  enabled = true;
  bandwidth_kbps = 1000;
  max_connections = 10;
  allow_cidrs = [];
  deny_cidrs = [];
}

abbrev built : ForwardRule
built = record web_rule { allow_cidrs = [] }

build_forward_rule-IsAllowed_example : IsAllowed sample_net role_member built
unfolding build_forward_rule requested_rule provision on_provisioned check_rule sensitive_target
    is_multicast valid_target_host byte_length validate valid_tunnel_address first_bad_cidr
    first_failure or_else trim_space
build_forward_rule-IsAllowed_example =
    build_forward_rule-IsAllowed sample_net [] none input "r1" role_member built refl
