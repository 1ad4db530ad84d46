-- ===== src/Forward/Prepare.antt =====
-- prepareRules of internal/forward/tcp.go: from a node's rules to what the node listens on. A
-- listening address, which net.JoinHostPort makes one text, is its host and its port.
pub mod Listeners
pub mod Distinct
use portflow.Prelude.{
  ℕ, String, Bool, true, false, Option, none, some, List, [], ◌∷◌, ◌++◌, map, ◌==◌, ◌&&◌, ◌||◌, not,
  eqb, if◌then◌else◌, on_option, on_result, trim_space, Result, ok, err,
}
use portflow.Dict.{Dict, lookup, insert}
use portflow.Domain.{
  Net, Network, ForwardRule, RuleError, validate, is_relay, protocol_tcp, protocol_udp,
  protocol_tcp_udp,
}

-- The limiter of a prepared rule is set later.
pub record PreparedRule : Type 0 where
  pub rule : ForwardRule
  pub listen_host : String
  pub listen_port : ℕ
  pub target_host : String
  pub target_port : ℕ
  pub allow : List (Option Network)
  pub deny : List (Option Network)

pub data PrepareError : Type 0 where
  rule_invalid : String → RuleError → PrepareError
  duplicate_id foreign_relay : String → PrepareError
  both_listen : String → String → PrepareError

-- The part of a relay rule that this node plays.
unfoldable pub effective_rule : String → ForwardRule → Result PrepareError ForwardRule
effective_rule node_id rule =
    if not (is_relay rule)
    then ok rule
    else if rule.ingress_node_id == node_id
    then ok (record rule { target_host = rule.relay_host; target_port = rule.relay_port })
    else if rule.egress_node_id == node_id
    then ok (record rule {
      listen_host = rule.relay_host;
      listen_port = rule.relay_port;
      allow_cidrs = [];
      deny_cidrs = [];
      bandwidth_kbps = 0;
    })
    else err (foreign_relay rule.id)

abbrev pub prepared_rule : Net → ForwardRule → PreparedRule
prepared_rule net effective = record {
  rule = effective;
  listen_host =
      if trim_space effective.listen_host == ""
      then "0.0.0.0"
      else trim_space effective.listen_host;
  listen_port = effective.listen_port;
  target_host = trim_space effective.target_host;
  target_port = effective.target_port;
  allow = map net.parse_cidr effective.allow_cidrs;
  deny = map net.parse_cidr effective.deny_cidrs;
}

unfoldable pub networks_of : ForwardRule → List String
networks_of rule =
    (if rule.protocol == protocol_tcp || rule.protocol == protocol_tcp_udp then "tcp" ∷ [] else [])
    ++ (if rule.protocol == protocol_udp || rule.protocol == protocol_tcp_udp
        then "udp" ∷ []
        else [])

-- The map `listeners`: a network, a host and a port, and the rule that listens there.
abbrev pub Listeners : Type 0
Listeners = List (String × String × ℕ × String)

unfoldable pub owner : String → String → ℕ → Listeners → Option String
owner network host port [] = none
owner network host port ((n, h, p, id) ∷ listeners) =
    if n == network && h == host && eqb p port then some id else owner network host port listeners

-- The loop over a rule's networks.
unfoldable pub claim : String → String → ℕ → List String → Listeners → Result PrepareError Listeners
unfolding owner
claim id host port [] listeners = ok listeners
claim id host port (network ∷ networks) listeners =
    let rest = claim id host port networks ((network, host, port, id) ∷ listeners) in
    on_option (owner network host port listeners) rest λ other. err (both_listen other id)

abbrev pub Desired : Type 0
Desired = Dict PreparedRule × Listeners

-- One rule of the loop of prepareRules.
unfoldable pub prepare_rule : Net → String → Desired → ForwardRule → Result PrepareError Desired
unfolding effective_rule networks_of claim
prepare_rule net node_id (desired, listeners) rule =
    on_option (validate net rule)
      (if not rule.enabled
        then ok (desired, listeners)
        else on_option (lookup rule.id desired)
            (on_result (effective_rule node_id rule) (λ problem. err problem)
              λ effective.
                let prepared = prepared_rule net effective in
                on_result
                  (claim rule.id prepared.listen_host prepared.listen_port (networks_of effective)
                    listeners)
                  (λ problem. err problem) λ claimed. ok (insert rule.id prepared desired, claimed))
            λ other. err (duplicate_id rule.id))
      λ problem. err (rule_invalid rule.id problem)

unfoldable pub prepare_all : Net → String → Desired → List ForwardRule → Result PrepareError Desired
unfolding prepare_rule
prepare_all net node_id desired [] = ok desired
prepare_all net node_id desired (rule ∷ rules) =
    on_result (prepare_rule net node_id desired rule) (λ problem. err problem)
      λ next. prepare_all net node_id next rules

unfoldable pub prepare_rules :
    Net → List ForwardRule → String → Result PrepareError (Dict PreparedRule)
unfolding prepare_all
prepare_rules net rules node_id =
    on_result (prepare_all net node_id ([], []) rules) (λ problem. err problem)
      λ desired. ok desired.0
