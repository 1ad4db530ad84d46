-- ===== src/Control/Rules.antt =====
-- buildForwardRule of internal/control/server.go: a rule out of a request, with the checks that the
-- role of the user calls for.
pub mod Permissions
use Prim.Native.Nat.{bit_and}
use Prim.Native.Char.{code}
use portflow.Prelude.{
  ℕ, ◌+◌, String, Bool, true, false, Option, none, some, List, [], ◌∷◌, ◌==◌, ◌&&◌, ◌||◌, not, eqb,
  leb, ltb, if◌then◌else◌, on_option, trim_space, length, byte_length, Result, ok, err,
  first_failure,
}
use portflow.Domain.{
  Net, Ip, v4, v6, Node, ForwardRule, RuleError, validate, valid_tunnel_address, protocol_tcp,
  protocol_udp, protocol_tcp_udp, forward_direct, forward_relay, max_bandwidth_kbps, is_relay,
  is_direct, is_loopback, is_unspecified,
}
use portflow.Store.{role_admin}

pub record ForwardRuleInput : Type 0 where
  pub name : String
  pub protocol : String
  pub mode : String
  pub ingress_node_id : String
  pub egress_node_id : String
  pub listen_host : String
  pub listen_port : ℕ
  pub target_host : String
  pub target_port : ℕ
  pub relay_port : ℕ
  pub enabled : Bool
  pub bandwidth_kbps : ℕ
  pub max_connections : ℕ
  pub allow_cidrs : List String
  pub deny_cidrs : List String

-- The error responses, in the order of the code.
pub data BuildError : Type 0 where
  internal_error limits_exceeded unsupported_protocol unsupported_mode egress_in_direct : BuildError
  relay_port_in_direct permission_denied relay_not_provisioned invalid_listen_host : BuildError
  invalid_target_host sensitive_target_denied : BuildError
  invalid_rule : RuleError → BuildError

-- The first two bytes of an address of the sixteen-byte form.
unfoldable pub starts : List ℕ → (ℕ → ℕ → Bool) → Bool
starts [] test = false
starts (a ∷ []) test = false
starts (a ∷ b ∷ bytes) test = test a b

-- net.IP.IsMulticast
unfoldable pub is_multicast : Ip → Bool
unfolding starts
is_multicast (v4 a b c d) = eqb (bit_and a 0xf0) 0xe0
is_multicast (v6 bytes) = starts bytes λ a b. eqb a 0xff

-- net.IP.IsLinkLocalUnicast
unfoldable pub is_link_local_unicast : Ip → Bool
unfolding starts
is_link_local_unicast (v4 a b c d) = eqb a 169 && eqb b 254
is_link_local_unicast (v6 bytes) = starts bytes λ a b. eqb a 0xfe && eqb (bit_and b 0xc0) 0x80

-- net.IP.IsLinkLocalMulticast
unfoldable pub is_link_local_multicast : Ip → Bool
unfolding starts
is_link_local_multicast (v4 a b c d) = eqb a 224 && eqb b 0 && eqb c 0
is_link_local_multicast (v6 bytes) = starts bytes λ a b. eqb a 0xff && eqb (bit_and b 0x0f) 0x02

-- The lower-case ASCII letter that a character folds to: ſ folds to s, and the sign of the kelvin
-- to k.
abbrev pub folded : ℕ → ℕ
folded c =
    if leb 65 c && leb c 90
    then c + 32
    else if eqb c 0x17f
    then 0x73
    else if eqb c 0x212a
    then 0x6b
    else c

-- strings.EqualFold with a text in lower-case ASCII
unfoldable pub equal_fold : String → String → Bool
equal_fold String.[] String.[] = true
equal_fold (String.◌∷◌ c s) (String.◌∷◌ d t) = eqb (folded (code c)) (code d) && equal_fold s t
equal_fold s t = false

abbrev pub is_sensitive_ip : Ip → Bool
is_sensitive_ip address =
    is_loopback address
    || is_link_local_unicast address
    || is_link_local_multicast address
    || is_unspecified address

unfoldable pub sensitive_target : Net → String → Bool
unfolding equal_fold
sensitive_target net host =
    if equal_fold host "localhost" || equal_fold host "metadata.google.internal"
    then true
    else on_option (net.parse_ip host) false is_sensitive_ip

abbrev pub is_host_character : ℕ → Bool
is_host_character c =
    (leb b'a' c && leb c b'z')
    || (leb b'A' c && leb c b'Z')
    || (leb b'0' c && leb c b'9')
    || eqb c b'.'
    || eqb c b'-'
    || eqb c b'_'

unfoldable pub all_host_characters : String → Bool
all_host_characters String.[] = true
all_host_characters (String.◌∷◌ c s) = is_host_character (code c) && all_host_characters s

unfoldable pub starts_with_dot : String → Bool
starts_with_dot String.[] = false
starts_with_dot (String.◌∷◌ c s) = eqb (code c) b'.'

unfoldable pub ends_with_dot : String → Bool
ends_with_dot String.[] = false
ends_with_dot (String.◌∷◌ c s) = if s == "" then eqb (code c) b'.' else ends_with_dot s

unfoldable pub valid_target_host : Net → String → Bool
unfolding all_host_characters starts_with_dot ends_with_dot byte_length
valid_target_host net host =
    on_option (net.parse_ip host)
      (if host == "" || ltb 253 (byte_length host) || starts_with_dot host || ends_with_dot host
        then false
        else all_host_characters host)
      λ address. true

abbrev pub or_default : String → String → String
or_default fallback value = if value == "" then fallback else value

-- The rule of the input, trimmed and with its defaults.
unfoldable pub requested_rule : ForwardRuleInput → String → ForwardRule
requested_rule input id = record {
  id = id;
  name = trim_space input.name;
  protocol = or_default protocol_tcp input.protocol;
  mode = or_default forward_direct (trim_space input.mode);
  ingress_node_id = trim_space input.ingress_node_id;
  egress_node_id = trim_space input.egress_node_id;
  listen_host = or_default "0.0.0.0" (trim_space input.listen_host);
  listen_port = input.listen_port;
  target_host = trim_space input.target_host;
  target_port = input.target_port;
  relay_host = "";
  relay_port = input.relay_port;
  enabled = input.enabled;
  bandwidth_kbps = input.bandwidth_kbps;
  max_connections = input.max_connections;
  allow_cidrs = input.allow_cidrs;
  deny_cidrs = input.deny_cidrs;
  config_version = 0;
  egress_config_version = 0;
  active_conns = 0;
  bytes_in = 0;
  bytes_out = 0;
  runtime_updated = 0;
}

abbrev pub exceeds_limits : ForwardRule → Bool
exceeds_limits rule =
    ltb 80 (byte_length rule.name)
    || ltb 253 (byte_length rule.target_host)
    || ltb 45 (byte_length rule.listen_host)
    || ltb 100 (length rule.allow_cidrs)
    || ltb 100 (length rule.deny_cidrs)
    || ltb 1000000 rule.max_connections
    || ltb max_bandwidth_kbps rule.bandwidth_kbps

-- The early returns above the relay's part.
abbrev pub request_guards : String → ForwardRule → List (Bool × BuildError)
request_guards role rule =
    (exceeds_limits rule, limits_exceeded)
    ∷ (
      not (rule.protocol == protocol_tcp)
          && not (rule.protocol == protocol_udp)
          && not (rule.protocol == protocol_tcp_udp),
      unsupported_protocol,
    )
    ∷ (not (is_direct rule) && not (is_relay rule), unsupported_mode)
    ∷ (is_direct rule && not (rule.egress_node_id == ""), egress_in_direct)
    ∷ (is_direct rule && not (eqb rule.relay_port 0), relay_port_in_direct)
    ∷ (is_relay rule && not (role == role_admin), permission_denied)
    ∷ []

-- The loop over the nodes: is the ingress ready, and the egress node's address.
unfoldable pub relay_nodes : Net → ForwardRule → Bool → String → List Node → Bool × String
relay_nodes net rule ready host [] = (ready, host)
relay_nodes net rule ready host (node ∷ nodes) =
    relay_nodes net rule
      (if node.id == rule.ingress_node_id
        then valid_tunnel_address net node.tunnel_address
        else ready)
      (if node.id == rule.egress_node_id then node.tunnel_address else host) nodes

-- A relay rule gets its port and its host; an enabled one needs both tunnel addresses.
unfoldable pub provision : Net → List Node → ForwardRule → Result BuildError ForwardRule
unfolding relay_nodes
provision net nodes rule =
    if not (is_relay rule)
    then ok rule
    else let (ready, host) = relay_nodes net rule false "" nodes in
      if rule.enabled && (not ready || not (valid_tunnel_address net host))
      then err relay_not_provisioned
      else ok (record rule {
        relay_port = if eqb rule.relay_port 0 then rule.listen_port else rule.relay_port;
        relay_host = host;
      })

-- The early returns below the relay's part, but for rule.Validate.
abbrev pub address_guards : Net → String → ForwardRule → List (Bool × BuildError)
address_guards net role rule =
    (on_option (net.parse_ip rule.listen_host) true is_multicast, invalid_listen_host)
    ∷ (not (valid_target_host net rule.target_host), invalid_target_host)
    ∷ (not (role == role_admin) && sensitive_target net rule.target_host, sensitive_target_denied)
    ∷ []

unfoldable pub check_rule : Net → String → ForwardRule → Result BuildError ForwardRule
check_rule net role rule =
    on_option (first_failure (address_guards net role rule))
      (on_option (validate net rule) (ok rule) λ problem. err (invalid_rule problem))
      λ problem. err problem

unfoldable pub on_provisioned :
    Net → String → Result BuildError ForwardRule → Result BuildError ForwardRule
unfolding check_rule
on_provisioned net role (err problem) = err problem
on_provisioned net role (ok rule) = check_rule net role rule

-- `fresh` is what auth.NewID answers, used where the request names no rule; `nodes` is what
-- ListNodes answers, which does not fail here.
unfoldable pub build_forward_rule :
    Net
    → List Node
    → Option String
    → ForwardRuleInput
    → String
    → String
    → Result BuildError ForwardRule
unfolding requested_rule provision on_provisioned
build_forward_rule net nodes fresh input id role =
    on_option (if id == "" then fresh else some id) (err internal_error) λ chosen.
      let rule = requested_rule input chosen in
      on_option (first_failure (request_guards role rule))
        (on_provisioned net role (provision net nodes rule)) λ problem. err problem
