-- ===== src/Domain.antt =====
-- internal/domain/model.go: nodes, forwarding rules and their validation. A protocol, a mode and a
-- status are texts, as in the source. Go's package net enters as a record of its two parsers; the
-- tests on addresses are written out. A time is its nanoseconds since Go's zero time, so that
-- `IsZero` is 0; a gauge (float64 in the source) is a natural number in a fixed unit, which the
-- store only copies.
pub mod Validity
use Prim.Native.Nat.{bit_and}
use portflow.Prelude.{
  ℕ, ◌^◌, String, Bool, true, false, Option, none, some, List, [], ◌∷◌, ◌++◌, ◌==◌, ◌&&◌, ◌||◌, not,
  eqb, leb, ltb, if◌then◌else◌, trim_space, first_failure, or_else,
}

-- net.IP: four bytes, or the sixteen of an address that maps no IPv4 address
pub data Ip : Type 0 where
  v4 : ℕ → ℕ → ℕ → ℕ → Ip
  v6 : List ℕ → Ip

-- *net.IPNet: the bytes of the network number and of the mask
pub record Network : Type 0 where
  pub number : Ip
  pub mask : List ℕ

pub record Net : Type 0 where
  pub parse_ip : String → Option Ip
  pub parse_cidr : String → Option Network

abbrev pub protocol_tcp : String
protocol_tcp = "tcp"

abbrev pub protocol_udp : String
protocol_udp = "udp"

abbrev pub protocol_tcp_udp : String
protocol_tcp_udp = "tcp_udp"

abbrev pub forward_direct : String
forward_direct = "direct"

abbrev pub forward_relay : String
forward_relay = "relay"

abbrev pub max_bandwidth_kbps : ℕ
max_bandwidth_kbps = 10000000

unfoldable pub protocols_overlap : String → String → Bool
protocols_overlap first second =
    if first == protocol_tcp_udp || second == protocol_tcp_udp then true else first == second

abbrev pub node_online : String
node_online = "online"

abbrev pub node_offline : String
node_offline = "offline"

abbrev pub node_disabled : String
node_disabled = "disabled"

-- address.To4() != nil
unfoldable pub is_v4 : Ip → Bool
is_v4 (v4 a b c d) = true
is_v4 (v6 bytes) = false

unfoldable pub all_zero : List ℕ → Bool
all_zero [] = true
all_zero (b ∷ bytes) = eqb b 0 && all_zero bytes

unfoldable pub is_unspecified : Ip → Bool
unfolding all_zero
is_unspecified (v4 a b c d) = eqb a 0 && eqb b 0 && eqb c 0 && eqb d 0
is_unspecified (v6 bytes) = all_zero bytes

-- RFC 1918 and RFC 4193, as net.IP.IsPrivate has them
unfoldable pub is_private : Ip → Bool
is_private (v4 a b c d) =
    eqb a 10 || (eqb a 172 && eqb (bit_and b 0xf0) 16) || (eqb a 192 && eqb b 168)
is_private (v6 []) = false
is_private (v6 (b ∷ bytes)) = eqb (bit_and b 0xfe) 0xfc

-- ::1
unfoldable pub is_loopback_v6 : List ℕ → Bool
is_loopback_v6 [] = false
is_loopback_v6 (b ∷ []) = eqb b 1
is_loopback_v6 (b ∷ c ∷ bytes) = eqb b 0 && is_loopback_v6 (c ∷ bytes)

unfoldable pub is_loopback : Ip → Bool
unfolding is_loopback_v6
is_loopback (v4 a b c d) = eqb a 127
is_loopback (v6 bytes) = is_loopback_v6 bytes

-- A nil address is `none`.
unfoldable pub is_tunnel_ip : Option Ip → Bool
unfolding is_v4 is_unspecified is_private is_loopback
is_tunnel_ip none = false
is_tunnel_ip (some ip) = is_v4 ip && not (is_unspecified ip) && (is_private ip || is_loopback ip)

unfoldable pub valid_tunnel_address : Net → String → Bool
unfolding is_tunnel_ip
valid_tunnel_address net value = is_tunnel_ip (net.parse_ip (trim_space value))

pub record Node : Type 0 where
  pub id : String
  pub name : String
  pub region : String
  pub public_ip : String
  pub status : String
  pub architecture : String
  pub agent_version : String
  pub last_heartbeat : ℕ
  pub config_version : ℕ
  pub applied_config_version : ℕ
  pub attempted_config_version : ℕ
  pub last_config_error : String
  pub last_config_attempt : ℕ
  pub cpu_percent : ℕ
  pub memory_percent : ℕ
  pub load_one : ℕ
  pub disk_percent : ℕ
  pub network_rx_bps : ℕ
  pub network_tx_bps : ℕ
  pub active_conns : ℕ
  pub bytes_in : ℕ
  pub bytes_out : ℕ
  pub tunnel_address : String

-- domain.Node{}
abbrev pub zero_node : Node
zero_node = record {
  id = "";
  name = "";
  region = "";
  public_ip = "";
  status = "";
  architecture = "";
  agent_version = "";
  last_heartbeat = 0;
  config_version = 0;
  applied_config_version = 0;
  attempted_config_version = 0;
  last_config_error = "";
  last_config_attempt = 0;
  cpu_percent = 0;
  memory_percent = 0;
  load_one = 0;
  disk_percent = 0;
  network_rx_bps = 0;
  network_tx_bps = 0;
  active_conns = 0;
  bytes_in = 0;
  bytes_out = 0;
  tunnel_address = "";
}

pub record ForwardRule : Type 0 where
  pub id : String
  pub name : String
  pub protocol : String
  pub mode : String
  pub ingress_node_id : String
  pub egress_node_id : String
  pub listen_host : String
  pub listen_port : ℕ
  pub target_host : String
  pub target_port : ℕ
  pub relay_host : String
  pub relay_port : ℕ
  pub enabled : Bool
  pub bandwidth_kbps : ℕ
  pub max_connections : ℕ
  pub allow_cidrs : List String
  pub deny_cidrs : List String
  pub config_version : ℕ
  pub egress_config_version : ℕ
  pub active_conns : ℕ
  pub bytes_in : ℕ
  pub bytes_out : ℕ
  pub runtime_updated : ℕ

pub data RuleError : Type 0 where
  id_required name_required ingress_required egress_required same_nodes relay_port_required :
      RuleError
  no_tunnel_address relay_endpoint_in_direct egress_in_direct port_required : RuleError
  bandwidth_exceeded target_required : RuleError
  unsupported_protocol unsupported_mode invalid_cidr : String → RuleError

-- The loop over the CIDRs: the first that does not parse.
unfoldable pub first_bad_cidr : Net → List String → Option RuleError
first_bad_cidr net [] = none
first_bad_cidr net (cidr ∷ rest) =
    let later = first_bad_cidr net rest in
    elim (net.parse_cidr cidr) [ none ↦ some (invalid_cidr cidr) | some network ↦ later ]

abbrev pub is_relay : ForwardRule → Bool
is_relay rule = rule.mode == forward_relay

abbrev pub is_direct : ForwardRule → Bool
is_direct rule = rule.mode == forward_direct

-- The early returns of Validate that stand above its loop.
abbrev pub rule_guards : Net → ForwardRule → List (Bool × RuleError)
rule_guards net rule =
    (trim_space rule.id == "", id_required)
    ∷ (trim_space rule.name == "", name_required)
    ∷ (
      not (rule.protocol == protocol_tcp)
          && not (rule.protocol == protocol_udp)
          && not (rule.protocol == protocol_tcp_udp),
      unsupported_protocol rule.protocol,
    )
    ∷ (not (is_direct rule) && not (is_relay rule), unsupported_mode rule.mode)
    ∷ (rule.ingress_node_id == "", ingress_required)
    ∷ (is_relay rule && rule.egress_node_id == "", egress_required)
    ∷ (is_relay rule && rule.ingress_node_id == rule.egress_node_id, same_nodes)
    ∷ (is_relay rule && eqb rule.relay_port 0, relay_port_required)
    ∷ (
      is_relay rule && rule.enabled && not (valid_tunnel_address net rule.relay_host),
      no_tunnel_address,
    )
    ∷ (
      is_direct rule && (not (rule.relay_host == "") || not (eqb rule.relay_port 0)),
      relay_endpoint_in_direct,
    )
    ∷ (is_direct rule && not (rule.egress_node_id == ""), egress_in_direct)
    ∷ (eqb rule.listen_port 0 || eqb rule.target_port 0, port_required)
    ∷ (ltb max_bandwidth_kbps rule.bandwidth_kbps, bandwidth_exceeded)
    ∷ (trim_space rule.target_host == "", target_required)
    ∷ []

-- Validate; `none` is the nil error.
unfoldable pub validate : Net → ForwardRule → Option RuleError
validate net rule =
    or_else (first_failure (rule_guards net rule))
      (first_bad_cidr net (rule.allow_cidrs ++ rule.deny_cidrs))
