-- ===== src/Examples/Fleet.antt =====
-- Two nodes, a direct rule and a relay rule between the nodes; a parser of addresses that knows
-- two of them.
use portflow.Prelude.{String, true, none, some, [], ◌∷◌, ◌==◌, if◌then◌else◌}
use portflow.Domain.{
  Net, v4, Node, ForwardRule, zero_node, node_online, protocol_tcp, forward_direct, forward_relay,
}
use portflow.Store.{Memory, new_memory}

abbrev pub sample_net : Net
sample_net = record {
  parse_ip = λ s.
      if s == "10.0.0.2"
      then some (v4 10 0 0 2)
      else if s == "0.0.0.0"
      then some (v4 0 0 0 0)
      else none;
  parse_cidr = λ s.
      if s == "10.0.0.0/8"
      then some (record { number = v4 10 0 0 0; mask = 255 ∷ 0 ∷ 0 ∷ 0 ∷ [] })
      else none;
}

abbrev pub node_of : String → String → Node
node_of id tunnel = record zero_node {
  id = id;
  name = id;
  status = node_online;
  config_version = 4;
  applied_config_version = 4;
  tunnel_address = tunnel;
}

abbrev pub web_rule : ForwardRule
web_rule = record {
  id = "r1";
  name = "web";
  protocol = protocol_tcp;
  mode = forward_direct;
  ingress_node_id = "n1";
  egress_node_id = "";
  listen_host = "0.0.0.0";
  listen_port = 443;
  target_host = "example.org";
  target_port = 8443;
  relay_host = "";
  relay_port = 0;
  enabled = true;
  bandwidth_kbps = 1000;
  max_connections = 10;
  allow_cidrs = "10.0.0.0/8" ∷ [];
  deny_cidrs = [];
  config_version = 0;
  egress_config_version = 0;
  active_conns = 0;
  bytes_in = 0;
  bytes_out = 0;
  runtime_updated = 0;
}

abbrev pub relay_rule : ForwardRule
relay_rule = record web_rule {
  id = "r2";
  name = "relay";
  mode = forward_relay;
  egress_node_id = "n2";
  listen_port = 444;
  relay_host = "10.0.0.2";
  relay_port = 9000;
}

-- Two nodes, no rules.
abbrev pub fleet : Memory
fleet = record new_memory {
  nodes = ("n1", node_of "n1" "10.0.0.1") ∷ ("n2", node_of "n2" "10.0.0.2") ∷ [];
}

-- The same with the direct rule.
abbrev pub busy_fleet : Memory
busy_fleet = record fleet { forward_rules = ("r1", web_rule) ∷ [] }
