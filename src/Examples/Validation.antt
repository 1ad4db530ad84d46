-- ===== src/Examples/Validation.antt =====
-- Validation of the sample rules.
use portflow.Prelude.{◌≡◌, ◌↔◌, refl, none, some, first_failure, or_else, trim_space}
use portflow.Domain.{validate, valid_tunnel_address, first_bad_cidr, port_required, same_nodes}
use portflow.Domain.Validity.{IsValid, validate-none_iff}
use portflow.Examples.Fleet.{sample_net, web_rule, relay_rule}

validate-none_iff_example : (validate sample_net relay_rule ≡ none) ↔ IsValid sample_net relay_rule
validate-none_iff_example = validate-none_iff sample_net relay_rule

sample_verdicts :
    (validate sample_net web_rule ≡ none)
    × (validate sample_net relay_rule ≡ none)
    × (validate sample_net (record web_rule { listen_port = 0 }) ≡ some port_required)
    × (validate sample_net (record relay_rule { egress_node_id = "n1" }) ≡ some same_nodes)
unfolding validate valid_tunnel_address first_bad_cidr first_failure or_else trim_space
sample_verdicts = (refl, refl, refl, refl)
