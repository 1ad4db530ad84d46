-- ===== src/Domain/Validity.antt =====
-- What a rule that `Validate` accepts looks like, described apart from the order of its tests.
use portflow.Prelude.{
  ◌<◌, ◌≤◌, String, ◌≡◌, ◌≢◌, refl, ◌⊎◌, inl, inr, ◌↔◌, true, false, none, List, [], ◌∷◌, ◌++◌,
  eq_iff, arith, All, trim_space, ◌==◌, ◌&&◌, ◌||◌, not, eqb, ltb, ℕ, Bool-cases, first_failure,
  or_else, Passes, first_failure-none, none-first_failure, or_else-none,
}
use portflow.Domain.{
  Net, ForwardRule, validate, rule_guards, is_direct, is_relay, valid_tunnel_address,
  first_bad_cidr, protocol_tcp, protocol_udp, protocol_tcp_udp, forward_direct, forward_relay,
  max_bandwidth_kbps,
}

abbrev pub Parses : Net → String → Type 0
Parses net cidr = net.parse_cidr cidr ≢ none

first_bad_cidr-none :
    (net : Net) (cidrs : List String) → first_bad_cidr net cidrs ≡ none → All (Parses net) cidrs
unfolding first_bad_cidr
first_bad_cidr-none net [] h = tt
first_bad_cidr-none net (cidr ∷ rest) h =
    (ground arith, first_bad_cidr-none net rest (ground arith))

none-first_bad_cidr :
    (net : Net) (cidrs : List String) → All (Parses net) cidrs → first_bad_cidr net cidrs ≡ none
unfolding first_bad_cidr
none-first_bad_cidr net [] h = refl
none-first_bad_cidr net (cidr ∷ rest) h = ground (arith, none-first_bad_cidr net rest h.1)

-- A direct rule has no relay endpoint; a relay rule joins two nodes, over a private tunnel address
-- once it is enabled.
pub data ModeShape (net : Net) (r : ForwardRule) : Type 0 where
  direct :
      r.mode ≡ forward_direct
      → r.egress_node_id ≡ ""
      → r.relay_host ≡ ""
      → r.relay_port ≡ 0
      → ModeShape net r
  relay :
      r.mode ≡ forward_relay
      → r.egress_node_id ≢ ""
      → r.ingress_node_id ≢ r.egress_node_id
      → 0 < r.relay_port
      → (r.enabled ≡ false) ⊎ (valid_tunnel_address net r.relay_host ≡ true)
      → ModeShape net r

pub record IsValid (net : Net) (r : ForwardRule) : Type 0 where
  pub has_id : trim_space r.id ≢ ""
  pub has_name : trim_space r.name ≢ ""
  pub protocol_known :
      (r.protocol ≡ protocol_tcp) ⊎ (r.protocol ≡ protocol_udp) ⊎ (r.protocol ≡ protocol_tcp_udp)
  pub has_ingress : r.ingress_node_id ≢ ""
  pub shape : ModeShape net r
  pub listens : 0 < r.listen_port
  pub targets : 0 < r.target_port
  pub bandwidth : r.bandwidth_kbps ≤ max_bandwidth_kbps
  pub has_target : trim_space r.target_host ≢ ""
  pub cidrs : All (Parses net) (r.allow_cidrs ++ r.deny_cidrs)

-- A negative test `value == text` of the source.
differs : (s t : String) → (s == t) ≡ false → s ≢ t
differs s t h = ground (arith, eq_iff s t)

passed-protocol :
    (p : String)
    → (not (p == protocol_tcp) && not (p == protocol_udp) && not (p == protocol_tcp_udp)) ≡ false
    → (p ≡ protocol_tcp) ⊎ (p ≡ protocol_udp) ⊎ (p ≡ protocol_tcp_udp)
passed-protocol p h =
    ground (arith, eq_iff p protocol_tcp, eq_iff p protocol_udp, eq_iff p protocol_tcp_udp)

passed-ModeShape :
    (net : Net) (r : ForwardRule)
    → (not (is_direct r) && not (is_relay r)) ≡ false
    → (is_relay r && r.egress_node_id == "") ≡ false
    → (is_relay r && r.ingress_node_id == r.egress_node_id) ≡ false
    → (is_relay r && eqb r.relay_port 0) ≡ false
    → (is_relay r && r.enabled && not (valid_tunnel_address net r.relay_host)) ≡ false
    → (is_direct r && (not (r.relay_host == "") || not (eqb r.relay_port 0))) ≡ false
    → (is_direct r && not (r.egress_node_id == "")) ≡ false
    → ModeShape net r
passed-ModeShape net r known egress same port tunnel endpoint no_egress =
    elim (Bool-cases (is_direct r)) [
      | inl d ↦
          direct ((eq_iff r.mode forward_direct).0 d) (ground (arith, eq_iff r.egress_node_id ""))
            (ground (arith, eq_iff r.relay_host "")) (ground arith)
      | inr d ↦
          relay (ground (arith, eq_iff r.mode forward_relay))
            (ground (arith, eq_iff r.egress_node_id ""))
            (ground (arith, eq_iff r.ingress_node_id r.egress_node_id)) (ground arith)
            (ground arith)
    ]

passed-IsValid :
    (net : Net) (r : ForwardRule)
    → Passes (rule_guards net r)
    → All (Parses net) (r.allow_cidrs ++ r.deny_cidrs)
    → IsValid net r
passed-IsValid net r
      (i, (n, (p, (m, (g, (e, (same, (port, (tunnel, (end, (eg, (ports, (bw, (t, _))))))))))))))
      parse =
    record {
      has_id = differs (trim_space r.id) "" i;
      has_name = differs (trim_space r.name) "" n;
      protocol_known = passed-protocol r.protocol p;
      has_ingress = differs r.ingress_node_id "" g;
      shape = passed-ModeShape net r m e same port tunnel end eg;
      listens = listens_of ports;
      targets = targets_of ports;
      bandwidth = ltb_false _ _ bw;
      has_target = differs (trim_space r.target_host) "" t;
      cidrs = parse;
    }
  where
    listens_of : (eqb r.listen_port 0 || eqb r.target_port 0) ≡ false → 0 < r.listen_port
    listens_of h = ground arith

    targets_of : (eqb r.listen_port 0 || eqb r.target_port 0) ≡ false → 0 < r.target_port
    targets_of h = ground arith

    ltb_false : (a b : ℕ) → ltb a b ≡ false → b ≤ a
    ltb_false a b h = ground arith

ModeShape-Passes :
    (net : Net) (r : ForwardRule)
    → ModeShape net r
    → ((not (is_direct r) && not (is_relay r)) ≡ false)
      × ((is_relay r && r.egress_node_id == "") ≡ false)
      × ((is_relay r && r.ingress_node_id == r.egress_node_id) ≡ false)
      × ((is_relay r && eqb r.relay_port 0) ≡ false)
      × ((is_relay r && r.enabled && not (valid_tunnel_address net r.relay_host)) ≡ false)
      × ((is_direct r && (not (r.relay_host == "") || not (eqb r.relay_port 0))) ≡ false)
      × ((is_direct r && not (r.egress_node_id == "")) ≡ false)
ModeShape-Passes net r (direct m e h p) = rw (m, e, h, p) (ground arith)
ModeShape-Passes net r (relay m e s p t) =
    rw m (ground (arith, eq_iff r.egress_node_id "", eq_iff r.ingress_node_id r.egress_node_id))

IsValid-Passes : (net : Net) (r : ForwardRule) → IsValid net r → Passes (rule_guards net r)
IsValid-Passes net r v =
    let s = ModeShape-Passes net r v.shape in
    (
      blank (trim_space r.id) v.has_id,
      (
        blank (trim_space r.name) v.has_name,
        (
          protocol v.protocol_known,
          (
            s.0,
            (
              blank r.ingress_node_id v.has_ingress,
              (
                s.1,
                (
                  s.2,
                  (
                    s.3,
                    (
                      s.4,
                      (
                        s.5,
                        (
                          s.6,
                          (
                            ports v.listens v.targets,
                            (
                              width v.bandwidth,
                              (blank (trim_space r.target_host) v.has_target, tt),
                            ),
                          ),
                        ),
                      ),
                    ),
                  ),
                ),
              ),
            ),
          ),
        ),
      ),
    )
  where
    blank : (t : String) → t ≢ "" → (t == "") ≡ false
    blank t h = ground (arith, eq_iff t "")

    protocol :
        (r.protocol ≡ protocol_tcp) ⊎ (r.protocol ≡ protocol_udp) ⊎ (r.protocol ≡ protocol_tcp_udp)
        → (not (r.protocol == protocol_tcp)
            && not (r.protocol == protocol_udp)
            && not (r.protocol == protocol_tcp_udp))
          ≡ false
    protocol h = ground (
      arith,
      eq_iff r.protocol protocol_tcp,
      eq_iff r.protocol protocol_udp,
      eq_iff r.protocol protocol_tcp_udp,
    )

    ports :
        0 < r.listen_port → 0 < r.target_port → (eqb r.listen_port 0 || eqb r.target_port 0) ≡ false
    ports h k = ground arith

    width : r.bandwidth_kbps ≤ max_bandwidth_kbps → ltb max_bandwidth_kbps r.bandwidth_kbps ≡ false
    width h = ground arith

accepted-IsValid : (net : Net) (r : ForwardRule) → validate net r ≡ none → IsValid net r
unfolding validate
accepted-IsValid net r h =
    let parts = or_else-none (first_failure (rule_guards net r)) _ h in
    passed-IsValid net r (first_failure-none (rule_guards net r) parts.0)
      (first_bad_cidr-none net (r.allow_cidrs ++ r.deny_cidrs) parts.1)

IsValid-accepted : (net : Net) (r : ForwardRule) → IsValid net r → validate net r ≡ none
unfolding validate or_else
IsValid-accepted net r v =
    rw (none-first_failure (rule_guards net r) (IsValid-Passes net r v))
      (none-first_bad_cidr net (r.allow_cidrs ++ r.deny_cidrs) v.cidrs)

-- `Validate` returns nil exactly for the rules that `IsValid` describes: an identifier and a name
-- that are not blank, a known protocol, an ingress node, the shape of the rule's mode, ports above
-- 0, a bandwidth within the maximum, a target that is not blank, and CIDRs that all parse.
pub validate-none_iff : (net : Net) (r : ForwardRule) → (validate net r ≡ none) ↔ IsValid net r
validate-none_iff net r = (accepted-IsValid net r, IsValid-accepted net r)
