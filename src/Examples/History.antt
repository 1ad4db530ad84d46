-- ===== src/Examples/History.antt =====
-- A node enrols and reports, a rule is made on it, and a second one on the same listener.
use portflow.Prelude.{ℕ, ◌≡◌, refl, true, some, List, [], ◌∷◌, ok, map, String}
use portflow.Domain.{forward_direct, protocol_tcp}
use portflow.Store.Rules.Conflicts.{NoClash}
use portflow.Control.Http.{Request, Fresh}
use portflow.Control.Rules.{ForwardRuleInput}
use portflow.Control.Api.{
  Call, serve, new_server, setup_admin_call, login_call, enrollment_tokens_call, enroll_call,
  heartbeat_call, forward_rules_call,
}
use portflow.Control.Api.Clashes.{serve-rules_apart}
use portflow.Examples.Fleet.{sample_net}
use portflow.Examples.Api.{sample_env, sample_fresh, post, root, root_login, one_connection}
use portflow.Domain.{protocols_overlap, first_bad_cidr, validate}
use portflow.Auth.{hash_password, normalize_username}
use portflow.Store.Sessions.{create_session, session_user_by_token_hash}
use portflow.Store.Users.{create_initial_user, user_by_username}
use portflow.Store.Rules.{
  rule_nodes_available, clash, any_conflict, listener_conflict, bump_nodes, rebuild_agent_config,
  rebuild_agent_configs, create_forward_rule,
}
use portflow.Store.Telemetry.{update_agent_heartbeat, record_audit}
use portflow.Store.Enrollment.{create_enrollment_token, enroll_agent}
use portflow.Control.Forwarding.{forward_rules}
use portflow.Control.Access.{require_user}
use portflow.Control.Http.{audit}
use portflow.Control.Rules.{is_multicast, valid_target_host, build_forward_rule}
use portflow.Control.Enroll.{enrollment_tokens, enroll}
use portflow.Control.Login.{setup_admin, credentials, login, logout}
use portflow.Control.Throttle.{login_rate_limited}
use portflow.Control.Heartbeat.{agent_heartbeat}
use portflow.Prelude.{first_failure, or_else}
use portflow.Dict.{lookup, insert, get_or}

abbrev by_root : Request
by_root = record post { cookie = some "token1" }

abbrev by_node : Request
by_node = record post { node_header = "n1"; authorization = "Bearer key" }

abbrev web : ForwardRuleInput
web = record {
  name = "web";
  protocol = protocol_tcp;
  mode = forward_direct;
  ingress_node_id = "n1";
  egress_node_id = "";
  listen_host = "0.0.0.0";
  listen_port = 443;
  target_host = "example.org";
  target_port = 8443;
  relay_port = 0;
  enabled = true;
  bandwidth_kbps = 1000;
  max_connections = 10;
  allow_cidrs = [];
  deny_cidrs = [];
}

abbrev history : List (Request × Fresh × Call)
history =
    (post, sample_fresh, setup_admin_call (ok root))
    ∷ (post, sample_fresh, login_call (ok root_login))
    ∷ (
      by_root,
      record sample_fresh { id = some "x1"; token = some "ticket" },
      enrollment_tokens_call (ok (record { name = "edge"; expires_in = 10 })),
    )
    ∷ (
      post,
      record sample_fresh { id = some "n1"; token = some "key" },
      enroll_call (
          ok (record {
            token = "ticket";
            name = "edge";
            region = "eu";
            architecture = "amd64";
            agent_version = "1";
          })),
    )
    ∷ (by_root, record sample_fresh { id = some "r1" }, forward_rules_call (ok web))
    ∷ (
      by_root,
      record sample_fresh { id = some "r2" },
      forward_rules_call (ok (record web { name = "again" })),
    )
    ∷ (
      by_root,
      record sample_fresh { id = some "r3" },
      forward_rules_call (ok (record web { listen_port = 444 })),
    )
    ∷ (
      by_node,
      sample_fresh,
      heartbeat_call (
          ok (record one_connection {
            connections = [];
            rule_stats =
                record { rule_id = "r1"; active_conns = 2; bytes_in = 7; bytes_out = 8 } ∷ [];
          })),
    )
    ∷ []

serve-rules_apart_example :
    NoClash (serve sample_net sample_env new_server history).memory.forward_rules
serve-rules_apart_example = serve-rules_apart sample_net sample_env history

-- The second rule is refused, and the report reaches the first.
abbrev kept : List (String × ℕ)
kept =
    map (λ (id, rule). (id, rule.bytes_in))
      (serve sample_net sample_env new_server history).memory.forward_rules

kept_entries : kept ≡ ("r1", 7) ∷ ("r3", 0) ∷ []
unfolding protocols_overlap first_bad_cidr validate hash_password normalize_username create_session
    session_user_by_token_hash create_initial_user user_by_username rule_nodes_available clash
    any_conflict listener_conflict bump_nodes rebuild_agent_config rebuild_agent_configs
    create_forward_rule update_agent_heartbeat record_audit create_enrollment_token enroll_agent
    forward_rules require_user audit is_multicast valid_target_host build_forward_rule
    enrollment_tokens enroll setup_admin credentials login logout login_rate_limited agent_heartbeat
    serve first_failure or_else lookup insert get_or
kept_entries = refl
