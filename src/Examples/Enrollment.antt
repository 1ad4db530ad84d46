-- ===== src/Examples/Enrollment.antt =====
-- A node enrols with its token and asks for its configuration.
use portflow.Prelude.{◌≡◌, refl, none, some, [], ◌∷◌, ok, trim_space, byte_length, after_prefix}
use portflow.Dict.{lookup, insert}
use portflow.Domain.{Node}
use portflow.Store.{EnrollmentToken}
use portflow.Store.Enrollment.{enroll_agent, enrolled_node}
use portflow.Store.Telemetry.{record_audit}
use portflow.Control.Http.{
  Request, Server, reply, refusal, agent_rules, audit, only_method, with_body,
}
use portflow.Control.Api.{new_server}
use portflow.Control.Enroll.{
  EnrollInput, enroll, post_agent, add_agent, agent_credentials, agent_config, identity_of,
  trimmed_agent,
}
use portflow.Control.Enroll.Admission.{enroll-agent_config}
use portflow.Examples.Api.{sample_env, sample_fresh, post}

abbrev ticket : EnrollmentToken
ticket = record {
  id = "x1";
  name = "edge";
  token_hash = "h:ticket";
  created_by = "u1";
  expires_at = 20;
  created_at = 3;
  used_at = none;
}

-- The token is stored.
abbrev waiting : Server
waiting = record new_server {
  memory = record new_server.memory { enrollment_tokens = ("h:ticket", ticket) ∷ [] };
}

abbrev edge : EnrollInput
edge = record {
  token = "ticket";
  name = " edge ";
  region = "eu";
  architecture = "amd64";
  agent_version = "1.2.0";
}

abbrev edge_node : Node
edge_node = enrolled_node (identity_of sample_env post (trimmed_agent edge) "id1" "token1") 10

abbrev config_request : Request
config_request = record post {
  method = "GET";
  node_header = "id1 ";
  authorization = "Bearer token1";
  now = 30;
}

enroll-agent_config_example :
    let entered = (enroll sample_env waiting post sample_fresh (ok edge)).1 in
    (agent_config sample_env entered config_request
      ≡ (reply 200 (agent_rules (record { version = 1; rules = [] })), entered))
    × (enroll sample_env entered
          (record post { now = 12 })
          (record sample_fresh { id = some "id2" })
          (ok (record edge { name = "other" }))
        ≡ (refusal 401 "invalid_enrollment_token", entered))
unfolding enroll only_method with_body post_agent add_agent enroll_agent lookup insert audit
    record_audit agent_credentials trim_space byte_length after_prefix
enroll-agent_config_example =
    enroll-agent_config sample_env waiting post sample_fresh edge edge_node "token1" config_request
      (record post { now = 12 }) (record edge { name = "other" })
      (record sample_fresh { id = some "id2" }) "token1" "id2" refl refl refl refl refl refl refl
      refl
