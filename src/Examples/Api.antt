-- ===== src/Examples/Api.antt =====
-- A server that is set up, and requests to it.
use portflow.Prelude.{
  map, trim_space, byte_length, lower, contains, ◌≡◌, refl, true, false, some, none, List, [], ◌∷◌,
  ◌==◌, ok, err, str_append, arith, eq_iff,
}
use portflow.Store.{AgentHeartbeat, role_admin}
use portflow.Store.Telemetry.{record_audit}
use portflow.Store.Users.{create_initial_user, user_by_username}
use portflow.Auth.{normalize_username, hash_password}
use portflow.Control.Throttle.{login_rate_limited}
use portflow.Store.Sessions.{session_user_by_token_hash, create_session}
use portflow.Dict.{lookup, insert, get_or}
use portflow.Store.Users.Indexed.{new_memory-IsIndexed}
use portflow.Control.Access.{require_user, invalid_session}
use portflow.Control.Http.{
  Request, Environment, Fresh, Server, PublicUser, reply, refusal, one_user, invalid_json,
  session_token, audit, only_method, with_body, public_user,
}
use portflow.Control.Login.{
  Credentials, LoginInput, login, logout, me, setup_admin, bootstrap, authenticate, credentials,
  open_session,
}
use portflow.Control.Login.Opens.{Ends}
use portflow.Control.Login.Outcome.{LogsIn, login_outcome}
use portflow.Control.Login.Token.{login-me-logout}
use portflow.Control.Heartbeat.{
  HeartbeatInput, reading, checked_heartbeat, bad_metrics, checked, invalid_percent, invalid_load,
  stored_heartbeat, snapshot, log_entry,
}
use portflow.Control.Heartbeat.Bounds.{IsBounded, AreRead, checked_heartbeat-IsBounded}
use portflow.Control.Api.{Call, handle, serve, new_server, setup_admin_call, login_call, users_call}
use portflow.Control.Api.Steps.{Leads}
use portflow.Control.Api.Refines.{handle-Leads}
use portflow.Control.Api.Accounts.{IsStaffed, serve-new_server}
use portflow.Control.Api.Denied.{IsDenied, required_role, turned_away, handle-IsDenied}
use portflow.Examples.Auth.{sample_hmac}
use portflow.Examples.Fleet.{sample_net}

abbrev pub sample_env : Environment
sample_env = record {
  token_hash = λ token. str_append "h:" token;
  check_password = λ hash password. hash == password;
  bcrypt = λ password. some password;
  decrypt = λ secret. some secret;
  hmac = sample_hmac;
  session_ttl = 100;
}

abbrev pub sample_fresh : Fresh
sample_fresh = record {
  id = some "id1";
  token = some "token1";
  totp_secret = some "SECRET";
  encrypted = some "SECRET";
  recovery_codes = some [];
}

abbrev pub post : Request
post = record {
  method = "POST";
  path = "";
  cookie = none;
  authorization = "";
  node_header = "";
  remote_ip = "192.0.2.1";
  now = 10;
  audit_id = some "a1";
}

abbrev pub root : Credentials
root = record { username = "root"; password = "correct horse battery" }

abbrev setup_then_login : List (Request × Fresh × Call)
setup_then_login =
    (post, sample_fresh, setup_admin_call (ok root))
    ∷ (
      post,
      sample_fresh,
      login_call (
          ok (record {
            username = "root";
            password = "correct horse battery";
            code = "";
            recovery_code = "";
          })),
    )
    ∷ []

serve-new_server_example :
    IsStaffed (serve sample_net sample_env new_server setup_then_login).memory
serve-new_server_example = serve-new_server sample_net sample_env setup_then_login

handle-Leads_example :
    Leads sample_net new_server.memory
      (handle sample_net sample_env new_server post sample_fresh
        (setup_admin_call (ok root))).1.memory
handle-Leads_example =
    handle-Leads sample_net sample_env new_server post sample_fresh (setup_admin_call (ok root))
      new_memory-IsIndexed

abbrev stranger : Request
stranger = record post { cookie = some "token1" }

handle-IsDenied_example :
    IsDenied new_server invalid_session false (
      handle sample_net sample_env new_server stranger sample_fresh (users_call (err invalid_json)))
unfolding required_role turned_away require_user session_token session_user_by_token_hash lookup
handle-IsDenied_example =
    handle-IsDenied sample_net sample_env new_server stranger sample_fresh
      (users_call (err invalid_json)) role_admin invalid_session refl refl

-- The server with its first account.
abbrev ready : Server
ready = (handle sample_net sample_env new_server post sample_fresh (setup_admin_call (ok root))).1

abbrev pub root_login : LoginInput
root_login = record {
  username = "root";
  password = "correct horse battery";
  code = "";
  recovery_code = "";
}

ready-IsStaffed : IsStaffed ready.memory
unfolding serve
ready-IsStaffed =
    serve-new_server sample_net sample_env ((post, sample_fresh, setup_admin_call (ok root)) ∷ [])

login_outcome_example :
    Ends sample_env post sample_fresh ready.memory
      (LogsIn sample_env ready post (ok root_login))
      (login sample_env ready post sample_fresh (ok root_login))
login_outcome_example =
    login_outcome sample_env ready post sample_fresh (ok root_login) ready-IsStaffed.indexed

abbrev root_shown : PublicUser
root_shown = record {
  id = "id1";
  username = "root";
  role = "admin";
  disabled = false;
  mfa_enabled = false;
  created_at = 10;
}

abbrev glance : Request
glance = record post { method = "GET"; cookie = some "token1"; now = 109 }

login-me-logout_example :
    let entered = (login sample_env ready post sample_fresh (ok root_login)).1 in
    let left = (logout sample_env entered (record post { cookie = some "token1" })).1 in
    (me sample_env entered glance ≡ (reply 200 (one_user root_shown), entered))
    × (me sample_env left glance ≡ (refusal 401 "invalid_session", left))
unfolding handle setup_admin bootstrap normalize_username hash_password create_initial_user login
    authenticate credentials user_by_username login_rate_limited open_session create_session audit
    only_method with_body lookup insert public_user record_audit get_or
login-me-logout_example =
    login-me-logout sample_env ready post sample_fresh (ok root_login) "token1" root_shown 110
      glance (record post { cookie = some "token1" }) ready-IsStaffed.indexed refl
      (λ e. ground (arith, eq_iff "token1" "")) (record { asks = refl; carries = refl })
      (omega arith) refl refl

abbrev pub one_connection : HeartbeatInput
one_connection = record {
  agent_version = " 1.2.0 ";
  tunnel_address = "";
  config_version = 3;
  attempted_config_version = 0;
  last_config_error = "";
  cpu_percent = reading 1250;
  memory_percent = reading 5000;
  load_one = reading 30;
  disk_percent = reading 10000;
  network_rx_bps = 10;
  network_tx_bps = 10;
  active_conns = 1;
  bytes_in = 100;
  bytes_out = 100;
  rule_stats = [];
  connections =
      record {
        id = "c1";
        rule_id = "r1";
        protocol = "TCP";
        source_address = "198.51.100.7:4000";
        target_address = "10.0.0.2:80";
        started_at = 5;
        last_activity = 9;
        bytes_in = 100;
        bytes_out = 100;
      }
      ∷ [];
  connections_complete = true;
  logs = [];
}

abbrev its_record : AgentHeartbeat
its_record = stored_heartbeat post one_connection [] (map snapshot one_connection.connections) []

checked_heartbeat-IsBounded_example :
    IsBounded sample_net post its_record
    × (its_record
        ≡ stored_heartbeat post one_connection []
            (map snapshot one_connection.connections)
            (map log_entry []))
    × AreRead one_connection
unfolding checked_heartbeat bad_metrics checked invalid_percent invalid_load trim_space byte_length
    lower contains
checked_heartbeat-IsBounded_example =
    checked_heartbeat-IsBounded sample_net post one_connection its_record refl
