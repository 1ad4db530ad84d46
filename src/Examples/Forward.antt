-- ===== src/Examples/Forward.antt =====
-- Prepared rules of the node n1, its limiter, and its manager under Apply.
use portflow.Prelude.{
  ℕ, ◌+◌, ◌-◌, ◌*◌, ◌≤◌, List, arith, ◌≡◌, refl, String, true, false, none, some, [], ◌∷◌, contains,
  eqb, if◌then◌else◌, first_failure, or_else, trim_space,
}
use portflow.Dict.{Dict, lookup, insert}
use portflow.Domain.{
  ForwardRule, protocol_tcp, protocol_udp, validate, valid_tunnel_address, first_bad_cidr,
}
use portflow.Forward.Prepare.{
  PreparedRule, prepare_rules, prepare_all, prepare_rule, prepared_rule, effective_rule,
  networks_of, claim, owner,
}
use portflow.Forward.Prepare.Listeners.{prepare_rules-Disjoint}
use portflow.Forward.Bandwidth.{BandwidthLimiter, new_bandwidth_limiter, byte, update}
use portflow.Forward.Bandwidth.Rate.{total_granted, end_of, total_granted-bound}
use portflow.Forward.Bandwidth.Waiting.{Returns, wait_loop, wait_loop-Returns}
use portflow.Forward.Manager.{
  Host, Manager, new_listener, apply, apply_udp, start_all, start_one, runs, stays, close_all,
  without, listen_failed, next_listeners, close_replaced, commit_apply, next_limiters,
}
use portflow.Forward.Manager.Serving.{Serves, apply-Serves}
use portflow.Forward.Manager.Rollback.{IsTidy, Untouched, apply-Untouched}
use portflow.Forward.Manager.Growth.{is_open}
use portflow.Forward.Manager.Ownership.Owned.{nothing-AreOwned}
use portflow.Forward.Manager.Calls.{IsKept, applies, closes, Call, run_manager, run_manager-IsKept}
use portflow.Examples.Fleet.{sample_net, web_rule}

abbrev web_id : String
web_id = "r1"

prepare_rules-Disjoint_example : web_id ≡ "r1"
unfolding prepare_rules prepare_all prepare_rule effective_rule networks_of claim owner validate
    valid_tunnel_address first_bad_cidr first_failure or_else trim_space contains lookup insert
prepare_rules-Disjoint_example =
    prepare_rules-Disjoint sample_net (web_rule ∷ []) "n1"
      (("r1", prepared_rule sample_net web_rule) ∷ []) web_id "r1"
      (prepared_rule sample_net web_rule) (prepared_rule sample_net web_rule) "tcp" refl refl refl
      refl refl refl refl

-- A megabit a second; two passes a second apart.
abbrev limiter : BandwidthLimiter
limiter = new_bandwidth_limiter 1000 0

abbrev calls : List (ℕ × ℕ)
calls = (50000 * byte, 0) ∷ (20000 * byte, 1000000000) ∷ []

total_granted-bound_example :
    total_granted limiter calls
    ≤ limiter.tokens + (end_of limiter.last_refill calls - limiter.last_refill) * limiter.rate
unfolding new_bandwidth_limiter
total_granted-bound_example =
    total_granted-bound limiter calls (omega arith) (omega arith) (omega arith, (omega arith, tt))

-- The timers are a nanosecond late at each pass.
wait_loop-Returns_example :
    Returns (wait_loop (λ fuel. 1) (50000 * byte + 2) limiter (50000 * byte) 1000)
unfolding new_bandwidth_limiter
wait_loop-Returns_example =
    wait_loop-Returns (λ fuel. 1) limiter (50000 * byte) 1000
      (record { running = refl; limited = omega arith; roomy = omega arith }) (omega arith)
      (omega arith)

-- The first call that opens a socket succeeds, the second fails.
abbrev busy_host : Host
busy_host = record {
  listen = λ network address port calls. if eqb calls 5 then some (1 ∷ []) else none;
  deep_equal = λ old new. true;
}

abbrev idle : Manager
idle = record {
  forwarders = [];
  udp_forwarders = [];
  limiters = [];
  node_id = "n1";
  closed = false;
  sockets = record { opened = []; calls = 4 };
}

idle-IsTidy : IsTidy idle
unfolding is_open
idle-IsTidy = record { below = λ h e. absurd (ground arith) }

apply-Untouched_example :
    Untouched idle
      (apply sample_net busy_host 100 idle
        (web_rule ∷ record web_rule { id = "r2"; listen_port = 8081 } ∷ [])).1
unfolding apply apply_udp start_all start_one runs stays close_all without prepare_rules prepare_all
    prepare_rule effective_rule networks_of claim owner validate valid_tunnel_address first_bad_cidr
    first_failure or_else trim_space contains lookup insert
apply-Untouched_example =
    apply-Untouched sample_net busy_host 100 idle
      (web_rule ∷ record web_rule { id = "r2"; listen_port = 8081 } ∷ [])
      (listen_failed "r2" (1 ∷ [])) idle-IsTidy refl

-- Every socket opens, and no two rules are taken as equal.
abbrev pub free_host : Host
free_host = record { listen = λ network address port calls. none; deep_equal = λ old new. false }

-- The rule r1 has its listener; then its target changes, and a second rule comes.
abbrev serving : Manager
serving = record idle {
  forwarders = ("r1", new_listener 3 (prepared_rule sample_net web_rule)) ∷ [];
  sockets = record { opened = 3 ∷ []; calls = 4 };
}

abbrev next_rules : List ForwardRule
next_rules =
    record web_rule { target_port = 81 } ∷ record web_rule { id = "r2"; listen_port = 8081 } ∷ []

abbrev next_prepared : Dict PreparedRule
next_prepared =
    ("r1", prepared_rule sample_net (record web_rule { target_port = 81 }))
    ∷ ("r2", prepared_rule sample_net (record web_rule { id = "r2"; listen_port = 8081 }))
    ∷ []

apply-Serves_example :
    Serves protocol_tcp next_prepared
      (apply sample_net free_host 100 serving next_rules).1.forwarders
    × Serves protocol_udp next_prepared
        (apply sample_net free_host 100 serving next_rules).1.udp_forwarders
unfolding apply apply_udp start_all start_one runs stays close_all without prepare_rules prepare_all
    prepare_rule effective_rule networks_of claim owner validate valid_tunnel_address first_bad_cidr
    first_failure or_else trim_space contains lookup insert
apply-Serves_example =
    apply-Serves sample_net free_host 100 serving next_rules next_prepared
      (λ old new equal. absurd (ground (arith, equal))) refl refl

idle-IsKept : IsKept idle
unfolding is_open
idle-IsKept = record { owned = nothing-AreOwned idle.sockets λ h. refl; quiet = λ h. refl }

-- The sixth socket of the process does not open: the second call fails, the third succeeds.
abbrev history : List Call
history =
    applies 100 (web_rule ∷ [])
    ∷ applies 200 next_rules
    ∷ applies 300 next_rules
    ∷ closes
    ∷ applies 400 next_rules
    ∷ []

run_manager-IsKept_example : IsKept (run_manager sample_net busy_host idle history)
run_manager-IsKept_example = run_manager-IsKept sample_net busy_host idle history idle-IsKept

run_manager_after_two :
    (run_manager sample_net busy_host idle
      (applies 100 (web_rule ∷ []) ∷ applies 200 next_rules ∷ [])).sockets.opened
    ≡ 4 ∷ []
unfolding run_manager apply apply_udp start_all start_one runs stays close_all without prepare_rules
    prepare_all prepare_rule effective_rule networks_of claim owner validate valid_tunnel_address
    first_bad_cidr first_failure or_else trim_space contains lookup insert next_listeners
    close_replaced commit_apply next_limiters update
run_manager_after_two = refl
