-- ===== src/Forward/Manager.antt =====
-- The manager of internal/forward/tcp.go: Apply and Close. A forwarder is the socket that it listens
-- on, under a handle that no other socket gets, with its address and its rule; the connections that
-- it carries are left out. A call of Apply runs without another's steps between its own.
pub mod Growth
mod Settled
pub mod Rollback
mod Chosen
pub mod Serving
mod Tidy
pub mod Ownership
pub mod Calls
pub mod Running
use portflow.Prelude.{
  ℕ, ◌+◌, String, Bool, true, false, Option, none, some, List, [], ◌∷◌, ◌==◌, ◌&&◌, ◌||◌, not, eqb,
  if◌then◌else◌, on_option, on_result, Result, ok, err,
}
use portflow.Dict.{Dict, lookup, insert}
use portflow.Domain.{Net, ForwardRule, protocol_tcp, protocol_udp, protocol_tcp_udp}
use portflow.Forward.Prepare.{PreparedRule, PrepareError, prepare_rules}
use portflow.Forward.Bandwidth.{BandwidthLimiter, new_bandwidth_limiter, update}

-- What comes from outside: the error of the n-th call that opens a socket, by network and address,
-- and reflect.DeepEqual on rules.
pub record Host : Type 0 where
  pub listen : String → String → ℕ → ℕ → Option (List ℕ)
  pub deep_equal : ForwardRule → ForwardRule → Bool

-- The open sockets by their handles, and the number of calls so far.
pub record Sockets : Type 0 where
  pub opened : List ℕ
  pub calls : ℕ

-- tcpForwarder, and udpForwarder of udp.go
pub record Listener : Type 0 where
  pub handle : ℕ
  pub listen_host : String
  pub listen_port : ℕ
  pub config : PreparedRule

pub record Manager : Type 0 where
  pub forwarders : Dict Listener
  pub udp_forwarders : Dict Listener
  pub limiters : Dict BandwidthLimiter
  pub node_id : String
  pub closed : Bool
  pub sockets : Sockets

pub data ApplyError : Type 0 where
  rules_invalid : PrepareError → ApplyError
  manager_closed : ApplyError
  listen_failed : String → List ℕ → ApplyError

-- The rule runs over this protocol, alone or with the other.
unfoldable pub runs : String → PreparedRule → Bool
runs own prepared = prepared.rule.protocol == own || prepared.rule.protocol == protocol_tcp_udp

abbrev pub same_address : PreparedRule → Listener → Bool
same_address prepared listener =
    listener.listen_host == prepared.listen_host && eqb listener.listen_port prepared.listen_port

-- The rule has a listener at its address.
unfoldable pub stays : Dict Listener → String → PreparedRule → Bool
stays held id prepared = on_option (lookup id held) false λ listener. same_address prepared listener

abbrev pub new_listener : ℕ → PreparedRule → Listener
new_listener handle prepared = record {
  handle = handle;
  listen_host = prepared.listen_host;
  listen_port = prepared.listen_port;
  config = prepared;
}

-- The listeners that a call of Apply has started, with the sockets.
abbrev pub Started : Type 0
Started = Dict Listener × Sockets

-- Listen for one rule, where it must.
unfoldable pub start_one :
    Host
    → String
    → String
    → Dict Listener
    → String
    → PreparedRule
    → Started
    → Option ApplyError × Started
unfolding runs stays
start_one host network own held id prepared (started, sockets) =
    if not (runs own prepared) || stays held id prepared
    then (none, (started, sockets))
    else on_option (host.listen network prepared.listen_host prepared.listen_port sockets.calls)
        (
          none,
          (
            insert id (new_listener sockets.calls prepared) started,
            record { opened = sockets.calls ∷ sockets.opened; calls = sockets.calls + 1 },
          ),
        )
        λ text.
          (some (listen_failed id text), (started, record sockets { calls = sockets.calls + 1 }))

-- The loop over the desired rules, which ends at the first error.
unfoldable pub start_all :
    Host
    → String
    → String
    → Dict Listener
    → Dict PreparedRule
    → Started
    → Option ApplyError × Started
unfolding start_one
start_all host network own held [] state = (none, state)
start_all host network own held ((id, prepared) ∷ desired) state =
    let (problem, next) = start_one host network own held id prepared state in
    let rest = start_all host network own held desired next in
    on_option problem rest λ e. (some e, next)

unfoldable pub without : ℕ → List ℕ → List ℕ
without handle [] = []
without handle (h ∷ handles) =
    let rest = without handle handles in if eqb h handle then rest else h ∷ rest

abbrev pub close_socket : ℕ → Sockets → Sockets
close_socket handle sockets = record sockets { opened = without handle sockets.opened }

unfoldable pub close_all : Dict Listener → Sockets → Sockets
unfolding without
close_all [] sockets = sockets
close_all ((id, listener) ∷ rest) sockets = close_all rest (close_socket listener.handle sockets)

-- The listeners after Apply: the started ones, and those that stay, with their rules' settings.
unfoldable pub next_listeners :
    String
    → (Listener → PreparedRule → Listener)
    → Dict Listener
    → Dict Listener
    → Dict PreparedRule
    → Dict Listener
unfolding runs
next_listeners own retarget held started [] = []
next_listeners own retarget held started ((id, prepared) ∷ desired) =
    let rest = next_listeners own retarget held started desired in
    if not (runs own prepared)
    then rest
    else on_option (lookup id started)
        (on_option (lookup id held) rest λ listener. (id, retarget listener prepared) ∷ rest)
        λ listener. (id, listener) ∷ rest

abbrev pub retarget_tcp : Host → Listener → PreparedRule → Listener
retarget_tcp host listener prepared =
    if host.deep_equal listener.config.rule prepared.rule
    then listener
    else record listener { config = prepared }

-- udpForwarder.update, but for the sessions that it closes
abbrev pub retarget_udp : Listener → PreparedRule → Listener
retarget_udp listener prepared = record listener { config = prepared }

-- The old listeners that are not among the next ones are closed.
unfoldable pub close_replaced : Dict Listener → Dict Listener → Sockets → Sockets
unfolding without
close_replaced [] next sockets = sockets
close_replaced ((id, listener) ∷ rest) next sockets =
    let remains = on_option (lookup id next) false λ other. eqb other.handle listener.handle in
    close_replaced rest next (if remains then sockets else close_socket listener.handle sockets)

-- The limiters, each with its rule's rate.
unfoldable pub next_limiters : ℕ → Dict BandwidthLimiter → Dict PreparedRule → Dict BandwidthLimiter
next_limiters now held [] = []
next_limiters now held ((id, prepared) ∷ desired) =
    let limiter =
      on_option (lookup id held) (new_bandwidth_limiter prepared.rule.bandwidth_kbps now) λ l. l in
    (id, update limiter prepared.rule.bandwidth_kbps now) ∷ next_limiters now held desired

-- Every listener is open.
unfoldable pub commit_apply :
    Host → ℕ → Manager → Dict PreparedRule → Dict Listener → Dict Listener → Sockets → Manager
unfolding next_listeners close_replaced next_limiters
commit_apply host now manager desired started started_udp sockets =
    let next = next_listeners protocol_tcp (retarget_tcp host) manager.forwarders started desired in
    let next_udp =
      next_listeners protocol_udp retarget_udp manager.udp_forwarders started_udp desired in
    record manager {
      forwarders = next;
      udp_forwarders = next_udp;
      limiters = next_limiters now manager.limiters desired;
      sockets =
          close_replaced manager.udp_forwarders next_udp
            (close_replaced manager.forwarders next sockets);
    }

-- The UDP listeners, behind the TCP listeners.
unfoldable pub apply_udp :
    Host → ℕ → Manager → Dict PreparedRule → Started → Option ApplyError × Manager
unfolding start_all close_all commit_apply
apply_udp host now manager desired (started, sockets) =
    let (problem, state) =
      start_all host "udp" protocol_udp manager.udp_forwarders desired ([], sockets) in
    on_option problem (none, commit_apply host now manager desired started state.0 state.1)
      λ e. (some e, record manager { sockets = close_all state.0 (close_all started state.1) })

unfoldable pub apply : Net → Host → ℕ → Manager → List ForwardRule → Option ApplyError × Manager
unfolding apply_udp
apply net host now manager rules =
    on_result (prepare_rules net rules manager.node_id) (λ e. (some (rules_invalid e), manager))
      λ desired.
        if manager.closed
        then (some manager_closed, manager)
        else let (problem, state) =
            start_all host "tcp" protocol_tcp manager.forwarders desired ([], manager.sockets) in
          on_option problem (apply_udp host now manager desired state)
            λ e. (some e, record manager { sockets = close_all state.0 state.1 })

-- Close
unfoldable pub close_manager : Manager → Manager
unfolding close_all
close_manager manager = if manager.closed then manager else record manager {
  forwarders = [];
  udp_forwarders = [];
  limiters = [];
  closed = true;
  sockets = close_all manager.udp_forwarders (close_all manager.forwarders manager.sockets);
}
