-- ===== src/Forward/Tcp.antt =====
-- The accept loop, handle and close of a tcpForwarder in internal/forward/tcp.go. A connection is a
-- handle, the number of the accept or dial that opened it; a session stands under its connection to
-- the target. A handler is the goroutine that serves one client. What the accept loop, the handlers,
-- Apply and close do between two waits is a step each; permits, the dial, the copying and its end are
-- the environment's.
pub mod Handlers
pub mod Sound
pub mod Steps
use portflow.Prelude.{
  ℕ, ◌+◌, ◌-◌, ◌%◌, ◌^◌, ◌≡◌, Bool, true, false, Option, none, some, List, [], ◌∷◌, ◌&&◌, ◌||◌, not,
  eqb, ltb, leb, if◌then◌else◌, on_option, length,
}
use portflow.Forward.Prepare.{PreparedRule}
use portflow.Forward.Manager.{without}
use portflow.Forward.Udp.{within}

-- The client, and the target once it is dialed and tracked.
pub record Handler : Type 0 where
  pub client : ℕ
  pub target : Option ℕ

-- `opened` is what is open of the connections, `made` how many there have been; `connections` is
-- what track and untrack keep, `sessions` the map of the connections' statistics.
pub record TcpForwarder : Type 0 where
  pub config : PreparedRule
  pub closed : Bool
  pub active : ℕ
  pub connections : List ℕ
  pub sessions : List ℕ
  pub handlers : List Handler
  pub opened : List ℕ
  pub made : ℕ

abbrev pub new_tcp_forwarder : PreparedRule → ℕ → TcpForwarder
new_tcp_forwarder config made = record {
  config = config;
  closed = false;
  active = 0;
  connections = [];
  sessions = [];
  handlers = [];
  opened = [];
  made = made;
}

-- What the accept loop does with a client, as permits decides: it is closed at once, or handled.
unfoldable pub accept : Bool → TcpForwarder → TcpForwarder
accept permitted forwarder =
    let client = forwarder.made in
    let maximum = forwarder.config.rule.max_connections in
    let active = (forwarder.active + 1) % 2 ^ 64 in
    let refused = record forwarder { made = client + 1 } in
    let released = record forwarder {
      made = client + 1;
      active = (active + (2 ^ 64 - 1)) % 2 ^ 64;
    } in
    if not permitted
    then refused
    else if (ltb 0 maximum && ltb maximum active) || forwarder.closed
    then released
    else record forwarder {
      active = active;
      connections = client ∷ forwarder.connections;
      handlers = record { client = client; target = none } ∷ forwarder.handlers;
      opened = client ∷ forwarder.opened;
      made = client + 1;
    }

unfoldable pub find_handler : ℕ → List Handler → Option Handler
find_handler client [] = none
find_handler client (handler ∷ handlers) =
    if eqb handler.client client then some handler else find_handler client handlers

unfoldable pub drop_handler : ℕ → List Handler → List Handler
drop_handler client [] = []
drop_handler client (handler ∷ handlers) =
    if eqb handler.client client then handlers else handler ∷ drop_handler client handlers

unfoldable pub link_handler : ℕ → ℕ → List Handler → List Handler
link_handler client target [] = []
link_handler client target (handler ∷ handlers) =
    if eqb handler.client client
    then record handler { target = some target } ∷ handlers
    else handler ∷ link_handler client target handlers

-- Take a connection out of a list, where there is one.
abbrev pub release : Option ℕ → List ℕ → List ℕ
release connection list = on_option connection list λ c. without c list

-- handle's deferred calls, the last one first.
unfoldable pub end_handler : Handler → TcpForwarder → TcpForwarder
unfolding without drop_handler
end_handler handler forwarder = record forwarder {
  sessions = release handler.target forwarder.sessions;
  connections = without handler.client (release handler.target forwarder.connections);
  opened = without handler.client (release handler.target forwarder.opened);
  active = (forwarder.active + (2 ^ 64 - 1)) % 2 ^ 64;
  handlers = drop_handler handler.client forwarder.handlers;
}

-- The dial to the target succeeds: the target is tracked and gets a session, or the forwarder is
-- closed and the handler ends.
unfoldable pub dialed_target : Handler → TcpForwarder → TcpForwarder
unfolding end_handler link_handler
dialed_target handler forwarder =
    let target = forwarder.made in
    if forwarder.closed
    then end_handler handler (record forwarder { made = target + 1 })
    else record forwarder {
      connections = target ∷ forwarder.connections;
      sessions = target ∷ forwarder.sessions;
      handlers = link_handler handler.client target forwarder.handlers;
      opened = target ∷ forwarder.opened;
      made = target + 1;
    }

unfoldable pub close_each : List ℕ → List ℕ → List ℕ
unfolding without
close_each [] opened = opened
close_each (c ∷ connections) opened = close_each connections (without c opened)

-- close, up to its wait for the handlers
unfoldable pub close_tcp : TcpForwarder → TcpForwarder
unfolding close_each
close_tcp forwarder = if forwarder.closed then forwarder else record forwarder {
  closed = true;
  opened = close_each forwarder.connections forwarder.opened;
}

-- A step, where the rules' maxima stay within a limit.
pub data Step (limit : ℕ) : TcpForwarder → TcpForwarder → Type 0 where
  accepted : (f : TcpForwarder) (permitted : Bool) → Step limit f (accept permitted f)
  dialed :
      (f : TcpForwarder) (handler : Handler)
      → find_handler handler.client f.handlers ≡ some handler
      → handler.target ≡ none
      → Step limit f (dialed_target handler f)
  ended :
      (f : TcpForwarder) (handler : Handler)
      → find_handler handler.client f.handlers ≡ some handler
      → Step limit f (end_handler handler f)
  changed :
      (f : TcpForwarder) (config : PreparedRule)
      → within limit config ≡ true
      → Step limit f (record f { config = config })
  shut : (f : TcpForwarder) → Step limit f (close_tcp f)

pub data Reached (limit : ℕ) (f : TcpForwarder) : TcpForwarder → Type 0 where
  here : Reached limit f f
  later : {g h : TcpForwarder} → Reached limit f g → Step limit g h → Reached limit f h
