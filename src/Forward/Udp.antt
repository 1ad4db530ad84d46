-- ===== src/Forward/Udp.antt =====
-- internal/forward/udp.go: the sessions of one UDP forwarder. A session is one client's address with
-- a connection of its own to the target, which is a handle, the number of the dial that opened it.
-- A function is a stretch of code under the lock; what the goroutines do between two of them is a
-- step each: the read loop, which dials without the lock, the sessions' response loops, which end at
-- any time, Apply's update, and close. Packets, deadlines and byte counters are left out.
pub mod Sessions
pub mod Sound
pub mod Steps
pub mod Closing
use portflow.Prelude.{
  ℕ, suc, ◌+◌, ◌-◌, ◌%◌, ◌^◌, ◌≤◌, ◌<◌, ◌≡◌, String, Bool, true, false, Option, none, some, List,
  [], ◌∷◌, ◌==◌, ◌&&◌, ◌||◌, not, eqb, ltb, leb, if◌then◌else◌, on_option, length,
}
use portflow.Dict.{Dict, lookup, insert, remove, values}
use portflow.Forward.Prepare.{PreparedRule}
use portflow.Forward.Manager.{without}

pub record UdpSession : Type 0 where
  pub key : String
  pub rule_id : String
  pub target_host : String
  pub target_port : ℕ
  pub target : ℕ

-- The fields of udpForwarder, with the open connections to targets and the number of dials.
pub record UdpForwarder : Type 0 where
  pub config : PreparedRule
  pub closed : Bool
  pub sessions : Dict UdpSession
  pub active : ℕ
  pub targets : List ℕ
  pub dials : ℕ

-- What sessionFor finds before it dials.
pub data Found : Type 0 where
  existing : UdpSession → Found
  too_many : Found
  must_dial : Found

-- The first part of sessionFor, under the lock.
unfoldable pub find_session : String → PreparedRule → UdpForwarder → Found
find_session key config forwarder =
    let maximum = config.rule.max_connections in
    on_option (lookup key forwarder.sessions)
      (if ltb 0 maximum && leb maximum (length forwarder.sessions) then too_many else must_dial)
      existing

-- The dial succeeds.
abbrev pub open_target : UdpForwarder → UdpForwarder
open_target forwarder = record forwarder {
  targets = forwarder.dials ∷ forwarder.targets;
  dials = forwarder.dials + 1;
}

abbrev pub close_target : ℕ → UdpForwarder → UdpForwarder
close_target target forwarder = record forwarder { targets = without target forwarder.targets }

abbrev pub new_session : String → PreparedRule → ℕ → UdpSession
new_session key config target = record {
  key = key;
  rule_id = config.rule.id;
  target_host = config.target_host;
  target_port = config.target_port;
  target = target;
}

-- The second part of sessionFor, under the lock, with the connection that the dial gave.
unfoldable pub finish_session :
    String → PreparedRule → ℕ → UdpForwarder → Option UdpSession × UdpForwarder
finish_session key config target forwarder =
    if forwarder.closed
    then (none, close_target target forwarder)
    else on_option (lookup key forwarder.sessions)
        (
          some (new_session key config target),
          record forwarder {
            sessions = insert key (new_session key config target) forwarder.sessions;
            active = (forwarder.active + 1) % 2 ^ 64;
          },
        )
        λ other. (some other, close_target target forwarder)

-- udpSession.close, at its first call: the session leaves the map if it is the one in it.
unfoldable pub close_session : UdpSession → UdpForwarder → UdpForwarder
unfolding without
close_session session forwarder =
    let left = close_target session.target forwarder in
    on_option (lookup session.key forwarder.sessions) left λ other.
      if eqb other.target session.target
      then record left {
        sessions = remove session.key forwarder.sessions;
        active = (forwarder.active + (2 ^ 64 - 1)) % 2 ^ 64;
      }
      else left

unfoldable pub close_all_of : List UdpSession → UdpForwarder → UdpForwarder
unfolding close_session
close_all_of [] forwarder = forwarder
close_all_of (session ∷ sessions) forwarder =
    close_all_of sessions (close_session session forwarder)

-- closeSessions, over the sessions that it copied
abbrev pub close_sessions : UdpForwarder → UdpForwarder
close_sessions forwarder = close_all_of (values forwarder.sessions) forwarder

unfoldable pub update_udp : PreparedRule → UdpForwarder → UdpForwarder
unfolding close_all_of
update_udp config forwarder =
    let next = record forwarder { config = config } in
    if forwarder.config.target_host == config.target_host
      && eqb forwarder.config.target_port config.target_port
    then next
    else close_sessions next

-- close of the forwarder
unfoldable pub close_udp : UdpForwarder → UdpForwarder
unfolding close_all_of
close_udp forwarder =
    if forwarder.closed then forwarder else close_sessions (record forwarder { closed = true })

-- Where the read loop stands in sessionFor: not in it, dialing, or with a connection.
pub data Reader : Type 0 where
  reading : Reader
  dialing : String → PreparedRule → Reader
  dialed : String → PreparedRule → ℕ → Reader

-- The rule's maximum is at most this; a limit of 0 stands for no limit, and then so may the maximum.
abbrev pub within : ℕ → PreparedRule → Bool
within limit config =
    eqb limit 0 || (ltb 0 config.rule.max_connections && leb config.rule.max_connections limit)

-- A step of one of the goroutines, where the rules' maxima stay within a limit. A session's end is
-- that of a session that is in the map.
pub data Step (limit : ℕ) : UdpForwarder → Reader → UdpForwarder → Reader → Type 0 where
  ask :
      (f : UdpForwarder) (key : String)
      → find_session key f.config f ≡ must_dial
      → Step limit f reading f (dialing key f.config)
  dial_fails :
      (f : UdpForwarder) (key : String) (config : PreparedRule)
      → Step limit f (dialing key config) f reading
  dial_succeeds :
      (f : UdpForwarder) (key : String) (config : PreparedRule)
      → Step limit f (dialing key config) (open_target f) (dialed key config f.dials)
  finish :
      (f : UdpForwarder) (key : String) (config : PreparedRule) (target : ℕ)
      → Step limit f (dialed key config target) (finish_session key config target f).1 reading
  session_ends :
      (f : UdpForwarder) (reader : Reader) (session : UdpSession)
      → lookup session.key f.sessions ≡ some session
      → Step limit f reader (close_session session f) reader
  change :
      (f : UdpForwarder) (reader : Reader) (config : PreparedRule)
      → within limit config ≡ true
      → Step limit f reader (record f { config = config }) reader
  shut :
      (f : UdpForwarder) (reader : Reader) → Step limit f reader (record f { closed = true }) reader

-- Any number of steps, of whichever goroutines.
pub data Reached (limit : ℕ) (f : UdpForwarder) (r : Reader) : UdpForwarder → Reader → Type 0 where
  here : Reached limit f r f r
  later :
      {g h : UdpForwarder} {s t : Reader}
      → Reached limit f r g s
      → Step limit g s h t
      → Reached limit f r h t

-- newUDPForwarder, where the process has opened so many connections before
abbrev pub new_udp_forwarder : PreparedRule → ℕ → UdpForwarder
new_udp_forwarder config dials = record {
  config = config;
  closed = false;
  sessions = [];
  active = 0;
  targets = [];
  dials = dials;
}
