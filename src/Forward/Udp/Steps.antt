-- ===== src/Forward/Udp/Steps.antt =====
-- The goroutines of a UDP forwarder under any interleaving.
use portflow.Prelude.{ℕ, ◌≡◌, refl, true, arith}
use portflow.Forward.Prepare.{PreparedRule}
use portflow.Forward.Manager.Growth.{is_open}
use portflow.Forward.Udp.{
  UdpForwarder, Reader, reading, Step, ask, dial_fails, dial_succeeds, finish, session_ends, change,
  shut, Reached, here, later, within, new_udp_forwarder,
}
use portflow.Forward.Udp.Sessions.{holds, AreApart}
use portflow.Forward.Udp.Sound.{
  IsSound, awaits, pending, ask-IsSound, dial_fails-IsSound, dial_succeeds-IsSound, finish-IsSound,
  session_ends-IsSound,
}

-- Every step keeps the sessions sound.
pub Step-IsSound :
    {limit : ℕ} {f g : UdpForwarder} {r s : Reader}
    → Step limit f r g s
    → IsSound limit f r
    → IsSound limit g s
Step-IsSound {limit} (ask f key e) s = ask-IsSound limit f key e s
Step-IsSound {limit} (dial_fails f key config) s = dial_fails-IsSound limit f key config s
Step-IsSound {limit} (dial_succeeds f key config) s = dial_succeeds-IsSound limit f key config s
Step-IsSound {limit} (finish f key config target) s = finish-IsSound limit f key config target s
Step-IsSound {limit} (session_ends f reader session e) s =
    session_ends-IsSound limit f reader session e s
Step-IsSound (change f reader config e) s = record {
  counted = s.counted;
  distinct = s.distinct;
  apart = s.apart;
  held = s.held;
  free = s.free;
  below = s.below;
  allowed = e;
  bounded = s.bounded;
}
Step-IsSound (shut f reader) s = record {
  counted = s.counted;
  distinct = s.distinct;
  apart = s.apart;
  held = s.held;
  free = s.free;
  below = s.below;
  allowed = s.allowed;
  bounded = s.bounded;
}

pub Reached-kept :
    {limit : ℕ} {f : UdpForwarder} {r : Reader} {g : UdpForwarder} {s : Reader}
    → IsSound limit f r
    → Reached limit f r g s
    → IsSound limit g s
Reached-kept sound here = sound
Reached-kept sound (later before step) = Step-IsSound step (Reached-kept sound before)

-- However the read loop, the sessions' ends, updates and closing interleave, from a new UDP
-- forwarder whose rules' maxima stay within a limit: the counter of active sessions is their number,
-- a connection to a target is open exactly if one session of the table or else the read loop has it,
-- and, where there is a limit, the sessions, with the one that the read loop is about to add, are
-- within it.
pub Reached-IsSound :
    {limit : ℕ} {g : UdpForwarder} {s : Reader} (config : PreparedRule) (dials : ℕ)
    → within limit config ≡ true
    → Reached limit (new_udp_forwarder config dials) reading g s
    → IsSound limit g s
unfolding is_open holds awaits pending AreApart
Reached-IsSound config dials allowed = Reached-kept (record {
  counted = omega arith;
  distinct = tt;
  apart = tt;
  held = λ h. refl;
  free = λ h e. refl;
  below = λ h e. absurd (ground (arith, e));
  allowed = allowed;
  bounded = ground arith;
})
