-- ===== src/Forward/Tcp/Steps.antt =====
-- The accept loop, the handlers, Apply and close of a TCP forwarder under any interleaving.
use portflow.Prelude.{ℕ, ◌^◌, ◌<◌, ◌≡◌, refl, true, arith}
use portflow.Forward.Prepare.{PreparedRule}
use portflow.Forward.Manager.Growth.{is_open}
use portflow.Forward.Udp.{within}
use portflow.Forward.Tcp.{
  TcpForwarder, Step, accepted, dialed, ended, changed, shut, Reached, here, later,
  new_tcp_forwarder,
}
use portflow.Forward.Tcp.Handlers.{own, own_target, AreApart}
use portflow.Forward.Tcp.Sound.{
  IsAccounted, accept-IsAccounted, close_tcp-IsAccounted, dialed_target-IsAccounted,
  end_handler-IsAccounted,
}

-- Every step keeps every connection accounted for.
Step-IsAccounted :
    {limit : ℕ} {f g : TcpForwarder}
    → limit < 2 ^ 32
    → Step limit f g
    → IsAccounted limit f
    → IsAccounted limit g
Step-IsAccounted {limit} small (accepted f permitted) s =
    accept-IsAccounted limit f s permitted small
Step-IsAccounted {limit} small (dialed f handler e undialed) s =
    dialed_target-IsAccounted limit f handler s e undialed
Step-IsAccounted {limit} small (ended f handler e) s = end_handler-IsAccounted limit f s handler e
Step-IsAccounted small (changed f config e) s = record {
  counted = s.counted;
  apart = s.apart;
  tracked = s.tracked;
  listed = s.listed;
  held = s.held;
  below = s.below;
  allowed = e;
  bounded = s.bounded;
}
Step-IsAccounted {limit} small (shut f) s = close_tcp-IsAccounted limit f s

Reached-kept :
    {limit : ℕ} {f g : TcpForwarder}
    → limit < 2 ^ 32
    → IsAccounted limit f
    → Reached limit f g
    → IsAccounted limit g
Reached-kept small s here = s
Reached-kept small s (later before step) = Step-IsAccounted small step (Reached-kept small s before)

-- However the accept loop, the handlers, updates and closing interleave, from a new TCP forwarder
-- whose rules' maxima stay within a limit below 2^32: the counter of active connections is the number
-- of handlers, which is within the limit where there is one; the connections that are tracked are
-- those of the handlers, and these are open exactly as long as the forwarder is not closed; and the
-- sessions are those of the connections to targets.
pub Reached-IsAccounted :
    {limit : ℕ} {g : TcpForwarder} (config : PreparedRule) (made : ℕ)
    → limit < 2 ^ 32
    → within limit config ≡ true
    → Reached limit (new_tcp_forwarder config made) g
    → IsAccounted limit g
unfolding is_open own own_target AreApart
Reached-IsAccounted config made small allowed = Reached-kept small (record {
  counted = omega arith;
  apart = tt;
  tracked = λ h. refl;
  listed = λ h. refl;
  held = λ h. refl;
  below = λ h e. absurd (ground (arith, e));
  allowed = allowed;
  bounded = ground arith;
})
