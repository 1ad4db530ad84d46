-- ===== src/Forward/Udp/Closing.antt =====
-- A UDP forwarder of internal/forward/udp.go that is closed, and the steps after that.
use portflow.Prelude.{
  ℕ, ◌%◌, ◌^◌, String, ◌≡◌, refl, ap, ◌∙◌, true, false, none, some, List, [], ◌∷◌, ◌||◌, arith,
  length, subst, eq_refl,
}
use portflow.Dict.{Dict, lookup, remove, values, Distinct}
use portflow.Dict.Entries.{remove_missing}
use portflow.Forward.Manager.Growth.{is_open}
use portflow.Forward.Udp.{
  UdpSession, UdpForwarder, Reader, Step, ask, dial_fails, dial_succeeds, finish, session_ends,
  change, shut, Reached, here, later, finish_session, close_session, close_all_of, close_udp,
}
use portflow.Forward.Udp.Sessions.{holds, AreApart}
use portflow.Forward.Udp.Sound.{IsSound, awaits, session_ends-IsSound}
use portflow.Forward.Udp.Steps.{Reached-kept}

-- The first session ends.
close_session_first :
    (f : UdpForwarder) (key : String) (session : UdpSession) (rest : Dict UdpSession)
    → f.sessions ≡ (key, session) ∷ rest
    → session.key ≡ key
    → lookup key rest ≡ none
    → (lookup session.key f.sessions ≡ some session) × ((close_session session f).sessions ≡ rest)
unfolding close_session lookup remove
close_session_first f key session rest e own alone =
    ground (arith, e, own, eq_refl key, remove_missing key rest)

close_all_of-nothing :
    (limit : ℕ) (reader : Reader) (sessions : Dict UdpSession) (f : UdpForwarder)
    → f.sessions ≡ sessions
    → IsSound limit f reader
    → ((close_all_of (values sessions) f).sessions ≡ [])
      × IsSound limit (close_all_of (values sessions) f) reader
unfolding close_all_of values AreApart
close_all_of-nothing limit reader [] f e s = (e, s)
close_all_of-nothing limit reader ((key, session) ∷ rest) f e s =
    let apart = subst AreApart e s.apart in
    let distinct = subst Distinct e s.distinct in
    let ended = close_session_first f key session rest e apart.0 distinct.0 in
    close_all_of-nothing limit reader rest (close_session session f) ended.1
      (session_ends-IsSound limit f reader session ended.0 s)

-- A closed forwarder with no session stays so.
Step-closed :
    {limit : ℕ} {f g : UdpForwarder} {r s : Reader}
    → Step limit f r g s
    → f.closed ≡ true
    → f.sessions ≡ []
    → (g.closed ≡ true) × (g.sessions ≡ [])
unfolding finish_session close_session lookup
Step-closed (ask f key e) c n = (c, n)
Step-closed (dial_fails f key config) c n = (c, n)
Step-closed (dial_succeeds f key config) c n = (c, n)
Step-closed (finish f key config target) c n = ground (arith, c, n)
Step-closed (session_ends f reader session e) c n = absurd (ground (arith, e, n))
Step-closed (change f reader config e) c n = (c, n)
Step-closed (shut f reader) c n = (refl, n)

Reached-closed :
    {limit : ℕ} {f : UdpForwarder} {r : Reader} {g : UdpForwarder} {s : Reader}
    → f.closed ≡ true
    → f.sessions ≡ []
    → Reached limit f r g s
    → (g.closed ≡ true) × (g.sessions ≡ [])
Reached-closed c n here = (c, n)
Reached-closed c n (later before step) =
    let kept = Reached-closed c n before in Step-closed step kept.0 kept.1

closed-close_all_of :
    (sessions : List UdpSession) (f : UdpForwarder) → (close_all_of sessions f).closed ≡ f.closed
unfolding close_all_of close_session
closed-close_all_of [] f = refl
closed-close_all_of (session ∷ sessions) f =
    closed-close_all_of sessions (close_session session f) ∙ ground arith

-- Once a sound UDP forwarder is closed, and whatever its goroutines still do, no session is left, the
-- counter is 0, and the only connection to a target that may be open is the one that the read loop
-- is about to drop.
pub close_udp_lem :
    {limit : ℕ} {f : UdpForwarder} {r : Reader} {g : UdpForwarder} {s : Reader}
    → IsSound limit f r
    → f.closed ≡ false
    → Reached limit (close_udp f) r g s
    → (g.sessions ≡ []) × (g.active ≡ 0) × ((h : ℕ) → is_open h g.targets ≡ awaits h s)
unfolding close_udp holds
close_udp_lem {limit} {f} {r} {g} {s} sound running reached =
    let shut_down : UdpForwarder = record f { closed = true } in
    let marked : IsSound limit shut_down r = record {
      counted = sound.counted;
      distinct = sound.distinct;
      apart = sound.apart;
      held = sound.held;
      free = sound.free;
      below = sound.below;
      allowed = sound.allowed;
      bounded = sound.bounded;
    } in
    let quiet = close_all_of (values f.sessions) shut_down in
    let drained = close_all_of-nothing limit r f.sessions shut_down refl marked in
    let is : close_udp f ≡ quiet = ground (arith, running) in
    let from : Reached limit quiet r g s =
      subst (λ (u : UdpForwarder). Reached limit u r g s) is reached in
    let kept = Reached-closed (closed-close_all_of (values f.sessions) shut_down) drained.0 from in
    let still = Reached-kept drained.1 from in
    (
      kept.1,
      still.counted ∙ ap (λ (sessions : Dict UdpSession). length sessions % 2 ^ 64) kept.1,
      λ h.
          still.held h ∙ ap (λ (sessions : Dict UdpSession). holds h sessions || awaits h s) kept.1,
    )
