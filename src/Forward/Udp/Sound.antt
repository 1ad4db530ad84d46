-- ===== src/Forward/Udp/Sound.antt =====
-- The sessions of a UDP forwarder, its connections and its counters, across each kind of step.
use portflow.Prelude.{
  ℕ, ◌+◌, ◌-◌, ◌%◌, ◌^◌, ◌<◌, String, ◌≡◌, refl, Bool, true, false, Option, none, some, ◌||◌, eqb,
  leb, arith, length, Option-cases, inl, inr, on_option, if-both,
}
use portflow.Dict.{lookup, insert, remove, Distinct}
use portflow.Dict.Entries.{insert-Distinct, remove-Distinct}
use portflow.Forward.Prepare.{PreparedRule}
use portflow.Forward.Manager.{without}
use portflow.Forward.Manager.Growth.{is_open, is_open-without}
use portflow.Forward.Udp.{
  UdpSession, UdpForwarder, must_dial, Reader, reading, dialing, dialed, find_session,
  finish_session, close_session, open_target, close_target, new_session, within,
}
use portflow.Forward.Udp.Sessions.{
  holds, AreApart, holds-insert, insert-AreApart, holds-remove, remove-AreApart, length-insert_new,
  length-remove, holds_found,
}

-- The connection that the read loop has and that no session has yet.
unfoldable pub awaits : ℕ → Reader → Bool
awaits h reading = false
awaits h (dialing key config) = false
awaits h (dialed key config target) = eqb target h

-- The session that the read loop may add.
unfoldable pub pending : Reader → ℕ
pending reading = 0
pending (dialing key config) = 1
pending (dialed key config target) = 1

-- The counter is the number of sessions; a connection is open exactly if one session, or else the
-- read loop, has it; the sessions, with the one on its way, are within the limit.
pub record IsSound (limit : ℕ) (f : UdpForwarder) (reader : Reader) : Type 0 where
  pub counted : f.active ≡ length f.sessions % 2 ^ 64
  pub distinct : Distinct f.sessions
  pub apart : AreApart f.sessions
  pub held : (h : ℕ) → is_open h f.targets ≡ (holds h f.sessions || awaits h reader)
  pub free : (h : ℕ) → awaits h reader ≡ true → holds h f.sessions ≡ false
  pub below : (h : ℕ) → is_open h f.targets ≡ true → h < f.dials
  pub allowed : within limit f.config ≡ true
  pub bounded : (eqb limit 0 || leb (length f.sessions + pending reader) limit) ≡ true

eqb_refl : (n : ℕ) → eqb n n ≡ true
eqb_refl n = ground arith

module _ (limit : ℕ) (f : UdpForwarder) where
  pub ask-IsSound :
      (key : String)
      → find_session key f.config f ≡ must_dial
      → IsSound limit f reading
      → IsSound limit f (dialing key f.config)
  unfolding find_session pending awaits
  ask-IsSound key e s = record {
    counted = s.counted;
    distinct = s.distinct;
    apart = s.apart;
    held = s.held;
    free = s.free;
    below = s.below;
    allowed = s.allowed;
    bounded = ground (arith, e, s.allowed, s.bounded);
  }

  pub dial_fails-IsSound :
      (key : String) (config : PreparedRule)
      → IsSound limit f (dialing key config)
      → IsSound limit f reading
  unfolding pending awaits
  dial_fails-IsSound key config s = record {
    counted = s.counted;
    distinct = s.distinct;
    apart = s.apart;
    held = s.held;
    free = s.free;
    below = s.below;
    allowed = s.allowed;
    bounded = ground (arith, s.bounded);
  }

  pub dial_succeeds-IsSound :
      (key : String) (config : PreparedRule)
      → IsSound limit f (dialing key config)
      → IsSound limit (open_target f) (dialed key config f.dials)
  unfolding pending awaits is_open
  dial_succeeds-IsSound key config s = record {
    counted = s.counted;
    distinct = s.distinct;
    apart = s.apart;
    held = λ h. ground (arith, s.held h);
    free = λ h e. ground (arith, s.held h, s.below h);
    below = λ h e. ground (arith, s.below h);
    allowed = s.allowed;
    bounded = s.bounded;
  }

  dropped-IsSound :
      (key : String) (config : PreparedRule) (target : ℕ)
      → IsSound limit f (dialed key config target)
      → IsSound limit (close_target target f) reading
  unfolding pending awaits
  dropped-IsSound key config target s = record {
    counted = s.counted;
    distinct = s.distinct;
    apart = s.apart;
    held = λ h. ground (arith, is_open-without h target f.targets, s.held h, s.free h);
    free = λ h e. absurd (ground (arith, e));
    below = λ h e. ground (arith, is_open-without h target f.targets, s.below h);
    allowed = s.allowed;
    bounded = ground (arith, s.bounded);
  }

  added-IsSound :
      (key : String) (config : PreparedRule) (target : ℕ)
      → lookup key f.sessions ≡ none
      → IsSound limit f (dialed key config target)
      → IsSound limit
          (record f {
            sessions = insert key (new_session key config target) f.sessions;
            active = (f.active + 1) % 2 ^ 64;
          })
          reading
  unfolding pending awaits
  added-IsSound key config target missing s =
      let new = new_session key config target in
      let longer = length-insert_new key new f.sessions missing in
      record {
        counted = omega (arith, s.counted, longer);
        distinct = insert-Distinct key new f.sessions s.distinct;
        apart =
            insert-AreApart key new f.sessions missing refl (s.free target (ground arith)) s.apart;
        held = λ h. ground (arith, holds-insert h key new f.sessions, missing, s.held h);
        free = λ h e. absurd (ground (arith, e));
        below = s.below;
        allowed = s.allowed;
        bounded = ground (arith, s.bounded, longer);
      }

  pub finish-IsSound :
      (key : String) (config : PreparedRule) (target : ℕ)
      → IsSound limit f (dialed key config target)
      → IsSound limit (finish_session key config target f).1 reading
  unfolding finish_session
  finish-IsSound key config target s =
      let sound = λ (result : Option UdpSession × UdpForwarder). IsSound limit result.1 reading in
      let dropped = dropped-IsSound key config target s in
      if-both sound f.closed (none, close_target target f)
        (on_option (lookup key f.sessions)
          (
            some (new_session key config target),
            record f {
              sessions = insert key (new_session key config target) f.sessions;
              active = (f.active + 1) % 2 ^ 64;
            },
          )
          λ other. (some other, close_target target f))
        (λ e. dropped)
        (λ e. elim (Option-cases (lookup key f.sessions)) [
          | inr (other, found) ↦ rw found dropped
          | inl missing ↦ rw missing (added-IsSound key config target missing s)
        ])

  ended-IsSound :
      (reader : Reader) (session : UdpSession)
      → lookup session.key f.sessions ≡ some session
      → IsSound limit f reader
      → IsSound limit
          (record f {
            targets = without session.target f.targets;
            sessions = remove session.key f.sessions;
            active = (f.active + (2 ^ 64 - 1)) % 2 ^ 64;
          })
          reader
  ended-IsSound reader session found s =
      let shorter = length-remove session.key session f.sessions s.distinct found in
      let left =
        λ (h : ℕ). holds-remove h session.key session f.sessions s.distinct s.apart found in
      record {
        counted = omega (arith, s.counted, shorter);
        distinct = remove-Distinct session.key f.sessions s.distinct;
        apart = remove-AreApart session.key session f.sessions s.distinct s.apart found;
        held = λ h. ground (
          arith,
          left h,
          is_open-without h session.target f.targets,
          s.held h,
          s.free h,
          holds_found session.key session f.sessions found,
        );
        free = λ h e. ground (arith, left h, s.free h, e);
        below = λ h e. ground (arith, is_open-without h session.target f.targets, s.below h);
        allowed = s.allowed;
        bounded = ground (arith, s.bounded, shorter);
      }

  pub session_ends-IsSound :
      (reader : Reader) (session : UdpSession)
      → lookup session.key f.sessions ≡ some session
      → IsSound limit f reader
      → IsSound limit (close_session session f) reader
  unfolding close_session
  session_ends-IsSound reader session found s =
      rw found (rw (eqb_refl session.target) (ended-IsSound reader session found s))
