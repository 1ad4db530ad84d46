-- ===== src/Forward/Tcp/Sound.antt =====
-- The connections of a TCP forwarder, its handlers and its counters, across each kind of step.
use portflow.Prelude.{
  ℕ, ◌+◌, ◌-◌, ◌%◌, ◌^◌, ◌<◌, ◌≡◌, refl, Bool, true, false, none, some, List, ◌∷◌, ◌&&◌, ◌||◌, not,
  eqb, leb, ltb, arith, length, Option-cases, inl, inr, if-both,
}
use portflow.Forward.Manager.Growth.{is_open, is_open-without}
use portflow.Forward.Udp.{within}
use portflow.Forward.Tcp.{
  Handler, TcpForwarder, accept, find_handler, link_handler, release, end_handler, dialed_target,
  close_each, close_tcp,
}
use portflow.Forward.Tcp.Handlers.{
  has_target, own, own_target, AreApart, own-drop_handler, own_target-drop_handler,
  length-drop_handler, drop_handler-AreApart, own-link_handler, own_target-link_handler,
  link_handler-AreApart, length-link_handler, is_open-close_each,
}

-- The counter is the number of handlers, and these are within the limit; what is tracked are their
-- connections, which are open until the forwarder is closed; the sessions are those of the targets.
pub record IsAccounted (limit : ℕ) (f : TcpForwarder) : Type 0 where
  pub counted : f.active ≡ length f.handlers % 2 ^ 64
  pub apart : AreApart f.handlers
  pub tracked : (h : ℕ) → is_open h f.connections ≡ own h f.handlers
  pub listed : (h : ℕ) → is_open h f.sessions ≡ own_target h f.handlers
  pub held : (h : ℕ) → is_open h f.opened ≡ (own h f.handlers && not f.closed)
  pub below : (h : ℕ) → own h f.handlers ≡ true → h < f.made
  pub allowed : within limit f.config ≡ true
  pub bounded : (eqb limit 0 || leb (length f.handlers) limit) ≡ true

is_open-release :
    (h : ℕ) (handler : Handler) (list : List ℕ)
    → is_open h (release handler.target list) ≡ (is_open h list && not (has_target h handler))
is_open-release h handler list = elim (Option-cases handler.target) [
  | inl none_yet ↦ rw none_yet (ground arith)
  | inr (target, e) ↦ rw e (ground (arith, is_open-without h target list))
]

module _ (limit : ℕ) (f : TcpForwarder) (s : IsAccounted limit f) where
  -- A connection that came and went.
  passed-IsAccounted : IsAccounted limit (record f { made = f.made + 1 })
  passed-IsAccounted = record {
    counted = s.counted;
    apart = s.apart;
    tracked = s.tracked;
    listed = s.listed;
    held = s.held;
    below = λ h e. ground (arith, s.below h);
    allowed = s.allowed;
    bounded = s.bounded;
  }

  released-IsAccounted :
      IsAccounted limit
        (record f { made = f.made + 1; active = ((f.active + 1) % 2 ^ 64 + (2 ^ 64 - 1)) % 2 ^ 64 })
  released-IsAccounted = record {
    counted = omega (arith, s.counted);
    apart = s.apart;
    tracked = s.tracked;
    listed = s.listed;
    held = s.held;
    below = λ h e. ground (arith, s.below h);
    allowed = s.allowed;
    bounded = s.bounded;
  }

  pub end_handler-IsAccounted :
      (handler : Handler)
      → find_handler handler.client f.handlers ≡ some handler
      → IsAccounted limit (end_handler handler f)
  unfolding end_handler
  end_handler-IsAccounted handler e =
      let left = λ (h : ℕ). own-drop_handler h handler.client handler f.handlers s.apart e in
      let out = λ (h : ℕ) (list : List ℕ). is_open-without h handler.client list in
      let shorter = length-drop_handler handler.client handler f.handlers e in
      record {
        counted = omega (arith, s.counted, shorter);
        apart = drop_handler-AreApart handler.client handler f.handlers s.apart e;
        tracked = λ h. ground (
          arith,
          s.tracked h,
          left h,
          out h (release handler.target f.connections),
          is_open-release h handler f.connections,
        );
        listed = λ h. ground (
          arith,
          s.listed h,
          own_target-drop_handler h handler.client handler f.handlers s.apart e,
          is_open-release h handler f.sessions,
        );
        held = λ h. ground (
          arith,
          s.held h,
          left h,
          out h (release handler.target f.opened),
          is_open-release h handler f.opened,
        );
        below = λ h k. ground (arith, s.below h, left h, k);
        allowed = s.allowed;
        bounded = ground (arith, s.bounded, shorter);
      }

  tracked_client-IsAccounted :
      f.closed ≡ false
      → (ltb 0 f.config.rule.max_connections
          && ltb f.config.rule.max_connections ((f.active + 1) % 2 ^ 64))
        ≡ false
      → limit < 2 ^ 32
      → IsAccounted limit (record f {
        active = (f.active + 1) % 2 ^ 64;
        connections = f.made ∷ f.connections;
        handlers = record { client = f.made; target = none } ∷ f.handlers;
        opened = f.made ∷ f.opened;
        made = f.made + 1;
      })
  unfolding is_open own own_target AreApart
  tracked_client-IsAccounted running room small = record {
    counted = omega (arith, s.counted);
    apart = (ground (arith, s.below f.made), refl, (λ h k. absurd (ground (arith, k))), s.apart);
    tracked = λ h. ground (arith, s.tracked h);
    listed = λ h. ground (arith, s.listed h);
    held = λ h. ground (arith, s.held h, running);
    below = λ h e. ground (arith, s.below h, e);
    allowed = s.allowed;
    bounded = ground (arith, s.counted, s.allowed, s.bounded, room);
  }

  link-IsAccounted :
      (handler : Handler)
      → f.closed ≡ false
      → find_handler handler.client f.handlers ≡ some handler
      → handler.target ≡ none
      → IsAccounted limit (record f {
        connections = f.made ∷ f.connections;
        sessions = f.made ∷ f.sessions;
        handlers = link_handler handler.client f.made f.handlers;
        opened = f.made ∷ f.opened;
        made = f.made + 1;
      })
  unfolding is_open
  link-IsAccounted handler running e undialed =
      let linked =
        λ (h : ℕ). own-link_handler handler.client f.made handler undialed h f.handlers e in
      let same = length-link_handler handler.client f.made f.handlers in
      record {
        counted = omega (arith, s.counted, same);
        apart =
            link_handler-AreApart handler.client f.made handler undialed f.handlers e
              (ground (arith, s.below f.made)) s.apart;
        tracked = λ h. ground (arith, s.tracked h, linked h);
        listed = λ h. ground (
          arith,
          s.listed h,
          own_target-link_handler handler.client f.made handler undialed h f.handlers e,
        );
        held = λ h. ground (arith, s.held h, linked h, running);
        below = λ h k. ground (arith, s.below h, linked h, k);
        allowed = s.allowed;
        bounded = ground (arith, s.bounded, same);
      }

  pub close_tcp-IsAccounted : IsAccounted limit (close_tcp f)
  unfolding close_tcp
  close_tcp-IsAccounted =
      if-both (IsAccounted limit) f.closed f
        (record f { closed = true; opened = close_each f.connections f.opened }) (λ e. s)
        (λ e. record {
          counted = s.counted;
          apart = s.apart;
          tracked = s.tracked;
          listed = s.listed;
          held = λ h.
              ground (arith, is_open-close_each h f.connections f.opened, s.tracked h, s.held h);
          below = s.below;
          allowed = s.allowed;
          bounded = s.bounded;
        })

  pub accept-IsAccounted :
      (permitted : Bool) → limit < 2 ^ 32 → IsAccounted limit (accept permitted f)
  unfolding accept
  accept-IsAccounted false small = passed-IsAccounted
  accept-IsAccounted true small =
      let active = (f.active + 1) % 2 ^ 64 in
      let maximum = f.config.rule.max_connections in
      if-both (IsAccounted limit) ((ltb 0 maximum && ltb maximum active) || f.closed)
        (record f { made = f.made + 1; active = (active + (2 ^ 64 - 1)) % 2 ^ 64 })
        (record f {
          active = active;
          connections = f.made ∷ f.connections;
          handlers = record { client = f.made; target = none } ∷ f.handlers;
          opened = f.made ∷ f.opened;
          made = f.made + 1;
        })
        (λ e. released-IsAccounted)
        (λ e. tracked_client-IsAccounted (ground (arith, e)) (ground (arith, e)) small)

pub dialed_target-IsAccounted :
    (limit : ℕ) (f : TcpForwarder) (handler : Handler)
    → IsAccounted limit f
    → find_handler handler.client f.handlers ≡ some handler
    → handler.target ≡ none
    → IsAccounted limit (dialed_target handler f)
unfolding dialed_target
dialed_target-IsAccounted limit f handler s e undialed =
    let next = record f { made = f.made + 1 } in
    if-both (IsAccounted limit) f.closed (end_handler handler next)
      (record f {
        connections = f.made ∷ f.connections;
        sessions = f.made ∷ f.sessions;
        handlers = link_handler handler.client f.made f.handlers;
        opened = f.made ∷ f.opened;
        made = f.made + 1;
      })
      (λ c. end_handler-IsAccounted limit next (passed-IsAccounted limit f s) handler e)
      (λ running. link-IsAccounted limit f s handler running e undialed)
