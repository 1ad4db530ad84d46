-- ===== src/Forward/Manager/Ownership/Next.antt =====
-- The sockets and the listeners behind an Apply that opens all it has to.
use portflow.Prelude.{
  ℕ, ◌<◌, ◌≤◌, ◌≡◌, refl, true, false, [], ◌&&◌, ◌||◌, not, arith, Bool-cases, inl, inr,
}
use portflow.Dict.{Dict, Distinct}
use portflow.Domain.{protocol_tcp, protocol_udp}
use portflow.Forward.Prepare.{PreparedRule}
use portflow.Forward.Manager.{
  Host, Sockets, Listener, Manager, Started, start_all, next_listeners, retarget_tcp, retarget_udp,
  close_replaced,
}
use portflow.Forward.Manager.Growth.{Grown, is_open, has_handle, start_all_lem}
use portflow.Forward.Manager.Tidy.{AreBelow, start_all-AreBelow, close_replaced-AreBelow}
use portflow.Forward.Manager.Ownership.Turnover.{
  next-Distinct, next-AreAlone, handle_origin, handle_started, replaced_lem,
}
use portflow.Forward.Manager.Ownership.Turning.{IsTurning, opened-IsTurning}
use portflow.Forward.Manager.Ownership.Replaced.{replaced, is_open-close_replaced}
use portflow.Forward.Manager.Ownership.Owned.{AreOwned, IsOwned}

same_handle_tcp :
    (host : Host) (l : Listener) (p : PreparedRule) → (retarget_tcp host l p).handle ≡ l.handle
same_handle_tcp host l p = ground arith

module _ (host : Host) (manager : Manager) (desired : Dict PreparedRule) (d : Distinct desired)
    (owned : IsOwned manager) where
  abbrev pub tcp_state : Started
  tcp_state = (start_all host "tcp" protocol_tcp manager.forwarders desired ([], manager.sockets)).1

  abbrev pub udp_state : Started
  udp_state = (start_all host "udp" protocol_udp manager.udp_forwarders desired ([], tcp_state.1)).1

  abbrev pub next_tcp : Dict Listener
  next_tcp = next_listeners protocol_tcp (retarget_tcp host) manager.forwarders tcp_state.0 desired

  abbrev pub next_udp : Dict Listener
  next_udp = next_listeners protocol_udp retarget_udp manager.udp_forwarders udp_state.0 desired

  tcp-IsTurning :
      IsTurning protocol_tcp manager.forwarders tcp_state.0 desired manager.sockets.calls
  tcp-IsTurning =
      opened-IsTurning host "tcp" protocol_tcp manager.forwarders desired manager.sockets
        manager.sockets.calls d owned.tcp_distinct owned.tcp_alone
        (λ h e. ground (arith, owned.below h, owned.accounted h, e)) (omega arith)

  tcp-Grown : Grown manager.sockets tcp_state
  tcp-Grown = start_all_lem host "tcp" protocol_tcp manager.forwarders manager.sockets desired d

  udp-Grown : Grown tcp_state.1 udp_state
  udp-Grown = start_all_lem host "udp" protocol_udp manager.udp_forwarders tcp_state.1 desired d

  udp-IsTurning :
      IsTurning protocol_udp manager.udp_forwarders udp_state.0 desired manager.sockets.calls
  udp-IsTurning =
      opened-IsTurning host "udp" protocol_udp manager.udp_forwarders desired tcp_state.1
        manager.sockets.calls d owned.udp_distinct owned.udp_alone
        (λ h e. ground (arith, owned.below h, owned.accounted h, e)) tcp-Grown.later

  tcp_below : AreBelow tcp_state.1
  tcp_below =
      start_all-AreBelow host "tcp" protocol_tcp manager.forwarders desired ([], manager.sockets)
        owned.below

  udp_below : AreBelow udp_state.1
  udp_below =
      start_all-AreBelow host "udp" protocol_udp manager.udp_forwarders desired ([], tcp_state.1)
        tcp_below

  -- The handle of a started TCP listener, and of a started UDP listener.
  tcp_fresh :
      (h : ℕ)
      → has_handle h tcp_state.0 ≡ true
      → (manager.sockets.calls ≤ h) × (h < tcp_state.1.calls)
  tcp_fresh h e = (tcp-Grown.fresh h e, tcp_below h (ground (arith, tcp-Grown.opened h, e)))

  next_tcp_origin :
      (h : ℕ)
      → has_handle h next_tcp ≡ true
      → (has_handle h tcp_state.0 || has_handle h manager.forwarders) ≡ true
  next_tcp_origin =
      handle_origin protocol_tcp (retarget_tcp host) manager.forwarders tcp_state.0 desired
        manager.sockets.calls (same_handle_tcp host) tcp-IsTurning

  next_udp_origin :
      (h : ℕ)
      → has_handle h next_udp ≡ true
      → (has_handle h udp_state.0 || has_handle h manager.udp_forwarders) ≡ true
  next_udp_origin =
      handle_origin protocol_udp retarget_udp manager.udp_forwarders udp_state.0 desired
        manager.sockets.calls (λ l p. refl) udp-IsTurning

  -- An old handle is below the calls so far.
  old_handle :
      (h : ℕ)
      → (has_handle h manager.forwarders || has_handle h manager.udp_forwarders) ≡ true
      → h < manager.sockets.calls
  old_handle h e = ground (arith, owned.accounted h, owned.below h, e)

  next_apart : (h : ℕ) → has_handle h next_tcp ≡ true → has_handle h next_udp ≡ false
  next_apart h e = elim (Bool-cases (has_handle h next_udp)) [
    | inr no_udp ↦ no_udp
    | inl both ↦ absurd (
        ground (
          arith,
          next_tcp_origin h,
          next_udp_origin h,
          e,
          both,
          owned.apart h,
          old_handle h,
          tcp_fresh h,
          udp-Grown.fresh h,
          tcp-Grown.later,
        ))
  ]

  abbrev pub kept_tcp : Sockets
  kept_tcp = close_replaced manager.forwarders next_tcp udp_state.1

  abbrev pub kept : Sockets
  kept = close_replaced manager.udp_forwarders next_udp kept_tcp

  opened_now :
      (h : ℕ)
      → is_open h udp_state.1.opened ≡ (
          has_handle h manager.forwarders
          || has_handle h manager.udp_forwarders
          || has_handle h tcp_state.0
          || has_handle h udp_state.0)
  opened_now h = ground (arith, udp-Grown.opened h, tcp-Grown.opened h, owned.accounted h)

  tcp_replaced :
      (h : ℕ)
      → replaced h manager.forwarders next_tcp
        ≡ (has_handle h manager.forwarders && not (has_handle h next_tcp))
  tcp_replaced =
      replaced_lem protocol_tcp (retarget_tcp host) manager.forwarders tcp_state.0 desired
        manager.sockets.calls (same_handle_tcp host) tcp-IsTurning

  udp_replaced :
      (h : ℕ)
      → replaced h manager.udp_forwarders next_udp
        ≡ (has_handle h manager.udp_forwarders && not (has_handle h next_udp))
  udp_replaced =
      replaced_lem protocol_udp retarget_udp manager.udp_forwarders udp_state.0 desired
        manager.sockets.calls (λ l p. refl) udp-IsTurning

  -- A handle is open behind Apply exactly if one of the next listeners has it.
  kept_accounted :
      (h : ℕ) → is_open h kept.opened ≡ (has_handle h next_tcp || has_handle h next_udp)
  kept_accounted h = ground (
    arith,
    is_open-close_replaced h manager.udp_forwarders next_udp kept_tcp,
    is_open-close_replaced h manager.forwarders next_tcp udp_state.1,
    opened_now h,
    tcp_replaced h,
    udp_replaced h,
    next_tcp_origin h,
    next_udp_origin h,
    handle_started protocol_tcp (retarget_tcp host) manager.forwarders tcp_state.0 desired
        manager.sockets.calls (same_handle_tcp host) tcp-IsTurning h,
    handle_started protocol_udp retarget_udp manager.udp_forwarders udp_state.0 desired
        manager.sockets.calls (λ l p. refl) udp-IsTurning h,
    owned.apart h,
    old_handle h,
    tcp_fresh h,
    udp-Grown.fresh h,
    tcp-Grown.later,
  )

  kept_below : AreBelow kept
  kept_below =
      close_replaced-AreBelow manager.udp_forwarders next_udp kept_tcp
        (close_replaced-AreBelow manager.forwarders next_tcp udp_state.1 udp_below)

  pub next-AreOwned : AreOwned next_tcp next_udp kept
  next-AreOwned = record {
    tcp_distinct =
        next-Distinct protocol_tcp (retarget_tcp host) manager.forwarders tcp_state.0 desired
          manager.sockets.calls (same_handle_tcp host) tcp-IsTurning;
    udp_distinct =
        next-Distinct protocol_udp retarget_udp manager.udp_forwarders udp_state.0 desired
          manager.sockets.calls (λ l p. refl) udp-IsTurning;
    tcp_alone =
        next-AreAlone protocol_tcp (retarget_tcp host) manager.forwarders tcp_state.0 desired
          manager.sockets.calls (same_handle_tcp host) tcp-IsTurning;
    udp_alone =
        next-AreAlone protocol_udp retarget_udp manager.udp_forwarders udp_state.0 desired
          manager.sockets.calls (λ l p. refl) udp-IsTurning;
    apart = next_apart;
    accounted = kept_accounted;
    below = kept_below;
  }
