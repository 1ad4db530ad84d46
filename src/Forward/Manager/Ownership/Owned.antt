-- ===== src/Forward/Manager/Ownership/Owned.antt =====
-- When every open socket is that of one listener, and every listener's socket is open.
use portflow.Prelude.{ℕ, ◌<◌, ◌≡◌, refl, true, false, [], ◌||◌, arith}
use portflow.Dict.{Dict, lookup, Distinct}
use portflow.Forward.Manager.{Sockets, Listener, Manager}
use portflow.Forward.Manager.Growth.{is_open, has_handle}
use portflow.Forward.Manager.Ownership.Opened.{AreAlone}

-- No two of these listeners share a handle, and their handles are the open sockets.
pub record AreOwned (tcp udp : Dict Listener) (sockets : Sockets) : Type 0 where
  pub tcp_distinct : Distinct tcp
  pub udp_distinct : Distinct udp
  pub tcp_alone : AreAlone tcp
  pub udp_alone : AreAlone udp
  pub apart : (h : ℕ) → has_handle h tcp ≡ true → has_handle h udp ≡ false
  pub accounted : (h : ℕ) → is_open h sockets.opened ≡ (has_handle h tcp || has_handle h udp)
  pub below : (h : ℕ) → is_open h sockets.opened ≡ true → h < sockets.calls

abbrev pub IsOwned : Manager → Type 0
IsOwned manager = AreOwned manager.forwarders manager.udp_forwarders manager.sockets

pub nothing-AreOwned :
    (sockets : Sockets) → ((h : ℕ) → is_open h sockets.opened ≡ false) → AreOwned [] [] sockets
unfolding has_handle lookup
nothing-AreOwned sockets shut = record {
  tcp_distinct = tt;
  udp_distinct = tt;
  tcp_alone = λ k j l m e f same. absurd (ground (arith, e));
  udp_alone = λ k j l m e f same. absurd (ground (arith, e));
  apart = λ h e. refl;
  accounted = shut;
  below = λ h e. absurd (ground (arith, shut h, e));
}
