-- ===== src/Examples/Traffic.antt =====
-- A client's session on a UDP forwarder that is then closed, and a write in two chunks.
use portflow.Prelude.{
  ℕ, false, ◌≤◌, ◌≡◌, refl, true, List, [], ◌∷◌, some, none, length, arith, ltb, if◌then◌else◌,
}
use portflow.Dict.{lookup}
use portflow.Forward.Prepare.{prepared_rule}
use portflow.Forward.Manager.Growth.{is_open}
use portflow.Forward.Bandwidth.{new_bandwidth_limiter}
use portflow.Forward.Udp.{
  UdpForwarder, reading, Reached, here, later, ask, dial_succeeds, finish, find_session,
  finish_session, new_udp_forwarder, open_target, close_udp,
}
use portflow.Forward.Udp.Sound.{IsSound, awaits}
use portflow.Forward.Udp.Steps.{Reached-IsSound}
use portflow.Forward.Udp.Closing.{close_udp_lem}
use portflow.Forward.Tcp.{
  TcpForwarder, accept, dialed_target, end_handler, accepted, dialed, find_handler, link_handler,
  new_tcp_forwarder,
}
use portflow.Forward.Tcp as Tcp
use portflow.Forward.Tcp.Sound.{IsAccounted}
use portflow.Forward.Tcp.Steps.{Reached-IsAccounted}
use portflow.Forward.Statistics.{Counters, manager_stats}
use portflow.Forward.Statistics.Totals.{IsReport, manager_stats-IsReport}
use portflow.Forward.Copying.{Surroundings, ConnectionRuntime, Writing, write_all}
use portflow.Forward.Copying.Whole.{IsWriting, bytes_of, write_all-IsWriting}
use portflow.Examples.Fleet.{sample_net, web_rule}

abbrev fresh : UdpForwarder
fresh = new_udp_forwarder (prepared_rule sample_net web_rule) 7

-- The session of the client, on the connection of the dial 7.
abbrev served : UdpForwarder
served = (finish_session "10.0.0.2:5000" fresh.config 7 (open_target fresh)).1

fresh-Reached : Reached 10 fresh reading served reading
unfolding find_session lookup
fresh-Reached =
    later
      (later (later here (ask fresh "10.0.0.2:5000" refl))
        (dial_succeeds fresh "10.0.0.2:5000" fresh.config))
      (finish (open_target fresh) "10.0.0.2:5000" fresh.config 7)

served-IsSound : IsSound 10 served reading
served-IsSound = Reached-IsSound (prepared_rule sample_net web_rule) 7 refl fresh-Reached

Reached-IsSound_example : IsSound 10 served reading
Reached-IsSound_example = Reached-IsSound (prepared_rule sample_net web_rule) 7 refl fresh-Reached

close_udp_lem_example :
    ((close_udp served).sessions ≡ [])
    × ((close_udp served).active ≡ 0)
    × ((h : ℕ) → is_open h (close_udp served).targets ≡ awaits h reading)
unfolding finish_session lookup
close_udp_lem_example = close_udp_lem served-IsSound refl here

-- Two bytes are taken at a time; the limiter has a rate of 1 kbps.
abbrev slow : Surroundings
slow = record {
  limiter = λ n. new_bandwidth_limiter 1 0;
  wait = λ n size. none;
  write = λ n chunk. (if ltb 2 (length chunk) then 2 else length chunk, none);
  now = λ n. n;
}

abbrev quiet_session : ConnectionRuntime
quiet_session = record { last_activity = 0; bytes_in = 5; bytes_out = 0 }

slow_takes : (n : ℕ) (chunk : List ℕ) → (slow.write n chunk).0 ≤ length chunk
slow_takes n chunk = ground arith

write_all-IsWriting_example :
    (r : Writing) × (write_all slow true (1 ∷ 2 ∷ 3 ∷ []) quiet_session ≡ some r)
    × IsWriting true (1 ∷ 2 ∷ 3 ∷ []) (bytes_of true quiet_session) r
unfolding new_bandwidth_limiter
write_all-IsWriting_example =
    write_all-IsWriting slow true (1 ∷ 2 ∷ 3 ∷ []) quiet_session (λ n. omega arith) slow_takes

-- A client that is let in, another that is not, and the first one's target.
abbrev listening : TcpForwarder
listening = new_tcp_forwarder (prepared_rule sample_net web_rule) 20

abbrev linked : TcpForwarder
linked =
    dialed_target (record { client = 20; target = none }) (accept false (accept true listening))

linked-Reached : Tcp.Reached 10 listening linked
unfolding accept find_handler
linked-Reached =
    Tcp.later
      (Tcp.later (Tcp.later Tcp.here (accepted listening true))
        (accepted (accept true listening) false))
      (dialed (accept false (accept true listening)) (record { client = 20; target = none }) refl
        refl)

Reached-IsAccounted_example : IsAccounted 10 linked
Reached-IsAccounted_example =
    Reached-IsAccounted (prepared_rule sample_net web_rule) 20 (omega arith) refl linked-Reached

abbrev busy : Counters
busy = record { active = 2; bytes_in = 18446744073709551615; bytes_out = 7; sessions = [] }

manager_stats-IsReport_example :
    IsReport
      (("r1", busy) ∷ [])
      (("r1", busy) ∷ ("r2", busy) ∷ [])
      (manager_stats (("r1", busy) ∷ []) (("r1", busy) ∷ ("r2", busy) ∷ []))
unfolding lookup
manager_stats-IsReport_example =
    manager_stats-IsReport (("r1", busy) ∷ []) (("r1", busy) ∷ ("r2", busy) ∷ []) (refl, tt)
