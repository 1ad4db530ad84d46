-- ===== src/Control/Heartbeat/Bounds.antt =====
-- What reaches the store from a heartbeat that the handler agentHeartbeat accepts.
use portflow.Prelude.{
  ◌≤◌, ◌<◌, String, ◌≡◌, ◌≢◌, ◌⊎◌, inl, inr, refl, subst, sym, Bool, true, false, some, List, [],
  ◌∷◌, All, contains, arith, eq_iff, Option-cases, Bool-cases, length, map, trim_space, byte_length,
}
use portflow.Domain.{Net, valid_tunnel_address}
use portflow.Store.{AgentHeartbeat}
use portflow.Control.Http.{Request}
use portflow.Control.Heartbeat.{
  HeartbeatInput, Reading, reading, negative, not_a_number, infinite, value_of, invalid_percent,
  invalid_load, checked, bad_stats, bad_connection, bad_log, snapshot, log_entry, checked_heartbeat,
  bad_metrics, stored_heartbeat, checked_stats, checked_connections, checked_logs,
  max_signed_counter,
}
use portflow.Control.Heartbeat.Good.{
  IsShort, IsGoodStats, IsGoodConnection, IsGoodLog, good_stats, good_connection, good_log,
}

module _ {A : Type 0} (id_of : A → String) (bad : A → Bool) where
  -- Every entry passes its test, and no two share an identifier.
  unfoldable AreSound : List A → Type 0
  AreSound [] = Unit
  AreSound (x ∷ rest) = (bad x ≡ false) × All (λ y. id_of y ≢ id_of x) rest × AreSound rest

  unseen :
      (seen : List String) (x : A) (rest : List A)
      → All (λ y. contains (id_of y) (id_of x ∷ seen) ≡ false) rest
      → All (λ y. id_of y ≢ id_of x) rest × All (λ y. contains (id_of y) seen ≡ false) rest
  unfolding contains
  unseen seen x [] h = (tt, tt)
  unseen seen x (y ∷ rest) (h, hs) =
      let others = unseen seen x rest hs in
      let differs : id_of y ≢ id_of x = λ e. ground (arith, eq_iff (id_of x) (id_of y)) in
      ((differs, others.0), (ground arith, others.1))

  checked_lem :
      (seen : List String) (xs ys : List A)
      → checked id_of bad seen xs ≡ some ys
      → (ys ≡ xs) × AreSound xs × All (λ y. contains (id_of y) seen ≡ false) xs
  unfolding checked AreSound contains
  checked_lem seen [] ys e = (ground arith, tt, tt)
  checked_lem seen (x ∷ rest) ys e = elim (Option-cases (checked id_of bad (id_of x ∷ seen) rest)) [
    | inl f ↦ absurd (ground (arith, f))
    | inr (kept, f) ↦
        let others = checked_lem (id_of x ∷ seen) rest kept f in
        let fresh = unseen seen x rest others.2 in
        let good : bad x ≡ false = ground (arith, f) in
        let first : contains (id_of x) seen ≡ false = ground (arith, f) in
        (ground (arith, f, others.0), (good, fresh.0, others.1), (first, fresh.1))
  ]

-- Every entry is good, and no two share an identifier.
unfoldable pub AreGood : {A : Type 0} → (A → String) → (A → Type 0) → List A → Type 0
AreGood id_of IsGood [] = Unit
AreGood id_of IsGood (x ∷ rest) =
    IsGood x × All (λ y. id_of y ≢ id_of x) rest × AreGood id_of IsGood rest

AreSound-AreGood :
    {A : Type 0} (id_of : A → String) (bad : A → Bool) (IsGood : A → Type 0)
    → ((x : A) → bad x ≡ false → IsGood x)
    → (xs : List A) → AreSound id_of bad xs
    → AreGood id_of IsGood xs
unfolding AreSound AreGood
AreSound-AreGood id_of bad IsGood good [] sound = tt
AreSound-AreGood id_of bad IsGood good (x ∷ rest) sound =
    (good x sound.0, sound.1, AreSound-AreGood id_of bad IsGood good rest sound.2)

-- A reading is a finite number that is not negative.
abbrev IsRead : Reading → Type 0
IsRead r = r ≡ reading (value_of r)

percent-IsRead : (r : Reading) → invalid_percent r ≡ false → IsRead r
unfolding invalid_percent
percent-IsRead (reading value) e = refl
percent-IsRead negative e = absurd (ground arith)
percent-IsRead not_a_number e = absurd (ground arith)
percent-IsRead infinite e = absurd (ground arith)

load-IsRead : (r : Reading) → invalid_load r ≡ false → IsRead r
unfolding invalid_load
load-IsRead (reading value) e = refl
load-IsRead negative e = absurd (ground arith)
load-IsRead not_a_number e = absurd (ground arith)
load-IsRead infinite e = absurd (ground arith)

-- All the readings of the request are.
pub record AreRead (input : HeartbeatInput) : Type 0 where
  pub cpu : IsRead input.cpu_percent
  pub memory : IsRead input.memory_percent
  pub disk : IsRead input.disk_percent
  pub load : IsRead input.load_one

valid_percent : (r : Reading) → invalid_percent r ≡ false → value_of r ≤ 10000
unfolding invalid_percent
valid_percent (reading value) e = ground arith
valid_percent negative e = absurd (ground arith)
valid_percent not_a_number e = absurd (ground arith)
valid_percent infinite e = absurd (ground arith)

-- What the store is given: shares within a hundred percent, counters within 63 bits, a version of
-- the agent, versions above 0, at most 10000 counters of rules, 2000 connections and 100 log
-- entries, each good and under an identifier of its own, and a tunnel address, if any, that is
-- private.
pub record IsBounded (net : Net) (request : Request) (heartbeat : AgentHeartbeat) : Type 0 where
  pub agent : IsShort 32 heartbeat.agent_version
  pub cpu : heartbeat.cpu_percent ≤ 10000
  pub memory : heartbeat.memory_percent ≤ 10000
  pub disk : heartbeat.disk_percent ≤ 10000
  pub active : heartbeat.active_conns ≤ max_signed_counter
  pub incoming : heartbeat.bytes_in ≤ max_signed_counter
  pub outgoing : heartbeat.bytes_out ≤ max_signed_counter
  pub receiving : heartbeat.network_rx_bps ≤ max_signed_counter
  pub sending : heartbeat.network_tx_bps ≤ max_signed_counter
  pub version : 0 < heartbeat.config_version
  pub attempted : 0 < heartbeat.attempted_config_version
  pub brief : byte_length heartbeat.last_config_error ≤ 2000
  pub tunnel :
      (heartbeat.tunnel_address ≡ "") ⊎ (valid_tunnel_address net heartbeat.tunnel_address ≡ true)
  pub few_stats : length heartbeat.rule_stats ≤ 10000
  pub few_connections : length heartbeat.connections ≤ 2000
  pub few_logs : length heartbeat.logs ≤ 100
  pub stats_good : AreGood (λ stats. stats.rule_id) IsGoodStats heartbeat.rule_stats
  pub connections_good :
      AreGood
        (λ connection. connection.connection_id)
        (IsGoodConnection request.now)
        heartbeat.connections
  pub logs_good : AreGood (λ entry. entry.event_id) (IsGoodLog request.now) heartbeat.logs

length-map : {A B : Type 0} (f : A → B) (xs : List A) → length (map f xs) ≡ length xs
length-map f [] = refl
length-map f (x ∷ xs) = ground (arith, length-map f xs)

accepted-IsBounded :
    (net : Net) (request : Request) (input : HeartbeatInput)
    → bad_metrics net input ≡ false
    → AreSound (λ stats. stats.rule_id) bad_stats input.rule_stats
    → AreSound
        (λ connection. connection.connection_id)
        (bad_connection request.now)
        (map snapshot input.connections)
    → AreSound (λ entry. entry.event_id) (bad_log request.now) (map log_entry input.logs)
    → IsBounded net request (
        stored_heartbeat request input input.rule_stats
          (map snapshot input.connections)
          (map log_entry input.logs))
unfolding bad_metrics
accepted-IsBounded net request input b stats connections logs = record {
  agent = record {
    there = λ f. ground (arith, eq_iff (trim_space input.agent_version) "");
    short = ground arith;
  };
  cpu = ground (arith, valid_percent input.cpu_percent);
  memory = ground (arith, valid_percent input.memory_percent);
  disk = ground (arith, valid_percent input.disk_percent);
  active = ground arith;
  incoming = ground arith;
  outgoing = ground arith;
  receiving = ground arith;
  sending = ground arith;
  version = ground arith;
  attempted = ground arith;
  brief = ground arith;
  tunnel = ground (arith, eq_iff (trim_space input.tunnel_address) "");
  few_stats = ground arith;
  few_connections = ground (arith, length-map snapshot input.connections);
  few_logs = ground (arith, length-map log_entry input.logs);
  stats_good = AreSound-AreGood _ bad_stats IsGoodStats good_stats _ stats;
  connections_good =
      AreSound-AreGood _ (bad_connection request.now) (IsGoodConnection request.now)
        (good_connection request.now) _ connections;
  logs_good =
      AreSound-AreGood _ (bad_log request.now) (IsGoodLog request.now) (good_log request.now) _
        logs;
}

bad_metrics-AreRead :
    (net : Net) (input : HeartbeatInput) → bad_metrics net input ≡ false → AreRead input
unfolding bad_metrics
bad_metrics-AreRead net input b = record {
  cpu = percent-IsRead input.cpu_percent (ground arith);
  memory = percent-IsRead input.memory_percent (ground arith);
  disk = percent-IsRead input.disk_percent (ground arith);
  load = load-IsRead input.load_one (ground arith);
}

-- A heartbeat that passes all the checks has shares within a hundred percent, a load and shares
-- that are finite and not negative, counters and rates within 63 bits, an agent's version of at most
-- 32 bytes, configuration versions above 0, at most 10000 counters of rules, 2000 connections and
-- 100 log entries, and a tunnel address, if any, that is private. No two of the entries of one kind
-- share an identifier; their texts are there and short, their levels and protocols known, their
-- counters within 63 bits and their times in order, at most ten minutes ahead of the server's, and
-- those of log entries at most thirty days behind. The heartbeat is the request's own but for the trimmed texts: none of its entries is dropped
-- or added.
pub checked_heartbeat-IsBounded :
    (net : Net) (request : Request) (input : HeartbeatInput) (heartbeat : AgentHeartbeat)
    → checked_heartbeat net request input ≡ some heartbeat
    → IsBounded net request heartbeat
      × (heartbeat
          ≡ stored_heartbeat request input input.rule_stats
              (map snapshot input.connections)
              (map log_entry input.logs))
      × AreRead input
unfolding checked_heartbeat
checked_heartbeat-IsBounded net request input heartbeat e =
    elim (Bool-cases (bad_metrics net input)) [
      | inl b ↦ absurd (ground (arith, b))
      | inr b ↦ elim (Option-cases (checked_stats input.rule_stats)) [
        | inl f ↦ absurd (ground (arith, b, f))
        | inr (stats, f) ↦
            elim (Option-cases (checked_connections request.now (map snapshot input.connections))) [
              | inl g ↦ absurd (ground (arith, b, f, g))
              | inr (connections, g) ↦
                  elim (Option-cases (checked_logs request.now (map log_entry input.logs))) [
                    | inl h ↦ absurd (ground (arith, b, f, g, h))
                    | inr (logs, h) ↦
                        let sound_stats =
                          checked_lem (λ stats. stats.rule_id) bad_stats [] input.rule_stats stats
                            f in
                        let sound_connections =
                          checked_lem (λ connection. connection.connection_id)
                            (bad_connection request.now) [] (map snapshot input.connections)
                            connections g in
                        let sound_logs =
                          checked_lem (λ entry. entry.event_id) (bad_log request.now) []
                            (map log_entry input.logs) logs h in
                        let is : heartbeat
                            ≡ stored_heartbeat request input input.rule_stats
                                (map snapshot input.connections) (map log_entry input.logs) =
                          ground
                            (arith, b, f, g, h, sound_stats.0, sound_connections.0, sound_logs.0) in
                        (
                          subst (IsBounded net request) (sym is) (
                              accepted-IsBounded net request input b sound_stats.1
                                sound_connections.1 sound_logs.1),
                          is,
                          bad_metrics-AreRead net input b,
                        )
                  ]
            ]
      ]
    ]
