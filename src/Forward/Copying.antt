-- ===== src/Forward/Copying.antt =====
-- limitedWriter.Write of internal/forward/tcp.go, which a connection's copy loop writes through: the
-- buffer goes out in chunks, each after a Wait of the rule's limiter, and the session records what
-- is written. The limiter, the writer below and the clock are read anew in each round.
pub mod Whole
use portflow.Prelude.{
  ℕ, zero, suc, ◌+◌, ◌%◌, ◌^◌, ◌≤◌, ◌<◌, ◌≡◌, refl, Bool, true, false, Option, none, some, List, [],
  ◌∷◌, ◌++◌, eqb, not, arith, length, take, drop, if◌then◌else◌, on_option, Bool-cases,
  Option-cases, inl, inr, length-append,
}
use portflow.Forward.Bandwidth.{BandwidthLimiter, max_chunk_size, byte}

-- connectionRuntime, as far as record changes it
pub record ConnectionRuntime : Type 0 where
  pub last_activity : ℕ
  pub bytes_in : ℕ
  pub bytes_out : ℕ

unfoldable pub record_bytes : Bool → ℕ → ℕ → ConnectionRuntime → ConnectionRuntime
record_bytes inward count now session =
    if eqb count 0
    then session
    else if inward
    then record session { bytes_in = (session.bytes_in + count) % 2 ^ 64; last_activity = now }
    else record session { bytes_out = (session.bytes_out + count) % 2 ^ 64; last_activity = now }

pub data WriteError : Type 0 where
  wait_failed write_failed : List ℕ → WriteError
  short_write : WriteError

-- What the n-th round meets: the limiter, whether its Wait fails for so many bytes, what the writer
-- answers to a chunk, and the time.
pub record Surroundings : Type 0 where
  pub limiter : ℕ → BandwidthLimiter
  pub wait : ℕ → ℕ → Option (List ℕ)
  pub write : ℕ → List ℕ → ℕ × Option (List ℕ)
  pub now : ℕ → ℕ

-- How many bytes are written and which these are, the session, and the error.
pub record Writing : Type 0 where
  pub written : ℕ
  pub delivered : List ℕ
  pub session : ConnectionRuntime
  pub problem : Option WriteError

-- Behind a successful Wait: the chunk is written.
unfoldable pub write_chunk : Surroundings → Bool → ℕ → List ℕ → Writing → Writing
unfolding record_bytes
write_chunk world inward n chunk state =
    let (count, problem) = world.write n chunk in
    record {
      written = state.written + count;
      delivered = state.delivered ++ take count chunk;
      session = record_bytes inward count (world.now n) state.session;
      problem =
          on_option problem (if eqb count (length chunk) then none else some short_write)
            λ message. some (write_failed message);
    }

-- The loop on fuel; `none` means that the fuel ran out.
unfoldable pub write_loop : Surroundings → Bool → ℕ → ℕ → List ℕ → Writing → Option Writing
unfolding write_chunk
write_loop world inward fuel n [] state = some state
write_loop world inward zero n (b ∷ buffer) state = none
write_loop world inward (suc fuel) n (b ∷ buffer) state =
    let size = max_chunk_size (world.limiter n) (length (b ∷ buffer)) in
    let next = write_chunk world inward n (take size (b ∷ buffer)) state in
    let rest =
      write_loop world inward fuel (n + 1)
        (drop (world.write n (take size (b ∷ buffer))).0 (b ∷ buffer)) next in
    on_option (world.wait n size) (on_option next.problem rest λ e. some next)
      λ message. some (record state { problem = some (wait_failed message) })

-- A buffer is written whole with as much fuel as it has bytes.
abbrev pub write_all : Surroundings → Bool → List ℕ → ConnectionRuntime → Option Writing
write_all world inward buffer session =
    write_loop world inward (length buffer) 0 buffer
      (record { written = 0; delivered = []; session = session; problem = none })
