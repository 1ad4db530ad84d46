-- ===== src/Forward/Copying/Whole.antt =====
-- The parts that limitedWriter.Write of internal/forward/tcp.go hands to the writer below.
use portflow.Prelude.{
  ℕ, zero, suc, ◌+◌, ◌-◌, ◌%◌, ◌^◌, ◌≤◌, ◌<◌, ◌≡◌, refl, ap, ◌∙◌, Bool, true, false, none, some,
  List, [], ◌∷◌, ◌++◌, arith, length, take, drop, if◌then◌else◌, Option-cases, inl, inr,
  length-append,
}
use mathlib.Core.List.{append_assoc}
use portflow.Forward.Bandwidth.{BandwidthLimiter, max_chunk_size, byte}
use portflow.Forward.Copying.{
  ConnectionRuntime, record_bytes, wait_failed, Surroundings, Writing, write_chunk, write_loop,
  write_all,
}

take-take {ℓ} :
    {A : Type ℓ} (n m : ℕ) (xs : List A)
    → n ≤ length (take m xs)
    → take n (take m xs) ++ drop n xs ≡ xs
take-take zero m xs h = refl
take-take (suc n) zero xs h = absurd (omega arith)
take-take (suc n) (suc m) [] h = refl
take-take (suc n) (suc m) (x ∷ xs) h = ap (λ ys. x ∷ ys) (take-take n m xs (omega arith))

length-take_within {ℓ} : {A : Type ℓ} (n : ℕ) (xs : List A) → n ≤ length xs → length (take n xs) ≡ n
length-take_within zero xs h = refl
length-take_within (suc n) [] h = absurd (omega arith)
length-take_within (suc n) (x ∷ xs) h = omega (arith, length-take_within n xs (omega arith))

length-drop {ℓ} : {A : Type ℓ} (n : ℕ) (xs : List A) → length (drop n xs) ≡ length xs - n
length-drop zero xs = omega arith
length-drop (suc n) [] = omega arith
length-drop (suc n) (x ∷ xs) = omega (arith, length-drop n xs)

max_chunk_size-bounds :
    (limiter : BandwidthLimiter) (n : ℕ)
    → byte ≤ limiter.capacity
    → 0 < n
    → (0 < max_chunk_size limiter n) × (max_chunk_size limiter n ≤ n)
unfolding max_chunk_size
max_chunk_size-bounds limiter n roomy some_bytes = ground arith

abbrev pub bytes_of : Bool → ConnectionRuntime → ℕ
bytes_of inward session = if inward then session.bytes_in else session.bytes_out

-- What is written so far and the rest make the buffer, and the session's counter has grown by it.
pub record Progress (inward : Bool) (whole : List ℕ) (start : ℕ) (rest : List ℕ) (state : Writing)
    : Type 0 where
  pub in_order : state.delivered ++ rest ≡ whole
  pub counted : state.written ≡ length state.delivered
  pub recorded : bytes_of inward state.session % 2 ^ 64 ≡ (start + state.written) % 2 ^ 64

-- A writing that ended: without an error nothing is left.
pub record IsWriting (inward : Bool) (whole : List ℕ) (start : ℕ) (state : Writing) : Type 0 where
  pub rest : List ℕ
  pub so_far : Progress inward whole start rest state
  pub complete : state.problem ≡ none → rest ≡ []

record_bytes_lem :
    (inward : Bool) (count now : ℕ) (session : ConnectionRuntime)
    → bytes_of inward (record_bytes inward count now session) % 2 ^ 64
      ≡ (bytes_of inward session + count) % 2 ^ 64
unfolding record_bytes
record_bytes_lem true count now session = ground arith
record_bytes_lem false count now session = ground arith

write_chunk_whole :
    (world : Surroundings) (inward : Bool) (n : ℕ) (chunk : List ℕ) (state : Writing)
    → (write_chunk world inward n chunk state).problem ≡ none
    → (world.write n chunk).0 ≡ length chunk
unfolding write_chunk
write_chunk_whole world inward n chunk state e = ground (arith, e)

module _ (world : Surroundings) (inward : Bool) (whole : List ℕ) (start : ℕ)
    (roomy : (n : ℕ) → byte ≤ (world.limiter n).capacity)
    (within : (n : ℕ) (chunk : List ℕ) → (world.write n chunk).0 ≤ length chunk) where
  write_chunk-Progress :
      (n size : ℕ) (buffer : List ℕ) (state : Writing)
      → Progress inward whole start buffer state
      → Progress inward whole start
          (drop (world.write n (take size buffer)).0 buffer)
          (write_chunk world inward n (take size buffer) state)
  unfolding write_chunk
  write_chunk-Progress n size buffer state p =
      let chunk = take size buffer in
      let count = (world.write n chunk).0 in
      let taken = length-take_within count chunk (within n chunk) in
      record {
        in_order =
            append_assoc state.delivered (take count chunk) (drop count buffer)
            ∙ ap (λ (ys : List ℕ). state.delivered ++ ys)
                (take-take count size buffer (within n chunk))
            ∙ p.in_order;
        counted = omega (arith, length-append state.delivered (take count chunk), taken, p.counted);
        recorded =
            omega (arith, record_bytes_lem inward count (world.now n) state.session, p.recorded);
      }

  write_loop-IsWriting :
      (fuel n : ℕ) (buffer : List ℕ) (state : Writing)
      → length buffer ≤ fuel
      → state.problem ≡ none
      → Progress inward whole start buffer state
      → (r : Writing) × (write_loop world inward fuel n buffer state ≡ some r)
        × IsWriting inward whole start r
  unfolding write_loop
  write_loop-IsWriting fuel n [] state enough fine p =
      (state, refl, record { rest = []; so_far = p; complete = λ e. refl })
  write_loop-IsWriting zero n (b ∷ buffer) state enough fine p = absurd (omega arith)
  write_loop-IsWriting (suc fuel) n (b ∷ buffer) state enough fine p =
      let size = max_chunk_size (world.limiter n) (length (b ∷ buffer)) in
      let chunk = take size (b ∷ buffer) in
      let count = (world.write n chunk).0 in
      let left = drop count (b ∷ buffer) in
      let next = write_chunk world inward n chunk state in
      let q = write_chunk-Progress n size (b ∷ buffer) state p in
      elim (Option-cases (world.wait n size)) [
        | inr (message, failed) ↦ (
          record state { problem = some (wait_failed message) },
          ground (arith, failed),
          record {
            rest = b ∷ buffer;
            so_far = record { in_order = p.in_order; counted = p.counted; recorded = p.recorded };
            complete = λ e. absurd (ground (arith, e));
          },
        )
        | inl waited ↦ elim (Option-cases next.problem) [
          | inr (problem, failed) ↦ (
            next,
            ground (arith, waited, failed),
            record { rest = left; so_far = q; complete = λ e. absurd (ground (arith, e, failed)) },
          )
          | inl written ↦
              let bounds =
                max_chunk_size-bounds (world.limiter n) (length (b ∷ buffer)) (roomy n)
                  (omega arith) in
              let all : count ≡ size =
                write_chunk_whole world inward n chunk state written
                ∙ length-take_within size (b ∷ buffer) bounds.1 in
              let rest =
                write_loop-IsWriting fuel (n + 1) left next
                  (omega (arith, length-drop count (b ∷ buffer), all, bounds.0)) written q in
              (rest.0, ground (arith, waited, written, rest.1), rest.2)
        ]
      ]

-- Where every limiter's capacity is a byte at least and the writer below never takes more than it is
-- given, a Write ends. What it has written is the beginning of its buffer, as long as it says and as
-- the session's counter for the direction grows by, modulo 2^64; and it is the whole buffer where it
-- reports no error.
pub write_all-IsWriting :
    (world : Surroundings) (inward : Bool) (buffer : List ℕ) (session : ConnectionRuntime)
    → ((n : ℕ) → byte ≤ (world.limiter n).capacity)
    → ((n : ℕ) (chunk : List ℕ) → (world.write n chunk).0 ≤ length chunk)
    → (r : Writing) × (write_all world inward buffer session ≡ some r)
      × IsWriting inward buffer (bytes_of inward session) r
write_all-IsWriting world inward buffer session roomy within =
    let first : Writing = record {
      written = 0;
      delivered = [];
      session = session;
      problem = none;
    } in
    write_loop-IsWriting world inward buffer (bytes_of inward session) roomy within (length buffer)
      0 buffer first (omega arith) refl
      (record { in_order = refl; counted = refl; recorded = omega arith })
