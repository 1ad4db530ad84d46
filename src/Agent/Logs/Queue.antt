-- ===== src/Agent/Logs/Queue.antt =====
-- The log queue of internal/agent/log_buffer.go under concurrent loggers.
use portflow.Prelude.{
  ℕ, suc, ◌+◌, ◌-◌, ◌^◌, ◌≤◌, ◌<◌, ◌≡◌, refl, String, Bool, true, not, some, List, [], ◌∷◌, ◌++◌,
  eqb, if◌then◌else◌, length, length-append, drop, keep, length-keep, arith, Bool-cases,
  Option-cases, inl, inr,
}
use portflow.Agent.Logs.{
  AgentLogHeartbeat, LogBuffer, new_log_buffer, append_entry, log, draw, logged_entry,
  is_acknowledged, acknowledge, Logging, LogStep, draws, appends, acknowledges, take_drawn,
  log_step, run_logs, next_number,
}

-- How many entries carry this number.
unfoldable pub tally : ℕ → List AgentLogHeartbeat → ℕ
tally n [] = 0
tally n (entry ∷ entries) =
    let rest = tally n entries in if eqb entry.id_number n then rest + 1 else rest

-- Of the entries that are drawn or stand in the buffer, no two have one number, and none has a
-- number that is not drawn yet.
pub record IsQueue (logging : Logging) : Type 0 where
  pub room : 1 ≤ logging.buffer.capacity
  pub bounded : length logging.buffer.entries ≤ logging.buffer.capacity
  pub once : (n : ℕ) → tally n logging.drawn + tally n logging.buffer.entries ≤ 1
  pub past :
      (n : ℕ)
      → logging.buffer.sequence < n
      → tally n logging.drawn + tally n logging.buffer.entries ≡ 0

pub tally-append :
    (n : ℕ) (xs ys : List AgentLogHeartbeat) → tally n (xs ++ ys) ≡ tally n xs + tally n ys
unfolding tally
tally-append n [] ys = omega arith
tally-append n (x ∷ xs) ys = ground (arith, tally-append n xs ys)

tally-drop_one : (n : ℕ) (xs : List AgentLogHeartbeat) → tally n (drop 1 xs) ≤ tally n xs
unfolding tally
tally-drop_one n [] = omega arith
tally-drop_one n (x ∷ xs) = ground arith

tally-keep :
    (p : AgentLogHeartbeat → Bool) (n : ℕ) (xs : List AgentLogHeartbeat)
    → tally n (keep p xs) ≤ tally n xs
unfolding tally keep
tally-keep p n [] = omega arith
tally-keep p n (x ∷ xs) = ground (arith, tally-keep p n xs)

length-drop_one : {A : Type 0} (xs : List A) (n : ℕ) → length xs ≡ suc n → length (drop 1 xs) ≡ n
length-drop_one [] n h = ground arith
length-drop_one (x ∷ xs) n h = ground arith

append_entry-same :
    (buffer : LogBuffer) (entry : AgentLogHeartbeat)
    → ((append_entry buffer entry).sequence ≡ buffer.sequence)
      × ((append_entry buffer entry).capacity ≡ buffer.capacity)
unfolding append_entry
append_entry-same buffer entry = ground arith

tally-append_entry :
    (n : ℕ) (buffer : LogBuffer) (entry : AgentLogHeartbeat)
    → tally n (append_entry buffer entry).entries ≤ tally n (entry ∷ []) + tally n buffer.entries
unfolding append_entry
tally-append_entry n buffer entry = ground (
  arith,
  tally-append n (drop 1 buffer.entries) (entry ∷ []),
  tally-append n buffer.entries (entry ∷ []),
  tally-drop_one n buffer.entries,
)

length-append_entry :
    (buffer : LogBuffer) (entry : AgentLogHeartbeat)
    → 1 ≤ buffer.capacity
    → length buffer.entries ≤ buffer.capacity
    → length (append_entry buffer entry).entries ≤ buffer.capacity
unfolding append_entry
length-append_entry buffer entry room bound = ground (
  arith,
  length-append (drop 1 buffer.entries) (entry ∷ []),
  length-append buffer.entries (entry ∷ []),
  length-drop_one buffer.entries (buffer.capacity - 1),
)

-- Taking an entry moves it out of the drawn ones.
tally-take_drawn :
    (n number : ℕ) (drawn others : List AgentLogHeartbeat) (entry : AgentLogHeartbeat)
    → take_drawn number drawn ≡ some (entry, others)
    → tally n drawn ≡ tally n (entry ∷ []) + tally n others
unfolding take_drawn tally
tally-take_drawn n number [] others entry e = absurd (ground (arith, e))
tally-take_drawn n number (first ∷ drawn) others entry e =
    elim (Bool-cases (eqb first.id_number number)) [
      | inl is ↦ ground (arith, is, e)
      | inr other ↦ elim (Option-cases (take_drawn number drawn)) [
        | inl missing ↦ absurd (ground (arith, other, missing, e))
        | inr ((found, left), f) ↦
            ground (arith, other, f, e, tally-take_drawn n number drawn left found f)
      ]
    ]

draw-IsQueue :
    (logging : Logging) (component : String) (message : List ℕ) (now : ℕ)
    → IsQueue logging
    → logging.buffer.sequence + 1 < 2 ^ 64
    → IsQueue (log_step logging (draws component message now))
      × ((log_step logging (draws component message now)).buffer.sequence
          ≡ logging.buffer.sequence + 1)
unfolding log_step draw logged_entry tally
draw-IsQueue logging component message now v small =
    let number : next_number logging.buffer ≡ logging.buffer.sequence + 1 = omega arith in
    (
      record {
        room = v.room;
        bounded = v.bounded;
        once = λ n. ground (arith, number, v.once n, v.past n);
        past = λ n h. ground (arith, number, h, v.past n);
      },
      number,
    )

append-IsQueue :
    (logging : Logging) (number : ℕ)
    → IsQueue logging
    → IsQueue (log_step logging (appends number))
      × ((log_step logging (appends number)).buffer.sequence ≡ logging.buffer.sequence)
unfolding log_step
append-IsQueue logging number v = elim (Option-cases (take_drawn number logging.drawn)) [
  | inl missing ↦ rw missing (v, refl)
  | inr ((entry, others), e) ↦
      let same = append_entry-same logging.buffer entry in
      rw e (
        record {
          room = omega (arith, v.room, same.1);
          bounded =
              omega (arith, same.1, length-append_entry logging.buffer entry v.room v.bounded);
          once = λ n. omega (
            arith,
            v.once n,
            tally-take_drawn n number logging.drawn others entry e,
            tally-append_entry n logging.buffer entry,
          );
          past = λ n h. omega (
            arith,
            v.past n (omega (arith, same.0, h)),
            tally-take_drawn n number logging.drawn others entry e,
            tally-append_entry n logging.buffer entry,
          );
        },
        same.0,
      )
]

acknowledge-IsQueue :
    (logging : Logging) (batch : List AgentLogHeartbeat)
    → IsQueue logging
    → IsQueue (log_step logging (acknowledges batch))
      × ((log_step logging (acknowledges batch)).buffer.sequence ≡ logging.buffer.sequence)
unfolding log_step acknowledge
acknowledge-IsQueue logging batch v = elim (Bool-cases (eqb (length batch) 0)) [
  | inl empty ↦ rw empty (v, refl)
  | inr sent ↦
      let fresh = λ (entry : AgentLogHeartbeat). not (is_acknowledged batch entry) in
      let entries = logging.buffer.entries in
      rw sent (
        record {
          room = v.room;
          bounded = omega (arith, v.bounded, length-keep fresh entries);
          once = λ n. omega (arith, v.once n, tally-keep fresh n entries);
          past = λ n h. omega (arith, v.past n h, tally-keep fresh n entries);
        },
        refl,
      )
]

log_step-IsQueue :
    (logging : Logging) (step : LogStep)
    → IsQueue logging
    → logging.buffer.sequence + 1 < 2 ^ 64
    → IsQueue (log_step logging step)
      × ((log_step logging step).buffer.sequence ≤ logging.buffer.sequence + 1)
log_step-IsQueue logging (draws component message now) v small =
    let next = draw-IsQueue logging component message now v small in (next.0, omega (arith, next.1))
log_step-IsQueue logging (appends number) v small =
    let next = append-IsQueue logging number v in (next.0, omega (arith, next.1))
log_step-IsQueue logging (acknowledges batch) v small =
    let next = acknowledge-IsQueue logging batch v in (next.0, omega (arith, next.1))

pub run_logs_from-IsQueue :
    (logging : Logging) (steps : List LogStep)
    → IsQueue logging
    → logging.buffer.sequence + length steps < 2 ^ 64
    → IsQueue (run_logs logging steps)
unfolding run_logs
run_logs_from-IsQueue logging [] v small = v
run_logs_from-IsQueue logging (step ∷ steps) v small =
    let next = log_step-IsQueue logging step v (omega arith) in
    run_logs_from-IsQueue (log_step logging step) steps next.0 (omega (arith, next.1))

-- A new buffer, before any goroutine logs.
abbrev pub new_logging : ℕ → String → Logging
new_logging capacity prefix = record { buffer = new_log_buffer capacity prefix; drawn = [] }

new_logging-IsQueue : (capacity : ℕ) (prefix : String) → IsQueue (new_logging capacity prefix)
unfolding new_log_buffer tally
new_logging-IsQueue capacity prefix = record {
  room = ground arith;
  bounded = omega arith;
  once = λ n. omega arith;
  past = λ n h. refl;
}

-- After any history of fewer than 2^64 steps on a new buffer, in which goroutines draw a number and
-- append its entry later, in whatever order, and the runtime acknowledges, the buffer holds at most
-- its capacity. Of the entries that are drawn or stand in it, no two have one number, and none has
-- a number above the buffer's sequence number.
pub run_logs-IsQueue :
    (capacity : ℕ) (prefix : String) (steps : List LogStep)
    → length steps < 2 ^ 64
    → IsQueue (run_logs (new_logging capacity prefix) steps)
unfolding new_log_buffer
run_logs-IsQueue capacity prefix steps small =
    run_logs_from-IsQueue (new_logging capacity prefix) steps (new_logging-IsQueue capacity prefix)
      (omega arith)

-- A call of the logger with no other goroutine's step between its two is the two steps.
log-run_logs :
    (logging : Logging) (component : String) (message : List ℕ) (now : ℕ)
    → run_logs logging (draws component message now ∷ appends (next_number logging.buffer) ∷ [])
      ≡ record logging { buffer = log logging.buffer component message now }
unfolding run_logs log_step log logged_entry take_drawn
log-run_logs logging component message now =
    let same : eqb (next_number logging.buffer) (next_number logging.buffer) ≡ true =
      ground arith in
    rw same refl
