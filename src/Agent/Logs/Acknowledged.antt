-- ===== src/Agent/Logs/Acknowledged.antt =====
-- Acknowledge of internal/agent/log_buffer.go behind Pending, with what is logged between the two.
use portflow.Prelude.{
  ℕ, zero, suc, ◌+◌, ◌^◌, ◌≤◌, ◌<◌, ◌≡◌, refl, sym, ap, ◌∙◌, subst, Bool, true, false, not, List,
  [], ◌∷◌, ◌++◌, eqb, ltb, if◌then◌else◌, length, length-append, take, drop, keep, All, arith,
  eq_refl, Bool-cases, Option-cases, inl, inr,
}
use portflow.Agent.Logs.{
  AgentLogHeartbeat, LogBuffer, append_entry, pending, is_acknowledged, acknowledge, Logging,
  LogStep, draws, appends, acknowledges, take_drawn, log_step, run_logs, draw,
}
use portflow.Agent.Logs.Queue.{IsQueue, tally, tally-append, run_logs_from-IsQueue}

-- An entry whose number the batch does not have is not in it.
others-not_acknowledged :
    (batch : List AgentLogHeartbeat) (entry : AgentLogHeartbeat)
    → tally entry.id_number batch ≡ 0
    → is_acknowledged batch entry ≡ false
unfolding is_acknowledged tally
others-not_acknowledged [] entry e = refl
others-not_acknowledged (sent ∷ batch) entry e =
    ground (arith, others-not_acknowledged batch entry, e)

-- Entries that share no number with a batch survive its acknowledgement.
keep_others :
    (batch entries : List AgentLogHeartbeat)
    → ((n : ℕ) → tally n batch + tally n entries ≤ 1)
    → keep (λ entry. not (is_acknowledged batch entry)) entries ≡ entries
unfolding keep tally
keep_others batch [] once = refl
keep_others batch (e ∷ es) once = ground (
  arith,
  others-not_acknowledged batch e,
  once e.id_number,
  keep_others batch es λ n. ground (arith, once n),
)

keep_sent :
    (batch entries rest : List AgentLogHeartbeat)
    → All (λ entry. is_acknowledged batch entry ≡ true) entries
    → keep (λ entry. not (is_acknowledged batch entry)) (entries ++ rest)
      ≡ keep (λ entry. not (is_acknowledged batch entry)) rest
unfolding keep
keep_sent batch [] rest all = refl
keep_sent batch (e ∷ es) rest all = ground (arith, keep_sent batch es rest all.1)

more_sent :
    (sent : AgentLogHeartbeat) (batch entries : List AgentLogHeartbeat)
    → All (λ entry. is_acknowledged batch entry ≡ true) entries
    → All (λ entry. is_acknowledged (sent ∷ batch) entry ≡ true) entries
unfolding is_acknowledged
more_sent sent batch [] all = tt
more_sent sent batch (e ∷ es) all = (ground (arith, all.0), more_sent sent batch es all.1)

batch-sent :
    (batch : List AgentLogHeartbeat) → All (λ entry. is_acknowledged batch entry ≡ true) batch
unfolding is_acknowledged
batch-sent [] = tt
batch-sent (sent ∷ batch) =
    (ground (arith, eq_refl sent.id_prefix), more_sent sent batch batch (batch-sent batch))

take-append_drop : {A : Type 0} (n : ℕ) (xs : List A) → take n xs ++ drop n xs ≡ xs
take-append_drop zero xs = refl
take-append_drop (suc n) [] = refl
take-append_drop (suc n) (x ∷ xs) = ap (λ ys. x ∷ ys) (take-append_drop n xs)

-- A queue whose front was sent and which grew meanwhile.
acknowledge_front :
    (batch rest : List AgentLogHeartbeat)
    → ((n : ℕ) → tally n (batch ++ rest) ≤ 1)
    → keep (λ entry. not (is_acknowledged batch entry)) (batch ++ rest) ≡ rest
acknowledge_front batch rest once =
    keep_sent batch batch rest (batch-sent batch)
    ∙ keep_others batch rest λ n. omega (arith, once n, tally-append n batch rest)

drop-append : {A : Type 0} (xs ys : List A) → drop (length xs) (xs ++ ys) ≡ ys
drop-append [] ys = refl
drop-append (x ∷ xs) ys = drop-append xs ys

append_nil : {A : Type 0} (xs : List A) → xs ++ [] ≡ xs
append_nil [] = refl
append_nil (x ∷ xs) = ap (λ l. x ∷ l) (append_nil xs)

append_assoc : {A : Type 0} (xs ys zs : List A) → (xs ++ ys) ++ zs ≡ xs ++ (ys ++ zs)
append_assoc [] ys zs = refl
append_assoc (x ∷ xs) ys zs = ap (λ l. x ∷ l) (append_assoc xs ys zs)

-- A step of a goroutine that logs.
unfoldable pub is_message : LogStep → Bool
is_message (draws component message now) = true
is_message (appends number) = true
is_message (acknowledges batch) = false

append_entry-fits :
    (buffer : LogBuffer) (entry : AgentLogHeartbeat)
    → length buffer.entries < buffer.capacity
    → ((append_entry buffer entry).entries ≡ buffer.entries ++ (entry ∷ []))
      × ((append_entry buffer entry).capacity ≡ buffer.capacity)
unfolding append_entry
append_entry-fits buffer entry room = ground arith

-- A step of a logger puts at most one entry behind those that are there.
log_step-entries :
    (logging : Logging) (step : LogStep)
    → is_message step ≡ true
    → length logging.buffer.entries < logging.buffer.capacity
    → (new : List AgentLogHeartbeat) × ((log_step logging step).buffer.entries
        ≡ logging.buffer.entries ++ new)
      × ((log_step logging step).buffer.capacity ≡ logging.buffer.capacity)
      × (length new ≤ 1)
unfolding log_step draw is_message
log_step-entries logging (draws component message now) m room =
    ([], sym (append_nil logging.buffer.entries), refl, omega arith)
log_step-entries logging (acknowledges batch) m room = absurd (ground (arith, m))
log_step-entries logging (appends number) m room =
    elim (Option-cases (take_drawn number logging.drawn)) [
      | inl missing ↦ rw missing ([], sym (append_nil logging.buffer.entries), refl, omega arith)
      | inr ((entry, others), e) ↦
          let added = append_entry-fits logging.buffer entry room in
          rw e (entry ∷ [], added.0, added.1, omega arith)
    ]

-- Steps of loggers whose entries fit put them behind those that are there.
run_logs-entries :
    (logging : Logging) (steps : List LogStep)
    → All (λ step. is_message step ≡ true) steps
    → length logging.buffer.entries + length steps ≤ logging.buffer.capacity
    → (new : List AgentLogHeartbeat) × ((run_logs logging steps).buffer.entries
        ≡ logging.buffer.entries ++ new)
unfolding run_logs
run_logs-entries logging [] m fits = ([], sym (append_nil logging.buffer.entries))
run_logs-entries logging (step ∷ steps) m fits =
    let one = log_step-entries logging step m.0 (omega arith) in
    let rest =
      run_logs-entries (log_step logging step) steps m.1 (
        omega (arith, one.2, one.3, ap length one.1, length-append logging.buffer.entries one.0)) in
    (
      one.0 ++ rest.0,
      rest.1 ∙ ap (λ l. l ++ rest.0) one.1 ∙ append_assoc logging.buffer.entries one.0 rest.0,
    )

pending-front :
    (buffer : LogBuffer) (limit : ℕ) → (n : ℕ) × (pending buffer limit ≡ take n buffer.entries)
unfolding pending
pending-front buffer limit = elim (Bool-cases (ltb limit 1)) [
  | inl nothing ↦ rw nothing (0, refl)
  | inr more ↦
      rw more (if ltb (length buffer.entries) limit then length buffer.entries else limit, refl)
]

acknowledge_entries :
    (buffer : LogBuffer) (batch rest : List AgentLogHeartbeat)
    → ((n : ℕ) → tally n buffer.entries ≤ 1)
    → buffer.entries ≡ batch ++ rest
    → (acknowledge buffer batch).entries ≡ rest
unfolding acknowledge
acknowledge_entries buffer [] rest once e = e
acknowledge_entries buffer (sent ∷ batch) rest once e =
    let filled : eqb (length (sent ∷ batch)) 0 ≡ false = ground arith in
    let kept =
      acknowledge_front (sent ∷ batch) rest (subst (λ l. (n : ℕ) → tally n l ≤ 1) e once) in
    rw filled (ap (keep (λ entry. not (is_acknowledged (sent ∷ batch) entry))) e ∙ kept)

-- While a heartbeat is under way, goroutines draw numbers and append entries in whatever order, those
-- drawn before among them. Where the buffer is bounded, no number occurs twice or above the
-- sequence number, fewer than 2^64 numbers are drawn, and there is room for an entry of each step,
-- acknowledging the batch that the heartbeat took removes exactly that batch: the other entries and
-- every entry appended meanwhile stay, in order.
pub acknowledge-pending :
    (logging : Logging) (limit : ℕ) (steps : List LogStep)
    → IsQueue logging
    → logging.buffer.sequence + length steps < 2 ^ 64
    → All (λ step. is_message step ≡ true) steps
    → length logging.buffer.entries + length steps ≤ logging.buffer.capacity
    → let batch = pending logging.buffer limit in
      let after = (run_logs logging steps).buffer in
      (acknowledge after batch).entries ≡ drop (length batch) after.entries
acknowledge-pending logging limit steps v small messages fits =
    let buffer = logging.buffer in
    let batch = pending buffer limit in
    let after = (run_logs logging steps).buffer in
    let front = pending-front buffer limit in
    let grown = run_logs-entries logging steps messages fits in
    let rest = drop front.0 buffer.entries ++ grown.0 in
    let whole : after.entries ≡ batch ++ rest =
      grown.1
      ∙ ap (λ l. l ++ grown.0) (sym (take-append_drop front.0 buffer.entries))
      ∙ append_assoc (take front.0 buffer.entries) (drop front.0 buffer.entries) grown.0
      ∙ ap (λ l. l ++ rest) (sym front.1) in
    let kept = run_logs_from-IsQueue logging steps v small in
    acknowledge_entries after batch rest (λ n. omega (arith, kept.once n)) whole
    ∙ sym (ap (drop (length batch)) whole ∙ drop-append batch rest)
