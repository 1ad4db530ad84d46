-- ===== src/Agent/Logs.antt =====
-- internal/agent/log_buffer.go: the bounded queue of log entries that wait for a heartbeat. A
-- message is its bytes, since the source cuts it at a byte; the identifier "prefix-number" is the
-- pair of its parts. The random prefix and the time of an entry are arguments.
pub mod Queue
pub mod Acknowledged
use portflow.Prelude.{
  ℕ, ◌+◌, ◌%◌, ◌^◌, String, Bool, true, false, List, [], ◌∷◌, ◌++◌, ◌==◌, ◌&&◌, ◌||◌, not, eqb, leb,
  ltb, if◌then◌else◌, on_option, Option, none, some, length, take, drop, keep, trim_space,
}

pub record AgentLogHeartbeat : Type 0 where
  pub id_prefix : String
  pub id_number : ℕ
  pub level : String
  pub component : String
  pub message : List ℕ
  pub occurred_at : ℕ

pub record LogBuffer : Type 0 where
  pub capacity : ℕ
  pub prefix : String
  pub sequence : ℕ
  pub entries : List AgentLogHeartbeat

-- NewLogBuffer
unfoldable pub new_log_buffer : ℕ → String → LogBuffer
new_log_buffer capacity prefix = record {
  capacity = if ltb capacity 1 then 1000 else capacity;
  prefix = prefix;
  sequence = 0;
  entries = [];
}

unfoldable pub starts_with : List ℕ → List ℕ → Bool
starts_with bytes [] = true
starts_with [] (w ∷ word) = false
starts_with (b ∷ bytes) (w ∷ word) = eqb b w && starts_with bytes word

-- strings.ToLower on the bytes of a UTF-8 text, as far as it yields bytes of ASCII: the letters
-- A to Z, İ (c4 b0) and the sign of the kelvin (e2 84 aa). No word that is searched has others.
unfoldable pub to_lower : List ℕ → List ℕ
unfolding starts_with
to_lower [] = []
to_lower (b ∷ bytes) =
    let rest = to_lower bytes in
    if starts_with (b ∷ bytes) (0xc4 ∷ 0xb0 ∷ [])
    then 0x69 ∷ drop 1 rest
    else if starts_with (b ∷ bytes) (0xe2 ∷ 0x84 ∷ 0xaa ∷ [])
    then 0x6b ∷ drop 2 rest
    else (if leb 65 b && leb b 90 then b + 32 else b) ∷ rest

-- strings.Contains
unfoldable pub has_word : List ℕ → List ℕ → Bool
unfolding starts_with
has_word [] word = starts_with [] word
has_word (b ∷ bytes) word = starts_with (b ∷ bytes) word || has_word bytes word

-- "failed", "failure", "error", "rejected"
abbrev pub error_words : List (List ℕ)
error_words =
    (b'f' ∷ b'a' ∷ b'i' ∷ b'l' ∷ b'e' ∷ b'd' ∷ [])
    ∷ (b'f' ∷ b'a' ∷ b'i' ∷ b'l' ∷ b'u' ∷ b'r' ∷ b'e' ∷ [])
    ∷ (b'e' ∷ b'r' ∷ b'r' ∷ b'o' ∷ b'r' ∷ [])
    ∷ (b'r' ∷ b'e' ∷ b'j' ∷ b'e' ∷ b'c' ∷ b't' ∷ b'e' ∷ b'd' ∷ [])
    ∷ []

-- "warning", "retry", "dropped"
abbrev pub warning_words : List (List ℕ)
warning_words =
    (b'w' ∷ b'a' ∷ b'r' ∷ b'n' ∷ b'i' ∷ b'n' ∷ b'g' ∷ [])
    ∷ (b'r' ∷ b'e' ∷ b't' ∷ b'r' ∷ b'y' ∷ [])
    ∷ (b'd' ∷ b'r' ∷ b'o' ∷ b'p' ∷ b'p' ∷ b'e' ∷ b'd' ∷ [])
    ∷ []

unfoldable pub has_any : List ℕ → List (List ℕ) → Bool
unfolding has_word
has_any bytes [] = false
has_any bytes (word ∷ words) = has_word bytes word || has_any bytes words

unfoldable pub infer_log_level : List ℕ → String
unfolding has_any to_lower
infer_log_level message =
    if has_any (to_lower message) error_words
    then "error"
    else if has_any (to_lower message) warning_words
    then "warning"
    else "info"

-- append: on a full buffer the oldest entry gives way.
unfoldable pub append_entry : LogBuffer → AgentLogHeartbeat → LogBuffer
append_entry buffer entry =
    if eqb (length buffer.entries) buffer.capacity
    then record buffer { entries = drop 1 buffer.entries ++ (entry ∷ []) }
    else record buffer { entries = buffer.entries ++ (entry ∷ []) }

abbrev pub next_number : LogBuffer → ℕ
next_number buffer = (buffer.sequence + 1) % 2 ^ 64

-- The entry that Logger builds from a formatted message.
unfoldable pub logged_entry : LogBuffer → String → List ℕ → ℕ → AgentLogHeartbeat
logged_entry buffer component message now =
    let cut = if ltb 2000 (length message) then take 2000 message else message in
    record {
      id_prefix = buffer.prefix;
      id_number = next_number buffer;
      level = infer_log_level cut;
      component = if trim_space component == "" then "agent" else trim_space component;
      message = cut;
      occurred_at = now;
    }

-- atomic.AddUint64 of the function that Logger returns, on a buffer that is not nil. It runs before
-- the lock of append is taken, so other goroutines may draw and append between the two.
unfoldable pub draw : LogBuffer → LogBuffer
draw buffer = record buffer { sequence = next_number buffer }

-- A call of the function that Logger returns with no other goroutine's step between its two.
unfoldable pub log : LogBuffer → String → List ℕ → ℕ → LogBuffer
unfolding draw append_entry
log buffer component message now =
    append_entry (draw buffer) (logged_entry buffer component message now)

unfoldable pub pending : LogBuffer → ℕ → List AgentLogHeartbeat
pending buffer limit =
    if ltb limit 1
    then []
    else take (if ltb (length buffer.entries) limit then length buffer.entries else limit)
        buffer.entries

-- acknowledged[entry.ID]
unfoldable pub is_acknowledged : List AgentLogHeartbeat → AgentLogHeartbeat → Bool
is_acknowledged [] entry = false
is_acknowledged (sent ∷ batch) entry =
    (eqb sent.id_number entry.id_number && sent.id_prefix == entry.id_prefix)
    || is_acknowledged batch entry

unfoldable pub acknowledge : LogBuffer → List AgentLogHeartbeat → LogBuffer
acknowledge buffer batch = if eqb (length batch) 0 then buffer else record buffer {
  entries = keep (λ entry. not (is_acknowledged batch entry)) buffer.entries;
}

-- The buffer, and the entries that goroutines have drawn a number for and not appended yet.
pub record Logging : Type 0 where
  pub buffer : LogBuffer
  pub drawn : List AgentLogHeartbeat

-- The steps of the forwarding goroutines and the runtime, each of them atomic: draw a number for a
-- message, append the entry of a number that is drawn, in whatever order, and acknowledge.
pub data LogStep : Type 0 where
  draws : String → List ℕ → ℕ → LogStep
  appends : ℕ → LogStep
  acknowledges : List AgentLogHeartbeat → LogStep

-- The drawn entry of a number, and the others.
unfoldable pub take_drawn :
    ℕ → List AgentLogHeartbeat → Option (AgentLogHeartbeat × List AgentLogHeartbeat)
take_drawn number [] = none
take_drawn number (entry ∷ drawn) =
    let rest = take_drawn number drawn in
    if eqb entry.id_number number
    then some (entry, drawn)
    else on_option rest none λ (found, others). some (found, entry ∷ others)

unfoldable pub log_step : Logging → LogStep → Logging
unfolding draw logged_entry append_entry take_drawn acknowledge
log_step logging (draws component message now) = record {
  buffer = draw logging.buffer;
  drawn = logged_entry logging.buffer component message now ∷ logging.drawn;
}
log_step logging (appends number) =
    on_option (take_drawn number logging.drawn) logging
      λ (entry, others). record { buffer = append_entry logging.buffer entry; drawn = others }
log_step logging (acknowledges batch) = record logging { buffer = acknowledge logging.buffer batch }

unfoldable pub run_logs : Logging → List LogStep → Logging
unfolding log_step
run_logs logging [] = logging
run_logs logging (step ∷ steps) = run_logs (log_step logging step) steps
