-- ===== src/Store/Telemetry/Logs.antt =====
-- The log entries of a heartbeat that is sent again, internal/store/memory.go.
use portflow.Prelude.{
  ℕ, ◌≡◌, refl, ap, ◌∙◌, String, some, List, [], ◌∷◌, arith, eq_iff, Option-cases, inl, inr,
}
use portflow.Dict.{Dict, lookup}
use portflow.Dict.Laws.{lookup-insert}
use portflow.Store.{AgentLog}
use portflow.Store.Telemetry.{add_log, add_logs, log_key}

abbrev Stored : Type 0
Stored = List AgentLog × Dict (Unit {0})

-- The entry's key is there.
abbrev Knows : Stored → String → Type 0
Knows state key = lookup key state.1 ≡ some tt

add_log-Knows :
    (node_id : String) (received_at : ℕ) (entry : AgentLog) (state : Stored) (key : String)
    → Knows state key
    → Knows (add_log node_id received_at entry state) key
unfolding add_log
add_log-Knows node_id received_at entry state key h =
    let k = log_key node_id entry.event_id in
    elim (Option-cases (lookup k state.1)) [
      | inl new ↦ rw new (ground (arith, lookup-insert k key tt state.1, h))
      | inr (seen, old) ↦ rw old h
    ]

add_log-adds :
    (node_id : String) (received_at : ℕ) (entry : AgentLog) (state : Stored)
    → Knows (add_log node_id received_at entry state) (log_key node_id entry.event_id)
unfolding add_log
add_log-adds node_id received_at entry state =
    let k = log_key node_id entry.event_id in
    elim (Option-cases (lookup k state.1)) [
      | inl new ↦ rw new (ground (arith, lookup-insert k k tt state.1, eq_iff k k))
      | inr (seen, old) ↦ rw old old
    ]

add_logs-Knows :
    (node_id : String) (received_at : ℕ) (entries : List AgentLog) (state : Stored) (key : String)
    → Knows state key
    → Knows (add_logs node_id received_at entries state) key
unfolding add_logs
add_logs-Knows node_id received_at [] state key h = h
add_logs-Knows node_id received_at (e ∷ es) state key h =
    add_logs-Knows node_id received_at es (add_log node_id received_at e state) key
      (add_log-Knows node_id received_at e state key h)

abbrev KnowsAll : String → Stored → List AgentLog → Type 0
KnowsAll node_id state [] = Unit
KnowsAll node_id state (e ∷ es) =
    Knows state (log_key node_id e.event_id) × KnowsAll node_id state es

add_logs-KnowsAll :
    (node_id : String) (received_at : ℕ) (entries : List AgentLog) (state : Stored)
    → KnowsAll node_id (add_logs node_id received_at entries state) entries
unfolding add_logs
add_logs-KnowsAll node_id received_at [] state = tt
add_logs-KnowsAll node_id received_at (e ∷ es) state =
    let next = add_log node_id received_at e state in
    (
      add_logs-Knows node_id received_at es next (log_key node_id e.event_id)
          (add_log-adds node_id received_at e state),
      add_logs-KnowsAll node_id received_at es next,
    )

add_log-known :
    (node_id : String) (received_at : ℕ) (entry : AgentLog) (state : Stored)
    → Knows state (log_key node_id entry.event_id)
    → add_log node_id received_at entry state ≡ state
unfolding add_log
add_log-known node_id received_at entry state known = rw known refl

add_logs-known :
    (node_id : String) (received_at : ℕ) (entries : List AgentLog) (state : Stored)
    → KnowsAll node_id state entries
    → add_logs node_id received_at entries state ≡ state
unfolding add_logs
add_logs-known node_id received_at [] state known = refl
add_logs-known node_id received_at (e ∷ es) state known =
    ap (add_logs node_id received_at es) (add_log-known node_id received_at e state known.0)
    ∙ add_logs-known node_id received_at es state known.1

-- Log entries that are stored a second time, at whatever time the heartbeat is repeated, leave the
-- stored entries and their keys as the first time left them.
add_logs-repeated :
    (node_id : String) (first second : ℕ) (entries logs : List AgentLog) (keys : Dict (Unit {0}))
    → let stored = add_logs node_id first entries (logs, keys) in
      add_logs node_id second entries stored ≡ stored
add_logs-repeated node_id first second entries logs keys =
    add_logs-known node_id second entries (add_logs node_id first entries (logs, keys))
      (add_logs-KnowsAll node_id first entries (logs, keys))
