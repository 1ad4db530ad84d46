-- ===== src/Store/Enrollment/Tokens.antt =====
-- EnrollAgent of internal/store/memory.go: what a token has to be, and what becomes of it.
use portflow.Prelude.{
  ℕ, ◌<◌, String, ◌≡◌, ◌↔◌, true, false, none, some, arith, ltb, eq_refl, Option-cases, ok, err,
  inl, inr,
}
use portflow.Dict.{lookup}
use portflow.Dict.Laws.{lookup-insert}
use portflow.Domain.{Node}
use portflow.Store.{Memory, EnrollmentToken, AgentIdentity, token_invalid}
use portflow.Store.Enrollment.{enroll_agent, enrolled, enrolled_node, is_used}

-- What it takes for a token to admit an agent at a time.
pub record Admits (m : Memory) (hash : String) (now : ℕ) (agent : AgentIdentity)
    (t : EnrollmentToken) : Type 0 where
  pub stored : lookup hash m.enrollment_tokens ≡ some t
  pub unused : t.used_at ≡ none
  pub unexpired : now < t.expires_at
  pub new_node : lookup agent.id m.nodes ≡ none

pub enroll_agent-Admits :
    (m m' : Memory) (hash : String) (now : ℕ) (agent : AgentIdentity) (node : Node)
    → enroll_agent m hash now agent ≡ (ok node, m')
    → (t : EnrollmentToken) × Admits m hash now agent t
      × (m' ≡ enrolled m hash t now agent)
      × (node ≡ enrolled_node agent now)
unfolding enroll_agent
enroll_agent-Admits m m' hash now agent node h =
    elim (Option-cases (lookup hash m.enrollment_tokens)) [
      | inl e ↦ ground (arith, e)
      | inr (t, e) ↦ (
        t,
        record {
          stored = e;
          unused = ground (arith, e);
          unexpired = ground (arith, e);
          new_node = ground (arith, e);
        },
        ground (arith, e),
        ground (arith, e),
      )
    ]

-- EnrollAgent succeeds exactly when a stored token has the hash, is unused and unexpired, and the
-- agent's identifier is new; it then returns the node at configuration version 1 and writes the
-- token's use, the node, its credential and its empty configuration.
enroll_agent-ok_iff :
    (m m' : Memory) (hash : String) (now : ℕ) (agent : AgentIdentity) (node : Node)
    → (enroll_agent m hash now agent ≡ (ok node, m')) ↔ (
        (t : EnrollmentToken) × Admits m hash now agent t
        × (m' ≡ enrolled m hash t now agent)
        × (node ≡ enrolled_node agent now))
unfolding enroll_agent
enroll_agent-ok_iff m m' hash now agent node = (
  enroll_agent-Admits m m' hash now agent node,
  λ (t, a, e, n).
      rw (e, n, a.stored) (rw (unused_lem t a.unused, unexpired_lem t a.unexpired, a.new_node)),
)
  where
    unused_lem : (t : EnrollmentToken) → t.used_at ≡ none → is_used t ≡ false
    unused_lem t h = ground arith

    unexpired_lem : (t : EnrollmentToken) → now < t.expires_at → ltb now t.expires_at ≡ true
    unexpired_lem t h = ground arith

-- Once an agent has enrolled with a token, the token admits nobody: every later EnrollAgent with
-- it fails with ErrTokenInvalid and changes nothing.
enroll_agent_once :
    (m m' : Memory) (hash : String) (now later : ℕ) (agent other : AgentIdentity) (node : Node)
    → enroll_agent m hash now agent ≡ (ok node, m')
    → enroll_agent m' hash later other ≡ (err token_invalid, m')
unfolding enroll_agent
enroll_agent_once m m' hash now later agent other node h =
    let (t, a, e, _) = enroll_agent-Admits m m' hash now agent node h in
    ground (
      arith,
      lookup-insert hash hash (record t { used_at = some now }) m.enrollment_tokens,
      eq_refl hash,
    )
