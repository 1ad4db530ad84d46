-- ===== src/Forward/Manager/Ownership/Turning.antt =====
-- What a loop of Apply opens, beside the listeners that one protocol had.
use portflow.Prelude.{ℕ, ◌<◌, ◌≤◌, String, ◌≡◌, true, some, [], arith, inl, inr}
use portflow.Dict.{Dict, lookup, Distinct}
use portflow.Forward.Prepare.{PreparedRule}
use portflow.Forward.Manager.{Sockets, Listener, runs}
use portflow.Forward.Manager.Growth.{has_handle}
use portflow.Forward.Manager.Ownership.Opened.{AreAlone, IsOpened, handle_found}
use portflow.Forward.Manager.{Host, start_all}
use portflow.Forward.Manager.Ownership.Opened.{start_all-IsOpened, start_all_only}

-- One protocol's listeners across an Apply that opened these listeners from these sockets.
pub record IsTurning (own : String) (held started : Dict Listener) (desired : Dict PreparedRule)
    (calls : ℕ) : Type 0 where
  pub unrepeated : Distinct desired
  pub held_distinct : Distinct held
  pub held_alone : AreAlone held
  pub held_old : (k : String) (l : Listener) → lookup k held ≡ some l → l.handle < calls
  pub distinct : Distinct started
  pub alone : AreAlone started
  pub new : (k : String) (l : Listener) → lookup k started ≡ some l → calls ≤ l.handle
  pub called_for :
      (k : String) (l : Listener)
      → lookup k started ≡ some l
      → (p : PreparedRule) × (lookup k desired ≡ some p) × (runs own p ≡ true)

nothing-IsOpened : (base : Sockets) → IsOpened base ([], base)
unfolding lookup
nothing-IsOpened base = record {
  distinct = tt;
  alone = λ k j l m e f same. absurd (ground (arith, e));
  under = λ k l e. absurd (ground (arith, e));
  over = λ k l e. absurd (ground (arith, e));
  later = omega arith;
}

-- What a loop of Apply opens, and the listeners that one protocol had, turn over.
pub opened-IsTurning :
    (host : Host) (network own : String) (held : Dict Listener) (desired : Dict PreparedRule)
    (sockets : Sockets) (calls : ℕ)
    → Distinct desired
    → Distinct held
    → AreAlone held
    → ((h : ℕ) → has_handle h held ≡ true → h < calls)
    → calls ≤ sockets.calls
    → IsTurning own held (start_all host network own held desired ([], sockets)).1.0 desired calls
unfolding lookup
opened-IsTurning host network own held desired sockets calls d distinct alone old later =
    let opened =
      start_all-IsOpened host network own held sockets desired ([], sockets)
        (nothing-IsOpened sockets) in
    record {
      unrepeated = d;
      held_distinct = distinct;
      held_alone = alone;
      held_old = λ k l e. old l.handle (handle_found k l held e);
      distinct = opened.distinct;
      alone = opened.alone;
      new = λ k l e. omega (arith, opened.over k l e, later);
      called_for = λ k l e.
          elim (start_all_only host network own held sockets desired [] sockets k l d e) [
            | inl never ↦ absurd (ground (arith, never))
            | inr rule ↦ rule
          ];
    }
