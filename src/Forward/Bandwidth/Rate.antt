-- ===== src/Forward/Bandwidth/Rate.antt =====
-- The amount that the limiter of internal/forward/bandwidth.go grants over a time.
use native.Mathlib.Nat.{add-mul}
use portflow.Prelude.{
  ℕ, ◌+◌, ◌-◌, ◌*◌, ◌≤◌, ◌<◌, ◌≡◌, refl, sym, ap, subst, ◌∙◌, true, false, List, [], ◌∷◌, eqb,
  arith, Bool-cases, inl, inr,
}
use portflow.Forward.Bandwidth.{
  BandwidthLimiter, Pass, limiter_closed, granted_all, waits, wait_pass, grant_pass, refill_locked,
  granted,
}

-- What a pass grants of the units that remained.
abbrev pub grant_of : ℕ → Pass → ℕ
grant_of remaining limiter_closed = 0
grant_of remaining granted_all = remaining
grant_of remaining (waits time left) = remaining - left

refill-tokens :
    (limiter : BandwidthLimiter) (now : ℕ)
    → limiter.tokens ≤ limiter.capacity
    → ((refill_locked limiter now).tokens
        ≤ limiter.tokens + (now - limiter.last_refill) * limiter.rate)
      × ((refill_locked limiter now).tokens ≤ limiter.capacity)
unfolding refill_locked
refill-tokens limiter now full = ground arith

refill_same :
    (limiter : BandwidthLimiter) (now : ℕ)
    → ((refill_locked limiter now).rate ≡ limiter.rate)
      × ((refill_locked limiter now).capacity ≡ limiter.capacity)
      × ((refill_locked limiter now).last_refill ≡ now)
unfolding refill_locked
refill_same limiter now = (refl, refl, refl)

record Pays (limiter : BandwidthLimiter) (remaining now : ℕ) (reply : Pass)
    (next : BandwidthLimiter) : Type 0 where
  pub paid :
      grant_of remaining reply + next.tokens
      ≤ limiter.tokens + (next.last_refill - limiter.last_refill) * limiter.rate
  pub full : next.tokens ≤ next.capacity
  pub same_rate : next.rate ≡ limiter.rate
  pub later : limiter.last_refill ≤ next.last_refill
  pub not_ahead : next.last_refill ≤ now

grant_pass-pays :
    (limiter : BandwidthLimiter) (remaining : ℕ)
    → (grant_of remaining (grant_pass limiter remaining).0 + (grant_pass limiter remaining).1.tokens
        ≤ limiter.tokens)
      × ((grant_pass limiter remaining).1.tokens ≤ limiter.tokens)
unfolding grant_pass
grant_pass-pays limiter remaining =
    elim (Bool-cases (eqb (remaining - granted limiter remaining) 0)) [
      | inl all ↦ rw all (ground (arith, all))
      | inr part ↦ rw part (ground (arith, part))
    ]

grant_pass_same :
    (limiter : BandwidthLimiter) (remaining : ℕ)
    → ((grant_pass limiter remaining).1.rate ≡ limiter.rate)
      × ((grant_pass limiter remaining).1.capacity ≡ limiter.capacity)
      × ((grant_pass limiter remaining).1.last_refill ≡ limiter.last_refill)
unfolding grant_pass
grant_pass_same limiter remaining = (refl, refl, refl)

active_pass :
    (limiter : BandwidthLimiter) (remaining now : ℕ)
    → limiter.closed ≡ false
    → 0 < limiter.rate
    → wait_pass limiter remaining now ≡ grant_pass (refill_locked limiter now) remaining
unfolding wait_pass
active_pass limiter remaining now active limited =
    let on : eqb (refill_locked limiter now).rate 0 ≡ false =
      ground (arith, limited, (refill_same limiter now).0) in
    ground (arith, active, on)

closed_pass :
    (limiter : BandwidthLimiter) (remaining now : ℕ)
    → limiter.closed ≡ true
    → wait_pass limiter remaining now ≡ (limiter_closed, limiter)
unfolding wait_pass
closed_pass limiter remaining now closed = ground (arith, closed)

-- A pass grants what its tokens pay for, and the tokens grow by no more than the rate allows.
wait_pass-Pays :
    (limiter : BandwidthLimiter) (remaining now : ℕ)
    → 0 < limiter.rate
    → limiter.tokens ≤ limiter.capacity
    → limiter.last_refill ≤ now
    → Pays limiter remaining now
        (wait_pass limiter remaining now).0
        (wait_pass limiter remaining now).1
wait_pass-Pays limiter remaining now limited full later = elim (Bool-cases limiter.closed) [
  | inl closed ↦
      subst (λ r. Pays limiter remaining now r.0 r.1)
        (sym (closed_pass limiter remaining now closed))
        (record {
          paid = omega arith;
          full = full;
          same_rate = refl;
          later = omega arith;
          not_ahead = later;
        })
  | inr active ↦
      let refilled = refill_locked limiter now in
      let tokens = refill-tokens limiter now full in
      let same = refill_same limiter now in
      let pays = grant_pass-pays refilled remaining in
      let kept = grant_pass_same refilled remaining in
      let time : (grant_pass refilled remaining).1.last_refill ≡ now = kept.2 ∙ same.2 in
      let span : ((grant_pass refilled remaining).1.last_refill - limiter.last_refill)
            * limiter.rate
          ≡ (now - limiter.last_refill) * limiter.rate =
        ap (λ t. (t - limiter.last_refill) * limiter.rate) time in
      subst (λ r. Pays limiter remaining now r.0 r.1)
        (sym (active_pass limiter remaining now active limited))
        (record {
          paid = omega (arith, pays.0, tokens.0, span);
          full = omega (arith, pays.1, tokens.1, kept.1, same.1);
          same_rate = kept.0 ∙ same.0;
          later = omega (arith, time, later);
          not_ahead = omega (arith, time);
        })
]

-- Passes of Wait, each with what remained and its time: what they grant in all.
unfoldable pub total_granted : BandwidthLimiter → List (ℕ × ℕ) → ℕ
total_granted limiter [] = 0
total_granted limiter ((remaining, now) ∷ calls) =
    let reply = wait_pass limiter remaining now in
    grant_of remaining reply.0 + total_granted reply.1 calls

-- The times do not go back.
abbrev pub InOrder : ℕ → List (ℕ × ℕ) → Type 0
InOrder last [] = Unit
InOrder last ((remaining, now) ∷ calls) = (last ≤ now) × InOrder now calls

abbrev pub end_of : ℕ → List (ℕ × ℕ) → ℕ
end_of last [] = last
end_of last ((remaining, now) ∷ calls) = end_of now calls

end_of-after : (last : ℕ) (calls : List (ℕ × ℕ)) → InOrder last calls → last ≤ end_of last calls
end_of-after last [] order = omega arith
end_of-after last ((remaining, now) ∷ calls) order =
    omega (arith, order.0, end_of-after now calls order.1)

-- Lowering the first time keeps the order and, where there are calls, the end.
granted_until :
    (limiter : BandwidthLimiter) (start : ℕ) (calls : List (ℕ × ℕ))
    → 0 < limiter.rate
    → limiter.tokens ≤ limiter.capacity
    → limiter.last_refill ≤ start
    → InOrder start calls
    → total_granted limiter calls
      ≤ limiter.tokens + (end_of start calls - limiter.last_refill) * limiter.rate
unfolding total_granted
granted_until limiter start [] limited full later order = omega arith
granted_until limiter start ((remaining, now) ∷ calls) limited full later order =
    let reply = wait_pass limiter remaining now in
    let pays = wait_pass-Pays limiter remaining now limited full (omega (arith, later, order.0)) in
    let rest =
      granted_until reply.1 now calls (omega (arith, limited, pays.same_rate)) pays.full
        pays.not_ahead order.1 in
    let end = end_of now calls in
    let after = end_of-after now calls order.1 in
    let split =
      add-mul (reply.1.last_refill - limiter.last_refill) (end - reply.1.last_refill)
        limiter.rate in
    let whole : (reply.1.last_refill - limiter.last_refill) + (end - reply.1.last_refill)
        ≡ end - limiter.last_refill =
      omega (arith, pays.later, pays.not_ahead, after) in
    omega (
      arith,
      pays.paid,
      rest,
      split,
      ap (λ n. n * limiter.rate) whole,
      ap (λ r. (end - reply.1.last_refill) * r) pays.same_rate,
    )

-- A limiter with a rate and at most its burst of tokens, asked at times that do not go back,
-- grants in all no more than its tokens and its rate times the time since its last refill.
pub total_granted-bound :
    (limiter : BandwidthLimiter) (calls : List (ℕ × ℕ))
    → 0 < limiter.rate
    → limiter.tokens ≤ limiter.capacity
    → InOrder limiter.last_refill calls
    → total_granted limiter calls
      ≤ limiter.tokens + (end_of limiter.last_refill calls - limiter.last_refill) * limiter.rate
total_granted-bound limiter calls limited full order =
    granted_until limiter limiter.last_refill calls limited full (omega arith) order
