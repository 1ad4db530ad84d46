-- ===== src/Forward/Bandwidth/Waiting.antt =====
-- Wait of internal/forward/bandwidth.go as a loop: each pass that does not end it sleeps until its
-- timer fires, or later, and the next pass refills the bucket.
use native.Mathlib.Nat.{mul-pos}
use portflow.Prelude.{
  ℕ, zero, suc, ◌+◌, ◌-◌, ◌*◌, ◌≤◌, ◌<◌, ◌≡◌, ◌⊎◌, inl, inr, refl, subst, Bool, true, false, Option,
  none, some, eqb, arith, Bool-cases,
}
use portflow.Forward.Bandwidth.{
  BandwidthLimiter, Pass, limiter_closed, granted_all, waits, wait_pass, grant_pass, refill_locked,
  granted, wait_time,
}

-- What follows a pass: true is a return without an error.
unfoldable pub on_pass :
    Pass
    → BandwidthLimiter
    → (ℕ → ℕ → Option (Bool × BandwidthLimiter))
    → Option (Bool × BandwidthLimiter)
on_pass limiter_closed next sleep = some (false, next)
on_pass granted_all next sleep = some (true, next)
on_pass (waits time left) next sleep = sleep time left

-- `late` is by how much a timer fires late. None is a loop that goes on beyond the fuel.
unfoldable pub wait_loop : (ℕ → ℕ) → ℕ → BandwidthLimiter → ℕ → ℕ → Option (Bool × BandwidthLimiter)
unfolding wait_pass on_pass
wait_loop late zero limiter remaining now = none
wait_loop late (suc fuel) limiter remaining now =
    let reply = wait_pass limiter remaining now in
    on_pass reply.0 reply.1 λ time left. wait_loop late fuel reply.1 left (now + time + late fuel)

-- A limiter that is in use.
pub record IsRunning (limiter : BandwidthLimiter) : Type 0 where
  pub running : limiter.closed ≡ false
  pub limited : 0 < limiter.rate
  pub roomy : 0 < limiter.capacity

wait_pass_running :
    (limiter : BandwidthLimiter) (remaining now : ℕ)
    → IsRunning limiter
    → wait_pass limiter remaining now ≡ grant_pass (refill_locked limiter now) remaining
unfolding wait_pass refill_locked
wait_pass_running limiter remaining now r =
    let moving : eqb limiter.rate 0 ≡ false = ground (arith, r.limited) in
    rw (r.running, moving) refl

wait_time_pos : (limiter : BandwidthLimiter) (remaining : ℕ) → 0 < wait_time limiter remaining
wait_time_pos limiter remaining = ground arith

kept :
    (limiter : BandwidthLimiter) (now tokens : ℕ)
    → IsRunning limiter
    → IsRunning (record (refill_locked limiter now) { tokens = tokens })
unfolding refill_locked
kept limiter now tokens r = record { running = r.running; limited = r.limited; roomy = r.roomy }

same_time :
    (limiter : BandwidthLimiter) (now tokens : ℕ) → (refill_locked limiter now).last_refill ≡ now
unfolding refill_locked
same_time limiter now tokens = refl

-- A pass that goes on: what is left, for how long it sleeps at least, and the bucket after it.
record GoesOn (limiter : BandwidthLimiter) (remaining now : ℕ) (reply : Pass)
    (next : BandwidthLimiter) : Type 0 where
  time : ℕ
  left : ℕ
  is : reply ≡ waits time left
  sleeps : 0 < time
  some_left : 0 < left
  not_more : left ≤ remaining
  less : limiter.last_refill < now → left < remaining
  goes : IsRunning next
  refilled : next.last_refill ≡ now

-- A refill after a while makes tokens.
refilled_tokens :
    (limiter : BandwidthLimiter) (now : ℕ)
    → IsRunning limiter
    → limiter.last_refill < now
    → 0 < (refill_locked limiter now).tokens
unfolding refill_locked
refilled_tokens limiter now r later =
    let made : 0 < (now - limiter.last_refill) * limiter.rate = mul-pos (omega arith) r.limited in
    ground (arith, made, r.limited, r.roomy)

pass_cases :
    (limiter : BandwidthLimiter) (remaining now : ℕ)
    → IsRunning limiter
    → 0 < remaining
    → let full = refill_locked limiter now in
      ((grant_pass full remaining).0 ≡ granted_all)
      ⊎ GoesOn limiter remaining now (grant_pass full remaining).0 (grant_pass full remaining).1
unfolding grant_pass
pass_cases limiter remaining now r needs =
    let full = refill_locked limiter now in
    elim (Bool-cases (eqb (remaining - granted full remaining) 0)) [
      | inl all ↦ inl (rw all refl)
      | inr part ↦ rw part (
          inr (record {
            time =
                wait_time (record full { tokens = full.tokens - granted full remaining })
                  (remaining - granted full remaining);
            left = remaining - granted full remaining;
            is = refl;
            sleeps =
                wait_time_pos (record full { tokens = full.tokens - granted full remaining })
                  (remaining - granted full remaining);
            some_left = ground (arith, part);
            not_more = omega arith;
            less = λ later. ground (arith, part, refilled_tokens limiter now r later);
            goes = kept limiter now (full.tokens - granted full remaining) r;
            refilled = same_time limiter now (full.tokens - granted full remaining);
          }))
    ]

-- The loop returned without an error.
pub Returns : Option (Bool × BandwidthLimiter) → Type 0
Returns result = (next : BandwidthLimiter) × (result ≡ some (true, next))

-- One pass and the loop behind it.
loop_step :
    (late : ℕ → ℕ) (fuel : ℕ) (limiter : BandwidthLimiter) (remaining now : ℕ)
    → IsRunning limiter
    → 0 < remaining
    → ((time left : ℕ) (next : BandwidthLimiter)
        → 0 < time
        → 0 < left
        → left ≤ remaining
        → (limiter.last_refill < now → left < remaining)
        → IsRunning next
        → next.last_refill ≡ now
        → Returns (wait_loop late fuel next left (now + time + late fuel)))
    → Returns (wait_loop late (suc fuel) limiter remaining now)
unfolding wait_loop on_pass Returns
loop_step late fuel limiter remaining now r needs rest =
    rw (wait_loop, wait_pass_running limiter remaining now r)
      (elim (pass_cases limiter remaining now r needs) [
        | inl e ↦ rw e ((grant_pass (refill_locked limiter now) remaining).1, refl)
        | inr g ↦
            rw (g.is)
              (rest g.time g.left _ g.sleeps g.some_left g.not_more g.less g.goes g.refilled)
      ])

-- After a while, every pass grants something.
loop_ends :
    (late : ℕ → ℕ) (fuel : ℕ) (limiter : BandwidthLimiter) (remaining now : ℕ)
    → IsRunning limiter
    → 0 < remaining
    → limiter.last_refill < now
    → remaining < fuel
    → Returns (wait_loop late fuel limiter remaining now)
loop_ends late zero limiter remaining now r needs later enough = absurd (omega arith)
loop_ends late (suc fuel) limiter remaining now r needs later enough =
    loop_step late fuel limiter remaining now r needs
      λ time left next sleeps some_left not_more less goes refilled.
        loop_ends late fuel next left (now + time + late fuel) goes some_left
          (ground (arith, refilled)) (ground (arith, less later))

add_two : (n : ℕ) → suc (suc n) ≡ n + 2
add_two n = omega arith

-- On a limiter that is not closed and has a rate and a burst, a Wait for any amount returns without
-- an error, however late its timers fire: within two passes more than there are units to grant.
pub wait_loop-Returns :
    (late : ℕ → ℕ) (limiter : BandwidthLimiter) (remaining now : ℕ)
    → IsRunning limiter
    → 0 < remaining
    → limiter.last_refill ≤ now
    → Returns (wait_loop late (remaining + 2) limiter remaining now)
wait_loop-Returns late limiter remaining now r needs not_before =
    subst (λ fuel. Returns (wait_loop late fuel limiter remaining now)) (add_two remaining)
      (loop_step late (suc remaining) limiter remaining now r needs
        λ time left next sleeps some_left not_more less goes refilled.
          loop_ends late (suc remaining) next left (now + time + late (suc remaining)) goes
            some_left (ground (arith, refilled)) (omega arith))
