-- ===== src/Forward/Bandwidth.antt =====
-- internal/forward/bandwidth.go: the token bucket that a rule's connections share. The source
-- computes in float64; here the numbers are exact. Tokens are counted in units of which 4 * 10^9
-- make a byte, so that a rate, in units for each nanosecond, and a quarter of a second of it are
-- whole numbers. The time of a call is an argument, and Wait is the passes of its loop.
pub mod Rate
pub mod Waiting
use portflow.Prelude.{
  ℕ, ◌+◌, ◌-◌, ◌*◌, ◌/◌, Bool, true, false, Option, none, some, List, [], ◌∷◌, ◌&&◌, ◌||◌, eqb, ltb,
  leb, if◌then◌else◌,
}

-- The units of a byte.
abbrev pub byte : ℕ
byte = 4000000000

abbrev pub minimum_bandwidth_burst : ℕ
minimum_bandwidth_burst = 4 * 1024 * byte

abbrev pub maximum_bandwidth_burst : ℕ
maximum_bandwidth_burst = 256 * 1024 * byte

pub record BandwidthLimiter : Type 0 where
  pub kbps : ℕ
  pub rate : ℕ
  pub capacity : ℕ
  pub tokens : ℕ
  pub last_refill : ℕ
  pub closed : Bool

-- kbps * 1000 / 8 bytes a second
abbrev pub rate_of : ℕ → ℕ
rate_of kbps = kbps * 500

-- A quarter of a second, between the smallest and the largest burst.
abbrev pub capacity_of : ℕ → ℕ
capacity_of kbps =
    let quarter = kbps * 125000000000 in
    let raised = if ltb quarter minimum_bandwidth_burst then minimum_bandwidth_burst else quarter in
    if ltb maximum_bandwidth_burst raised then maximum_bandwidth_burst else raised

-- updateLocked
unfoldable pub update_locked : BandwidthLimiter → ℕ → BandwidthLimiter
update_locked limiter kbps = record limiter {
  kbps = kbps;
  rate = rate_of kbps;
  capacity = capacity_of kbps;
}

abbrev pub at_most : ℕ → ℕ → ℕ
at_most bound tokens = if ltb bound tokens then bound else tokens

-- refillLocked; a time that is not after the last refill adds nothing.
unfoldable pub refill_locked : BandwidthLimiter → ℕ → BandwidthLimiter
refill_locked limiter now = record limiter {
  tokens =
      if ltb 0 limiter.rate && ltb limiter.last_refill now
      then at_most limiter.capacity (limiter.tokens + (now - limiter.last_refill) * limiter.rate)
      else limiter.tokens;
  last_refill = now;
}

unfoldable pub new_bandwidth_limiter : ℕ → ℕ → BandwidthLimiter
new_bandwidth_limiter kbps now = record {
  kbps = kbps;
  rate = rate_of kbps;
  capacity = capacity_of kbps;
  tokens = capacity_of kbps;
  last_refill = now;
  closed = false;
}

unfoldable pub update : BandwidthLimiter → ℕ → ℕ → BandwidthLimiter
unfolding update_locked refill_locked
update limiter kbps now =
    if limiter.closed || eqb limiter.kbps kbps
    then limiter
    else let changed = update_locked (refill_locked limiter now) kbps in
      record changed { tokens = at_most changed.capacity changed.tokens }

unfoldable pub close : BandwidthLimiter → BandwidthLimiter
close limiter = record limiter { closed = true }

-- What a pass of Wait's loop ends in: an error, all granted, or a wait for the rest.
pub data Pass : Type 0 where
  limiter_closed : Pass
  granted_all : Pass
  waits : ℕ → ℕ → Pass

-- How much of the remaining units the tokens grant.
abbrev pub granted : BandwidthLimiter → ℕ → ℕ
granted limiter remaining = at_most remaining limiter.tokens

-- A millisecond at least, in nanoseconds
abbrev pub wait_time : BandwidthLimiter → ℕ → ℕ
wait_time limiter remaining =
    let wait = at_most limiter.capacity remaining / limiter.rate in
    if ltb wait 1000000 then 1000000 else wait

-- A pass behind the refill, where the rate is not 0.
unfoldable pub grant_pass : BandwidthLimiter → ℕ → Pass × BandwidthLimiter
grant_pass limiter remaining =
    let left = remaining - granted limiter remaining in
    let taken = record limiter { tokens = limiter.tokens - granted limiter remaining } in
    (if eqb left 0 then granted_all else waits (wait_time taken left) left, taken)

-- The locked part of a pass; `remaining` is above 0.
unfoldable pub wait_pass : BandwidthLimiter → ℕ → ℕ → Pass × BandwidthLimiter
unfolding refill_locked grant_pass
wait_pass limiter remaining now =
    if limiter.closed
    then (limiter_closed, limiter)
    else if eqb (refill_locked limiter now).rate 0
    then (granted_all, refill_locked limiter now)
    else grant_pass (refill_locked limiter now) remaining

-- maxChunkSize, in bytes
unfoldable pub max_chunk_size : BandwidthLimiter → ℕ → ℕ
max_chunk_size limiter byte_count =
    if eqb limiter.rate 0 || leb (byte_count * byte) limiter.capacity
    then byte_count
    else limiter.capacity / byte
