-- ===== src/Agent/Runtime/Delays.antt =====
-- The delays between synchronisations.
use portflow.Prelude.{ℕ, zero, suc, ◌*◌, ◌≤◌, ◌≡◌, refl, eqb, ltb, if◌then◌else◌, arith}
use portflow.Store.{second}
use portflow.Agent.Runtime.{HeartbeatResponse, heartbeat_interval, double_delay, retry_delay}

double_delay-capped :
    (attempts delay : ℕ) → 120 * second ≤ delay → double_delay attempts delay ≡ delay
unfolding double_delay
double_delay-capped zero delay h = refl
double_delay-capped (suc n) delay h = ground (arith, double_delay-capped n (delay * 2))

double_delay-three : (n : ℕ) → double_delay (suc (suc (suc n))) (15 * second) ≡ 120 * second
unfolding double_delay
double_delay-three n = double_delay-capped n (120 * second) (omega arith)

-- The delay before a retry is 15 seconds after the first failure, 30 after the second, a minute
-- after the third and two minutes after every later one.
retry_delay_lem :
    (failures : ℕ)
    → retry_delay failures ≡ (
        if ltb failures 2
        then 15 * second
        else if eqb failures 2
        then 30 * second
        else if eqb failures 3
        then 60 * second
        else 120 * second)
unfolding retry_delay double_delay
retry_delay_lem zero = refl
retry_delay_lem (suc zero) = refl
retry_delay_lem (suc (suc zero)) = refl
retry_delay_lem (suc (suc (suc zero))) = refl
retry_delay_lem (suc (suc (suc (suc n)))) =
    let capped = double_delay-three n in ground (arith, capped)

-- The interval until the next heartbeat is between 5 seconds and 5 minutes, whatever the control
-- plane asks for.
heartbeat_interval-bounds :
    (reply : HeartbeatResponse)
    → (5 * second ≤ heartbeat_interval reply) × (heartbeat_interval reply ≤ 300 * second)
unfolding heartbeat_interval
heartbeat_interval-bounds reply = ground arith
