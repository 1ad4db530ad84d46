-- ===== src/Control/Throttle.antt =====
-- The throttle of failed logins, internal/control/server.go. The key is the client's address and
-- the account's name; the time of a call is an argument.
use portflow.Prelude.{
  ℕ, ◌+◌, ◌*◌, ◌<◌, ◌≡◌, String, Bool, false, none, some, List, [], ◌∷◌, ltb, leb, if◌then◌else◌,
  on_option, arith, length, All, eq_iff, eq_refl, ap, ◌∙◌, ◌==◌,
}
use portflow.Dict.{Dict, lookup, insert, remove}
use portflow.Dict.Laws.{lookup-insert, lookup-remove}
use portflow.Store.{second}

pub record LoginAttempt : Type 0 where
  pub count : ℕ
  pub window_start : ℕ

abbrev pub login_failure_limit : ℕ
login_failure_limit = 5

abbrev pub login_failure_window : ℕ
login_failure_window = 15 * 60 * second

-- now.Sub(start) >= loginFailureWindow
abbrev pub window_over : ℕ → LoginAttempt → Bool
window_over now attempt = leb (attempt.window_start + login_failure_window) now

unfoldable pub login_rate_limited : Dict LoginAttempt → String → ℕ → Bool × Dict LoginAttempt
login_rate_limited attempts key now =
    on_option (lookup key attempts) (false, attempts)
      λ attempt.
        if window_over now attempt
        then (false, remove key attempts)
        else (leb login_failure_limit attempt.count, attempts)

abbrev pub first_failure_at : ℕ → LoginAttempt
first_failure_at now = record { count = 1; window_start = now }

unfoldable pub record_login_failure : Dict LoginAttempt → String → ℕ → Dict LoginAttempt
record_login_failure attempts key now =
    on_option (lookup key attempts) (insert key (first_failure_at now) attempts) λ attempt.
      if window_over now attempt
      then insert key (first_failure_at now) attempts
      else insert key (record attempt { count = attempt.count + 1 }) attempts

unfoldable pub clear_login_failures : Dict LoginAttempt → String → Dict LoginAttempt
clear_login_failures attempts key = remove key attempts

unfoldable pub record_failures : Dict LoginAttempt → String → List ℕ → Dict LoginAttempt
record_failures attempts key [] = attempts
record_failures attempts key (time ∷ times) =
    record_failures (record_login_failure attempts key time) key times

-- Failures inside an open window are counted.
counted_failure :
    (attempts : Dict LoginAttempt) (key : String) (time start n : ℕ)
    → lookup key attempts ≡ some (record { count = n; window_start = start })
    → time < start + login_failure_window
    → lookup key (record_login_failure attempts key time)
      ≡ some (record { count = n + 1; window_start = start })
unfolding record_login_failure
counted_failure attempts key time start n found early =
    let inside : leb (start + login_failure_window) time ≡ false = ground (arith, early) in
    rw (found, inside)
      (lookup-insert key key (record { count = n + 1; window_start = start }) attempts
        ∙ ap
            (λ b.
              if b
              then some (record { count = n + 1; window_start = start })
              else lookup key attempts)
            (eq_refl key))

counted_failures :
    (attempts : Dict LoginAttempt) (key : String) (times : List ℕ) (start n : ℕ)
    → lookup key attempts ≡ some (record { count = n; window_start = start })
    → All (λ time. time < start + login_failure_window) times
    → lookup key (record_failures attempts key times)
      ≡ some (record { count = n + length times; window_start = start })
unfolding record_failures
counted_failures attempts key [] start n found early =
    found ∙ ap (λ m. some (record { count = m; window_start = start })) (omega arith)
counted_failures attempts key (time ∷ times) start n found early =
    counted_failures (record_login_failure attempts key time) key times start (n + 1)
      (counted_failure attempts key time start n found early.0) early.1
    ∙ ap (λ m. some (record { count = m; window_start = start })) (omega arith)

-- After a first failure under a fresh key and further ones inside its 15 minutes, a login at a
-- time inside these 15 minutes is refused exactly when there were 5 failures or more, and no login
-- is refused once they are over.
pub login_rate_limited_iff :
    (attempts : Dict LoginAttempt) (key : String) (start : ℕ) (times : List ℕ) (now : ℕ)
    → lookup key attempts ≡ none
    → All (λ time. time < start + login_failure_window) times
    → (login_rate_limited (record_failures attempts key (start ∷ times)) key now).0 ≡ (
        if ltb now (start + login_failure_window)
        then leb login_failure_limit (1 + length times)
        else false)
unfolding login_rate_limited record_failures record_login_failure
login_rate_limited_iff attempts key start times now fresh early =
    let first =
      lookup-insert key key (first_failure_at start) attempts
      ∙ ap (λ b. if b then some (first_failure_at start) else lookup key attempts) (eq_refl key) in
    let found =
      counted_failures (insert key (first_failure_at start) attempts) key times start 1 first
        early in
    rw (fresh, found) (ground arith)

-- A successful login forgets the failures under its key and no others.
clear-login_rate_limited :
    (attempts : Dict LoginAttempt) (key other : String) (now : ℕ)
    → (login_rate_limited (clear_login_failures attempts key) other now).0
      ≡ (if key == other then false else (login_rate_limited attempts other now).0)
unfolding login_rate_limited clear_login_failures
clear-login_rate_limited attempts key other now =
    ground (arith, eq_iff key other, lookup-remove key other attempts)
