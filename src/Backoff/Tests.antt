-- ===== src/Backoff/Tests.antt =====
-- Runs of the backoff and of the retry decision, and its theorems at concrete durations.
use grnoti.Prelude.{ℕ, zero, suc, ◌*◌, ◌^◌, ◌≡◌, ◌≤◌, refl, true, some, arith}
use grnoti.Prelude.Int.{pos}
use grnoti.Types.{wrapped, fcm_error, unavailable, is_retryable, err_closed}
use grnoti.Backoff.{
  scaled, largest_sleep, ceiling_of, full_jitter_backoff, FullJitterRetry, as_fcm_error,
  worth_retrying, should_retry, get_delay,
}
use grnoti.Backoff.Bounds.{IsInt63n, full_jitter_backoff-le}

-- A source that always draws the largest value.
abbrev last_below : ℕ → ℕ
last_below zero = zero
last_below (suc n) = n

last_below-IsInt63n : IsInt63n last_below
last_below-IsInt63n zero p = omega arith
last_below-IsInt63n (suc n) p = omega arith

abbrev second : ℕ
second = 10 ^ 9

abbrev day : ℕ
day = 86400 * 10 ^ 9

abbrev retry : FullJitterRetry
retry = record { max_attempts = pos 3; base_delay = 10 ^ 9; max_delay = 5 * 10 ^ 9 }

third_delay : get_delay last_below retry (pos 2) ≡ 4 * 10 ^ 9
unfolding get_delay full_jitter_backoff largest_sleep scaled
third_delay = refl

unavailable_is_retried :
    should_retry retry (pos 2) (some (wrapped "send" (fcm_error unavailable "f" "t" err_closed)))
    ≡ true
unfolding should_retry worth_retrying as_fcm_error is_retryable
unavailable_is_retried = refl

full_jitter_backoff-le_example :
    (full_jitter_backoff last_below second day (pos 3) ≤ ceiling_of day)
    × (full_jitter_backoff last_below second day (pos 3) ≤ second * 2 ^ 3)
full_jitter_backoff-le_example =
    full_jitter_backoff-le last_below second day 3 last_below-IsInt63n (omega arith) (omega arith)
