-- ===== src/RateLimiter/Tests.antt =====
-- Runs of the rate limiters, and the budget theorem at a concrete sequence of calls.
use grnoti.Prelude.{
  ℕ, ◌+◌, ◌-◌, ◌*◌, ◌%◌, ◌≡◌, ◌≤◌, refl, true, false, none, some, err, List, [], ◌∷◌, arith,
}
use grnoti.Types.{err_closed, message}
use grnoti.RateLimiter.{no_counts, limit_error}
use grnoti.RateLimiter.Redis.{
  million, token_bucket_script, RedisRateLimiter, Moment, redis_allow, redis_wait, poll,
  redis_close,
}
use grnoti.RateLimiter.Budget.{grants, last_of, grants_bounded}

-- What 14 digits leave of a time in microseconds: multiples of a hundred.
abbrev to_hundreds : ℕ → ℕ
to_hundreds t = t - t % 100

abbrev limiter : RedisRateLimiter
limiter = record {
  owns_client = true;
  key = "grnoti:ratelimit:default";
  requests_per_sec = 1;
  burst_size = 2;
  closed = false;
  counters = no_counts;
}

abbrev calls : List ℕ
calls = 1000050 ∷ 1000090 ∷ 2000000 ∷ 2000010 ∷ []

-- Two tokens of the burst, and one for the second that passes.
three_pass : grants to_hundreds 2 1 (1000000 ∷ calls) none ≡ 3
unfolding token_bucket_script
three_pass = refl

rate_must_be_positive : limit_error 0 5 ≡ some (message "grnoti: requestsPerSecond must be > 0")
unfolding limit_error
rate_must_be_positive = refl

abbrev at_time : ℕ → Moment
at_time t = record { cancelled = none; script_fails = false; now = t }

-- A wait that finds no token polls until one is there.
wait_ends :
    (redis_wait to_hundreds limiter
      (some (record { tokens = 0; updated_at = 0; expires_at = 600 * million }))
      ((at_time 900000, none) ∷ (at_time 1000000, none) ∷ [])).0
    ≡ some none
unfolding redis_wait poll redis_allow token_bucket_script
wait_ends = refl

closed_refuses :
    (redis_allow to_hundreds (redis_close limiter none).1 none (at_time 5)).0 ≡ err err_closed
unfolding redis_allow redis_close
closed_refuses = refl

grants_bounded_example :
    grants to_hundreds 2 1 (1000000 ∷ calls) none * million + 1000000 * 1
    ≤ 2 * million + (last_of 1000000 calls + 5 * (100 + 100)) * 1
grants_bounded_example =
    grants_bounded to_hundreds 100 2 1 (λ t. omega arith) (λ t. omega arith) 1000000 calls
      (
        omega arith,
        omega arith,
        (omega arith, omega arith, (omega arith, omega arith, (omega arith, omega arith, tt))),
      )
