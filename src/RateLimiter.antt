-- ===== src/RateLimiter.antt =====
-- ratelimiter.go: localRateLimiter around rate.Limiter of golang.org/x/time, which is a parameter
-- with a state. A rate or a burst is an int: one that is at most 0 is 0 here. The error of a
-- context is an argument of the call.
pub mod Redis
pub mod Budget
pub mod Tests
use grnoti.Prelude.{
  ℕ, zero, suc, Bool, true, false, Option, none, some, Result, ok, err, leb, ltb, if◌then◌else◌,
}
use grnoti.Types.{Error, message, wrapped}

-- rate.Limiter: Allow at a time, Wait (an error and the time of its return), SetLimit and SetBurst.
pub record TokenLimiter (L : Type 0) : Type 0 where
  pub new_limiter : ℕ → ℕ → L
  pub allow : L → ℕ → Bool × L
  pub wait : L → ℕ → Option Error × ℕ × L
  pub set_limit : L → ℕ → L
  pub set_burst : L → ℕ → L

pub record RateLimiterStats : Type 0 where
  pub requests_per_second : ℕ
  pub burst_size : ℕ
  pub allowed_count : ℕ
  pub blocked_count : ℕ
  pub wait_count : ℕ
  pub last_allowed_at : Option ℕ

-- The counters that both limiters keep.
pub record Counters : Type 0 where
  pub allowed_count : ℕ
  pub blocked_count : ℕ
  pub wait_count : ℕ
  pub last_allowed_at : Option ℕ

abbrev pub no_counts : Counters
no_counts = record { allowed_count = 0; blocked_count = 0; wait_count = 0; last_allowed_at = none }

abbrev pub counted_allow : Counters → Bool → ℕ → Counters
counted_allow c true now = record c {
  allowed_count = suc c.allowed_count;
  last_allowed_at = some now;
}
counted_allow c false now = record c { blocked_count = suc c.blocked_count }

abbrev pub counted_wait : Counters → Counters
counted_wait c = record c { wait_count = suc c.wait_count }

abbrev pub stats_of : ℕ → ℕ → Counters → RateLimiterStats
stats_of requests_per_second burst_size c = record {
  requests_per_second = requests_per_second;
  burst_size = burst_size;
  allowed_count = c.allowed_count;
  blocked_count = c.blocked_count;
  wait_count = c.wait_count;
  last_allowed_at = c.last_allowed_at;
}

-- The checks of a new limit.
unfoldable pub limit_error : ℕ → ℕ → Option Error
limit_error requests_per_second burst_size =
    if leb requests_per_second 0
    then some (message "grnoti: requestsPerSecond must be > 0")
    else if ltb burst_size requests_per_second
    then some (message "grnoti: burstSize must be >= requestsPerSecond")
    else none

-- localRateLimiter
pub record LocalRateLimiter (L : Type 0) : Type 0 where
  pub limiter : L
  pub requests_per_sec : ℕ
  pub burst_size : ℕ
  pub counters : Counters

module _ {L : Type 0} (lib : TokenLimiter L) where
  unfoldable pub new_local_rate_limiter : ℕ → ℕ → Result Error (LocalRateLimiter L)
  new_local_rate_limiter rate burst = elim (limit_error rate burst) [
    | some e ↦ err e
    | none ↦ ok (record {
      limiter = lib.new_limiter rate burst;
      requests_per_sec = rate;
      burst_size = burst;
      counters = no_counts;
    })
  ]

  abbrev pub allow_now : LocalRateLimiter L → ℕ → Result Error Bool × LocalRateLimiter L
  allow_now r now =
      let a = lib.allow r.limiter now in
      (ok a.0, record r { limiter = a.1; counters = counted_allow r.counters a.0 now })

  unfoldable pub allow :
      LocalRateLimiter L → Option Error → ℕ → Result Error Bool × LocalRateLimiter L
  allow r (some e) now = (err e, r)
  allow r none now = allow_now r now

  abbrev pub after_wait :
      LocalRateLimiter L → Option Error × ℕ × L → Option Error × LocalRateLimiter L
  after_wait r (some e, now, limiter) =
      (some (wrapped "grnoti: rate limiter wait failed" e), record r { limiter = limiter })
  after_wait r (none, now, limiter) =
      (none, record r { limiter = limiter; counters = counted_allow r.counters true now })

  unfoldable pub wait : LocalRateLimiter L → ℕ → Option Error × LocalRateLimiter L
  wait r now = after_wait (record r { counters = counted_wait r.counters }) (lib.wait r.limiter now)

  unfoldable pub get_stats : LocalRateLimiter L → RateLimiterStats
  get_stats r = stats_of r.requests_per_sec r.burst_size r.counters

  unfoldable pub update_limit : LocalRateLimiter L → ℕ → ℕ → Option Error × LocalRateLimiter L
  update_limit r rate burst = elim (limit_error rate burst) [
    | some e ↦ (some e, r)
    | none ↦ (
      none,
      record r {
        limiter = lib.set_burst (lib.set_limit r.limiter rate) burst;
        requests_per_sec = rate;
        burst_size = burst;
      },
    )
  ]
