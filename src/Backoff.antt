-- ===== src/Backoff.antt =====
-- retrystrategy.go: the jittered backoff and the retry decision. A Duration at most 0 is 0 here;
-- an attempt number may be negative. `int63n` is rand.Int63n.
pub mod Bounds
pub mod Tests
use grnoti.Prelude.{
  ℕ, ◌+◌, ◌*◌, ◌%◌, ◌^◌, Bool, true, false, ◌&&◌, ◌||◌, Option, none, some, ltb, leb, if◌then◌else◌,
}
use grnoti.Prelude.Int.{ℤ, pos, negsuc, ltb_ℤ}
use grnoti.Types.{Error, fcm_error, wrapped, joined, FcmErrorCode, is_retryable}

abbrev pub default_max_backoff : ℕ
default_max_backoff = 30 * 10 ^ 9

-- base * (1 << attempt) on int64, as the bit pattern of the product.
unfoldable pub scaled : ℕ → ℕ → ℕ
scaled base attempt = (base * 2 ^ attempt) % 2 ^ 64

-- scaled > 0 && scaled < ceiling: a bit pattern from 2^63 on is negative.
abbrev pub replaces : ℕ → ℕ → Bool
replaces value ceiling = ltb 0 value && ltb value (2 ^ 63) && ltb value ceiling

-- `exp`, the largest sleep that may be drawn.
unfoldable pub largest_sleep : ℕ → ℕ → ℤ → ℕ
unfolding scaled
largest_sleep base ceiling (pos attempt) =
    if ltb attempt 62 && replaces (scaled base attempt) ceiling
    then scaled base attempt
    else ceiling
largest_sleep base ceiling (negsuc attempt) = ceiling

abbrev pub ceiling_of : ℕ → ℕ
ceiling_of max = if leb max 0 then default_max_backoff else max

unfoldable pub full_jitter_backoff : (ℕ → ℕ) → ℕ → ℕ → ℤ → ℕ
full_jitter_backoff int63n base max attempt =
    if leb base 0 then 0 else int63n (largest_sleep base (ceiling_of max) attempt + 1)

pub record FullJitterRetry : Type 0 where
  pub max_attempts : ℤ
  pub base_delay : ℕ
  pub max_delay : ℕ

abbrev pub first_of : Option FcmErrorCode → Option FcmErrorCode → Option FcmErrorCode
first_of none other = other
first_of (some code) other = some code

-- errors.As(err, &fcmErr): the code of the first FCMError in the chain of wrapped errors.
unfoldable pub as_fcm_error : Error → Option FcmErrorCode
as_fcm_error (fcm_error code fid text e) = some code
as_fcm_error (wrapped text e) = as_fcm_error e
as_fcm_error (joined e f) = first_of (as_fcm_error e) (as_fcm_error f)
as_fcm_error _ = none

unfoldable pub worth_retrying : Error → Bool
unfolding as_fcm_error is_retryable
worth_retrying e = elim (as_fcm_error e) [ some code ↦ is_retryable code | none ↦ true ]

unfoldable pub should_retry : FullJitterRetry → ℤ → Option Error → Bool
unfolding worth_retrying
should_retry r attempt none = false
should_retry r attempt (some e) = if ltb_ℤ attempt r.max_attempts then worth_retrying e else false

unfoldable pub get_delay : (ℕ → ℕ) → FullJitterRetry → ℤ → ℕ
unfolding full_jitter_backoff
get_delay int63n r attempt =
    full_jitter_backoff int63n r.base_delay r.max_delay
      (elim attempt [ pos n ↦ pos n | negsuc n ↦ pos 0 ])

-- noopRetryStrategy
unfoldable pub noop_should_retry : ℤ → Option Error → Bool
noop_should_retry attempt error = false

unfoldable pub noop_get_delay : ℤ → ℕ
noop_get_delay attempt = 0
