-- ===== src/CircuitBreaker/Trips.antt =====
-- How many failures in a row open a breaker of circuitbreaker.go.
use grnoti.Prelude.{
  ℕ, suc, ◌+◌, ◌≡◌, ◌∙◌, ◌≤◌, ◌<◌, refl, ◌⊎◌, List, [], ◌∷◌, none, some, arith, leb, length,
  if◌then◌else◌,
}
use native.Mathlib.Decide.{ℕ_discrete}
use grnoti.Types.{Error}
use grnoti.CircuitBreaker.{state_closed, state_open, Breaker, returned, execute, elapsed}

-- Calls one after the other, each of which fails with `error`: when it starts and when it ends.
unfoldable pub fail_all : Error → List (ℕ × ℕ) → Breaker → Breaker
fail_all error [] cb = cb
fail_all error ((now, later) ∷ calls) cb =
    fail_all error calls (execute none now (returned (some error)) later cb).1

-- While `k` failures count, no call starts more than the reset timeout after the last of them.
abbrev pub Close : ℕ → ℕ → ℕ → List (ℕ × ℕ) → Type 0
Close k reset_timeout last [] = Unit
Close k reset_timeout last ((now, later) ∷ calls) =
    ((k ≡ 0) ⊎ (elapsed now last ≤ reset_timeout)) × Close (suc k) reset_timeout later calls

record IsClosedWith (k reset_timeout max last : ℕ) (cb : Breaker) : Type 0 where
  pub is_closed : cb.state ≡ state_closed
  pub failures : cb.consecutive_failures ≡ k
  pub resets : cb.config.reset_timeout ≡ reset_timeout
  pub limit : cb.config.max_failures ≡ max
  pub last_failure : cb.last_failure_time ≡ last

one_failure :
    (k reset_timeout max last now later : ℕ) (cb : Breaker) (error : Error)
    → suc k < max
    → (k ≡ 0) ⊎ (elapsed now last ≤ reset_timeout)
    → IsClosedWith k reset_timeout max last cb
    → IsClosedWith
        (suc k)
        reset_timeout
        max
        later
        (execute none now (returned (some error)) later cb).1
unfolding execute
one_failure k reset_timeout max last now later cb error below near v = ground arith

last_failure_trips :
    (k reset_timeout max last now later : ℕ) (cb : Breaker) (error : Error)
    → suc k ≡ max
    → (k ≡ 0) ⊎ (elapsed now last ≤ reset_timeout)
    → IsClosedWith k reset_timeout max last cb
    → let cb' = (execute none now (returned (some error)) later cb).1 in
      (cb'.state ≡ state_open) × (cb'.opened_at ≡ later)
unfolding execute
last_failure_trips k reset_timeout max last now later cb error full near v = ground arith

fail_all_state :
    (k reset_timeout max last : ℕ) (cb : Breaker) (error : Error) (calls : List (ℕ × ℕ))
    → k < max
    → k + length calls ≤ max
    → Close k reset_timeout last calls
    → IsClosedWith k reset_timeout max last cb
    → (fail_all error calls cb).state
      ≡ (if leb max (k + length calls) then state_open else state_closed)
unfolding fail_all
fail_all_state k reset_timeout max last cb error [] below fits near v = ground arith
fail_all_state k reset_timeout max last cb error ((now, later) ∷ calls) below fits near v =
    elim (ℕ_discrete (suc k) max) [
      | yes full ↦
          no_more calls full (omega arith)
            (last_failure_trips k reset_timeout max last now later cb error full near.0 v).0
      | no room ↦
          fail_all_state (suc k) reset_timeout max later
            (execute none now (returned (some error)) later cb).1 error calls (omega arith)
            (omega arith) near.1
            (one_failure k reset_timeout max last now later cb error (omega arith) near.0 v)
          ∙ ground arith
    ]
  where
    no_more :
        (rest : List (ℕ × ℕ))
        → suc k ≡ max
        → length rest ≡ 0
        → (execute none now (returned (some error)) later cb).1.state ≡ state_open
        → (fail_all error rest (execute none now (returned (some error)) later cb).1).state
          ≡ (if leb max (k + suc (length rest)) then state_open else state_closed)
    no_more [] full h tripped = ground arith
    no_more (call ∷ rest) full h tripped = absurd (omega arith)

-- Calls that fail one after the other, none starting more than the reset timeout after a failure
-- that counts, open a closed breaker exactly when they and the failures counted before them reach
-- MaxFailures: with fewer it is still closed.
pub trips_exactly :
    (cb : Breaker) (error : Error) (calls : List (ℕ × ℕ))
    → cb.state ≡ state_closed
    → cb.consecutive_failures < cb.config.max_failures
    → cb.consecutive_failures + length calls ≤ cb.config.max_failures
    → Close cb.consecutive_failures cb.config.reset_timeout cb.last_failure_time calls
    → (fail_all error calls cb).state ≡ (
        if leb cb.config.max_failures (cb.consecutive_failures + length calls)
        then state_open
        else state_closed)
trips_exactly cb error calls is_closed below fits near =
    fail_all_state cb.consecutive_failures cb.config.reset_timeout cb.config.max_failures
      cb.last_failure_time cb error calls below fits near
      (record {
        is_closed = is_closed;
        failures = refl;
        resets = refl;
        limit = refl;
        last_failure = refl;
      })
