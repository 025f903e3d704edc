-- ===== src/CircuitBreaker.antt =====
-- circuitbreaker.go: standardCircuitBreaker. Each method runs under the breaker's lock, so it is
-- one function on the state; `now` is the clock's reading there. Times are counted from Go's zero
-- time. The counters are int and int64 in the source and are not bounded here. A configuration
-- value at most 0 is 0.
pub mod Invariant
pub mod Trips
pub mod Transitions
pub mod Panics
pub mod Tests
use Prim.Native.Nat.{min}
use grnoti.Prelude.{
  ℕ, ◌+◌, ◌-◌, ◌^◌, List, [], ◌∷◌, Option, none, some, Result, ok, err, ltb, leb, if◌then◌else◌,
}
use grnoti.Types.{Error, err_circuit_open, err_too_many_requests, message}

pub data CircuitState : Type 0 where
  state_closed state_open state_half_open : CircuitState

pub record BreakerConfig : Type 0 where
  pub max_failures : ℕ
  pub timeout : ℕ
  pub reset_timeout : ℕ
  pub max_half_open_requests : ℕ

pub record Breaker : Type 0 where
  pub config : BreakerConfig
  pub state : CircuitState
  pub consecutive_failures : ℕ
  pub half_open_requests : ℕ
  pub last_failure_time : ℕ
  pub last_state_change : ℕ
  pub opened_at : ℕ
  pub total_successes : ℕ
  pub total_failures : ℕ
  pub total_rejections : ℕ

-- now.Sub(then), which saturates at the largest Duration. A clock that stood back would give a
-- negative value, which the positive thresholds tell from no elapsed time no more than 0.
unfoldable pub elapsed : ℕ → ℕ → ℕ
elapsed now since = min (now - since) (2 ^ 63 - 1)

abbrev fresh_breaker : BreakerConfig → ℕ → Breaker
fresh_breaker config now = record {
  config = config;
  state = state_closed;
  consecutive_failures = 0;
  half_open_requests = 0;
  last_failure_time = 0;
  last_state_change = now;
  opened_at = 0;
  total_successes = 0;
  total_failures = 0;
  total_rejections = 0;
}

unfoldable pub new_circuit_breaker_with_config : BreakerConfig → ℕ → Result Error Breaker
new_circuit_breaker_with_config config now =
    if leb config.max_failures 0
    then err (message "grnoti: CircuitBreakerConfig.MaxFailures must be > 0")
    else if leb config.timeout 0
    then err (message "grnoti: CircuitBreakerConfig.Timeout must be > 0")
    else if leb config.reset_timeout 0
    then err (message "grnoti: CircuitBreakerConfig.ResetTimeout must be > 0")
    else if leb config.max_half_open_requests 0
    then ok (fresh_breaker (record config { max_half_open_requests = 1 }) now)
    else ok (fresh_breaker config now)

unfoldable pub new_circuit_breaker : ℕ → ℕ → ℕ → ℕ → Result Error Breaker
unfolding new_circuit_breaker_with_config
new_circuit_breaker max_failures timeout reset_timeout now =
    new_circuit_breaker_with_config
      (record {
        max_failures = max_failures;
        timeout = timeout;
        reset_timeout = reset_timeout;
        max_half_open_requests = 1;
      })
      now

-- The half-open case of beforeRequest, which the open case falls through to.
unfoldable pub admit_trial : Breaker → Option Error × Breaker
admit_trial cb =
    if leb cb.config.max_half_open_requests cb.half_open_requests
    then (some err_too_many_requests, record cb { total_rejections = cb.total_rejections + 1 })
    else (none, record cb { half_open_requests = cb.half_open_requests + 1 })

unfoldable pub before_in : CircuitState → ℕ → Breaker → Option Error × Breaker
unfolding admit_trial elapsed
before_in state_closed now cb = (
  none,
  if ltb cb.config.reset_timeout (elapsed now cb.last_failure_time)
      then record cb { consecutive_failures = 0 }
      else cb,
)
before_in state_open now cb =
    if leb cb.config.timeout (elapsed now cb.opened_at)
    then admit_trial
        (record cb { state = state_half_open; half_open_requests = 0; last_state_change = now })
    else (some err_circuit_open, record cb { total_rejections = cb.total_rejections + 1 })
before_in state_half_open now cb = admit_trial cb

unfoldable pub before_request : ℕ → Breaker → Option Error × Breaker
unfolding before_in
before_request now cb = before_in cb.state now cb

unfoldable pub open_circuit : ℕ → Breaker → Breaker
open_circuit now cb = record cb {
  state = state_open;
  opened_at = now;
  last_state_change = now;
  half_open_requests = 0;
}

unfoldable pub close_circuit : ℕ → Breaker → Breaker
close_circuit now cb = record cb {
  state = state_closed;
  consecutive_failures = 0;
  half_open_requests = 0;
  last_state_change = now;
}

unfoldable pub failed_in : CircuitState → ℕ → Breaker → Breaker
unfolding open_circuit
failed_in state_half_open now cb = open_circuit now cb
failed_in state_closed now cb =
    if leb cb.config.max_failures cb.consecutive_failures then open_circuit now cb else cb
failed_in state_open now cb = cb

unfoldable pub succeeded_in : CircuitState → ℕ → Breaker → Breaker
unfolding close_circuit
succeeded_in state_half_open now cb = close_circuit now cb
succeeded_in state_closed now cb = record cb { consecutive_failures = 0 }
succeeded_in state_open now cb = cb

unfoldable pub after_request : Option Error → ℕ → Breaker → Breaker
unfolding failed_in succeeded_in
after_request (some e) now cb = failed_in cb.state now (record cb {
  total_failures = cb.total_failures + 1;
  consecutive_failures = cb.consecutive_failures + 1;
  last_failure_time = now;
})
after_request none now cb =
    succeeded_in cb.state now (record cb { total_successes = cb.total_successes + 1 })

unfoldable pub reset : ℕ → Breaker → Breaker
reset now cb = record cb {
  state = state_closed;
  consecutive_failures = 0;
  half_open_requests = 0;
  last_state_change = now;
}

-- How the function that Execute runs ends.
pub data FnOutcome : Type 0 where
  returned : Option Error → FnOutcome
  panicked : FnOutcome

-- `none` for the error where a panic unwinds through Execute: no deferred call reports it.
unfoldable pub finish : FnOutcome → ℕ → Breaker → Option (Option Error) × Breaker
unfolding after_request
finish (returned error) now cb = (some error, after_request error now cb)
finish panicked now cb = (none, cb)

abbrev then_run : Option Error × Breaker → FnOutcome → ℕ → Option (Option Error) × Breaker
then_run (some e, cb) outcome later = (some (some e), cb)
then_run (none, cb) outcome later = finish outcome later cb

-- Execute with no other caller in between. `ctx_error` is ctx.Err().
unfoldable pub execute :
    Option Error → ℕ → FnOutcome → ℕ → Breaker → Option (Option Error) × Breaker
unfolding before_request finish
execute (some e) now outcome later cb = (some (some e), cb)
execute none now outcome later cb = then_run (before_request now cb) outcome later

-- Calls by any number of goroutines: each of the steps runs under the lock, in some order.
pub data Op : Type 0 where
  begin : ℕ → Op
  end : Option Error → ℕ → Op
  resets : ℕ → Op

unfoldable pub step : Breaker → Op → Breaker
unfolding before_request after_request reset
step cb (begin now) = (before_request now cb).1
step cb (end error now) = after_request error now cb
step cb (resets now) = reset now cb

unfoldable pub run : Breaker → List Op → Breaker
run cb [] = cb
run cb (op ∷ ops) = run (step cb op) ops

pub record BreakerStats : Type 0 where
  pub state : CircuitState
  pub consecutive_failures : ℕ
  pub total_successes : ℕ
  pub total_failures : ℕ
  pub total_rejections : ℕ
  pub last_failure_time : ℕ
  pub last_state_change : ℕ
  pub opened_at : ℕ
  pub time_until_next_attempt : ℕ

unfoldable pub until_next_attempt : CircuitState → ℕ → Breaker → ℕ
unfolding elapsed
until_next_attempt state_open now cb =
    let since = elapsed now cb.opened_at in
    if ltb since cb.config.timeout then cb.config.timeout - since else 0
until_next_attempt _ now cb = 0

unfoldable pub get_stats : ℕ → Breaker → BreakerStats
unfolding until_next_attempt
get_stats now cb = record {
  state = cb.state;
  consecutive_failures = cb.consecutive_failures;
  total_successes = cb.total_successes;
  total_failures = cb.total_failures;
  total_rejections = cb.total_rejections;
  last_failure_time = cb.last_failure_time;
  last_state_change = cb.last_state_change;
  opened_at = cb.opened_at;
  time_until_next_attempt = until_next_attempt cb.state now cb;
}
