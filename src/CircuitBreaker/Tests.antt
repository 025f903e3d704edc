-- ===== src/CircuitBreaker/Tests.antt =====
-- Runs of the circuit breaker, and its theorems at concrete breakers.
use grnoti.Prelude.{◌≡◌, refl, inl, inr, List, [], ◌∷◌, none, some, arith, map}
use grnoti.Types.{Error, err_circuit_open, err_too_many_requests, message}
use grnoti.CircuitBreaker.{
  state_closed, state_open, state_half_open, BreakerConfig, Breaker, Op, begin, end, panicked,
  elapsed, before_request, after_request, execute, step, run, new_circuit_breaker_with_config,
}
use grnoti.CircuitBreaker.Invariant.{Inv, run_new-Inv}
use grnoti.CircuitBreaker.Transitions.{open_until_timeout}
use grnoti.CircuitBreaker.Trips.{fail_all, trips_exactly}
use grnoti.CircuitBreaker.Panics.{panic_wedges}

abbrev config : BreakerConfig
config = record { max_failures = 2; timeout = 10; reset_timeout = 100; max_half_open_requests = 1 }

-- A new breaker at time 1000.
abbrev new_one : Breaker
new_one = record {
  config = config;
  state = state_closed;
  consecutive_failures = 0;
  half_open_requests = 0;
  last_failure_time = 0;
  last_state_change = 1000;
  opened_at = 0;
  total_successes = 0;
  total_failures = 0;
  total_rejections = 0;
}

-- The same breaker, opened by a second failure at time 1005.
abbrev tripped : Breaker
tripped = record new_one {
  state = state_open;
  consecutive_failures = 2;
  last_failure_time = 1005;
  last_state_change = 1005;
  opened_at = 1005;
  total_failures = 2;
}

abbrev timed_out : Error
timed_out = message "timeout"

fail_twice : fail_all timed_out ((1001, 1002) ∷ (1003, 1005) ∷ []) new_one ≡ tripped
unfolding fail_all execute before_request after_request
fail_twice = refl

abbrev mixed : List Op
mixed =
    begin 1001
    ∷ end (some timed_out) 1002
    ∷ begin 1003
    ∷ end (some timed_out) 1005
    ∷ begin 1020
    ∷ begin 1021
    ∷ []

mixed_rejects : (run new_one mixed).total_rejections ≡ 1
unfolding run step
mixed_rejects = refl

run_new-Inv_example : Inv (run new_one mixed)
unfolding new_circuit_breaker_with_config
run_new-Inv_example = run_new-Inv config 1000 new_one mixed refl

tripped-Inv : Inv tripped
tripped-Inv = omega arith

open_until_timeout_example :
    ((run tripped (begin 1010 ∷ end none 1011 ∷ [])).state ≡ state_open)
    × ((before_request 1014 (run tripped (begin 1010 ∷ end none 1011 ∷ []))).0
        ≡ some err_circuit_open)
open_until_timeout_example =
    open_until_timeout tripped (begin 1010 ∷ end none 1011 ∷ []) 1014 tripped-Inv refl (omega arith)
      (omega arith)

trips_exactly_example :
    (fail_all timed_out ((1001, 1002) ∷ (1003, 1005) ∷ []) new_one).state ≡ state_open
unfolding elapsed
trips_exactly_example =
    trips_exactly new_one timed_out ((1001, 1002) ∷ (1003, 1005) ∷ []) refl (omega arith)
      (omega arith) (inl refl, (inr (omega arith), tt))

panic_wedges_example :
    let cb' = run (execute none 1015 panicked 1016 tripped).1 (map begin (1100 ∷ 9000 ∷ [])) in
    (cb'.state ≡ state_half_open) × ((before_request 99999 cb').0 ≡ some err_too_many_requests)
unfolding elapsed
panic_wedges_example =
    panic_wedges tripped 1015 1016 (1100 ∷ 9000 ∷ []) 99999 refl (omega arith) refl
