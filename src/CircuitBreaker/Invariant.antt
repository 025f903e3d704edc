-- ===== src/CircuitBreaker/Invariant.antt =====
-- What holds of a breaker after any interleaving of calls, and that the constructors start there.
use grnoti.Prelude.{ℕ, ◌≡◌, ◌≤◌, ◌<◌, List, [], ◌∷◌, Option, none, some, ok, arith}
use grnoti.Types.{Error}
use grnoti.CircuitBreaker.{
  CircuitState, state_closed, state_open, state_half_open, BreakerConfig, Breaker, Op, begin, end,
  resets, before_request, after_request, reset, step, run, new_circuit_breaker_with_config,
}

-- What each state promises: a closed breaker is below its limit of failures; trial requests are
-- counted in the half-open state only, where there is one at least and the limit at most.
abbrev pub StateInv : CircuitState → Breaker → Type 0
StateInv state_closed cb =
    (cb.consecutive_failures < cb.config.max_failures) × (cb.half_open_requests ≡ 0)
StateInv state_open cb = cb.half_open_requests ≡ 0
StateInv state_half_open cb =
    (1 ≤ cb.half_open_requests) × (cb.half_open_requests ≤ cb.config.max_half_open_requests)

pub record Inv (cb : Breaker) : Type 0 where
  pub trips : 1 ≤ cb.config.max_failures
  pub waits : 1 ≤ cb.config.timeout
  pub resets_later : 1 ≤ cb.config.reset_timeout
  pub trials : 1 ≤ cb.config.max_half_open_requests
  pub at_state : StateInv cb.state cb

before-Inv : (now : ℕ) (cb : Breaker) → Inv cb → Inv (before_request now cb).1
unfolding before_request
before-Inv now cb v = ground arith

after-Inv :
    (error : Option Error) (now : ℕ) (cb : Breaker) → Inv cb → Inv (after_request error now cb)
unfolding after_request
after-Inv (some e) now cb v = ground arith
after-Inv none now cb v = ground arith

-- Every step of any interleaving of requests, results and resets keeps the invariant: a closed
-- breaker has fewer failures than the limit, and the counter of trials is within its limit.
pub step-Inv : (cb : Breaker) (op : Op) → Inv cb → Inv (step cb op)
unfolding step reset
step-Inv cb (begin now) v = before-Inv now cb v
step-Inv cb (end error now) v = after-Inv error now cb v
step-Inv cb (resets now) v = ground arith

pub run-Inv : (cb : Breaker) (ops : List Op) → Inv cb → Inv (run cb ops)
unfolding run
run-Inv cb [] v = v
run-Inv cb (op ∷ ops) v = run-Inv (step cb op) ops (step-Inv cb op v)

new-Inv :
    (config : BreakerConfig) (now : ℕ) (cb : Breaker)
    → new_circuit_breaker_with_config config now ≡ ok cb
    → Inv cb
unfolding new_circuit_breaker_with_config
new-Inv config now cb made = ground arith

-- A breaker that the constructor accepted has the invariant after any interleaving of requests,
-- results and resets, at any times: while closed it has fewer consecutive failures than
-- MaxFailures; while half-open, its counter of trials is between one and MaxHalfOpenRequests; and
-- the counter is zero in the other states. The counter need not be the number of the trials that
-- are out: opening the breaker sets it to zero while a trial may still run.
pub run_new-Inv :
    (config : BreakerConfig) (now : ℕ) (cb : Breaker) (ops : List Op)
    → new_circuit_breaker_with_config config now ≡ ok cb
    → Inv (run cb ops)
run_new-Inv config now cb ops made = run-Inv cb ops (new-Inv config now cb made)
