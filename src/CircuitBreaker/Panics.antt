-- ===== src/CircuitBreaker/Panics.antt =====
-- A gap of Execute in circuitbreaker.go: a trial request whose function panics is never reported.
use grnoti.Prelude.{ℕ, ◌≡◌, ◌≤◌, List, [], ◌∷◌, none, some, arith, map}
use grnoti.Types.{err_too_many_requests}
use grnoti.CircuitBreaker.{
  state_open, state_half_open, Breaker, begin, panicked, before_request, execute, step, run,
  elapsed,
}

-- Half-open, with every trial taken.
record IsFull (cb : Breaker) : Type 0 where
  pub half_open : cb.state ≡ state_half_open
  pub taken : cb.config.max_half_open_requests ≤ cb.half_open_requests

begin-IsFull : (now : ℕ) (cb : Breaker) → IsFull cb → IsFull (step cb (begin now))
unfolding step
begin-IsFull now cb v = ground arith

begins-IsFull : (times : List ℕ) (cb : Breaker) → IsFull cb → IsFull (run cb (map begin times))
unfolding run
begins-IsFull [] cb v = v
begins-IsFull (now ∷ times) cb v = begins-IsFull times (step cb (begin now)) (begin-IsFull now cb v)

full_rejects :
    (now : ℕ) (cb : Breaker) → IsFull cb → (before_request now cb).0 ≡ some err_too_many_requests
unfolding before_request
full_rejects now cb v = ground arith

panic_fills :
    (cb : Breaker) (now later : ℕ)
    → cb.state ≡ state_open
    → cb.config.timeout ≤ elapsed now cb.opened_at
    → cb.config.max_half_open_requests ≡ 1
    → IsFull (execute none now panicked later cb).1
unfolding execute
panic_fills cb now later is_open over one = ground arith

-- With one trial allowed, as in a breaker made by NewCircuitBreaker, let the trial's function
-- panic. From then on the breaker is half-open and turns every request away with
-- ErrTooManyRequests, however many come and however late, since no timeout ends that state.
pub panic_wedges :
    (cb : Breaker) (now later : ℕ) (times : List ℕ) (at : ℕ)
    → cb.state ≡ state_open
    → cb.config.timeout ≤ elapsed now cb.opened_at
    → cb.config.max_half_open_requests ≡ 1
    → let cb' = run (execute none now panicked later cb).1 (map begin times) in
      (cb'.state ≡ state_half_open) × ((before_request at cb').0 ≡ some err_too_many_requests)
panic_wedges cb now later times at is_open over one =
    let v =
      begins-IsFull times (execute none now panicked later cb).1
        (panic_fills cb now later is_open over one) in
    (v.half_open, full_rejects at (run (execute none now panicked later cb).1 (map begin times)) v)
