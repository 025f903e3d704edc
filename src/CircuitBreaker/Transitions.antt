-- ===== src/CircuitBreaker/Transitions.antt =====
-- When the breaker of circuitbreaker.go lets a request through, and how long it stays open.
use grnoti.Prelude.{
  ℕ, ◌+◌, ◌≡◌, ◌≤◌, ◌<◌, refl, ◌↔◌, List, [], ◌∷◌, none, some, arith, All, is_some, if◌then◌else◌,
}
use grnoti.Types.{err_circuit_open}
use grnoti.CircuitBreaker.Invariant.{Inv}
use grnoti.CircuitBreaker.{
  CircuitState, state_closed, state_open, state_half_open, Breaker, Op, begin, end, resets,
  before_in, before_request, step, run, elapsed,
}

-- The condition for a request to go through, per state.
abbrev pub Admits : CircuitState → ℕ → Breaker → Type 0
Admits state_closed now cb = Unit
Admits state_open now cb = cb.config.timeout ≤ elapsed now cb.opened_at
Admits state_half_open now cb = cb.half_open_requests < cb.config.max_half_open_requests

-- The steps that may happen before the deadline: requests that come before it, and results of
-- requests that were let through earlier, at any time. There is no reset.
abbrev pub Before : ℕ → Op → Type 0
Before deadline (begin now) = now < deadline
Before deadline (end error now) = Unit
Before deadline (resets now) = ⊥

record IsOpenSince (opened timeout : ℕ) (cb : Breaker) : Type 0 where
  pub is_open : cb.state ≡ state_open
  pub since : cb.opened_at ≡ opened
  pub until : cb.config.timeout ≡ timeout
  pub waits : 1 ≤ timeout

step-IsOpenSince :
    (opened timeout : ℕ) (cb : Breaker) (op : Op)
    → Before (opened + timeout) op
    → IsOpenSince opened timeout cb
    → IsOpenSince opened timeout (step cb op)
unfolding step
step-IsOpenSince opened timeout cb (begin now) early v = ground arith
step-IsOpenSince opened timeout cb (end (some e) now) early v = ground arith
step-IsOpenSince opened timeout cb (end none now) early v = ground arith
step-IsOpenSince opened timeout cb (resets now) early v = absurd early

run-IsOpenSince :
    (opened timeout : ℕ) (cb : Breaker) (ops : List Op)
    → All (Before (opened + timeout)) ops
    → IsOpenSince opened timeout cb
    → IsOpenSince opened timeout (run cb ops)
unfolding run
run-IsOpenSince opened timeout cb [] early v = v
run-IsOpenSince opened timeout cb (op ∷ ops) early v =
    run-IsOpenSince opened timeout (step cb op) ops early.1
      (step-IsOpenSince opened timeout cb op early.0 v)

open_rejects :
    (opened timeout now : ℕ) (cb : Breaker)
    → now < opened + timeout
    → IsOpenSince opened timeout cb
    → (before_request now cb).0 ≡ some err_circuit_open
unfolding before_request
open_rejects opened timeout now cb early v = ground arith

-- An open breaker turns away every request that comes before its timeout is over, with
-- ErrCircuitOpen, and is still open then, whatever requests came in between and whatever results
-- of earlier requests, good or bad, arrived, as long as nobody resets it.
pub open_until_timeout :
    (cb : Breaker) (ops : List Op) (now : ℕ)
    → Inv cb
    → cb.state ≡ state_open
    → All (Before (cb.opened_at + cb.config.timeout)) ops
    → now < cb.opened_at + cb.config.timeout
    → ((run cb ops).state ≡ state_open)
      × ((before_request now (run cb ops)).0 ≡ some err_circuit_open)
open_until_timeout cb ops now v is_open early soon =
    let w =
      run-IsOpenSince cb.opened_at cb.config.timeout cb ops early
        (record { is_open = is_open; since = refl; until = refl; waits = v.waits }) in
    (w.is_open, open_rejects cb.opened_at cb.config.timeout now (run cb ops) soon w)

admit-in :
    (st : CircuitState) (now : ℕ) (cb : Breaker)
    → 1 ≤ cb.config.max_half_open_requests
    → Admits st now cb
    → (before_in st now cb).0 ≡ none
unfolding before_in
admit-in state_closed now cb trials a = refl
admit-in state_open now cb trials a = ground arith
admit-in state_half_open now cb trials a = ground arith

in-admit :
    (st : CircuitState) (now : ℕ) (cb : Breaker) → (before_in st now cb).0 ≡ none → Admits st now cb
unfolding before_in
in-admit state_closed now cb a = tt
in-admit state_open now cb a = ground arith
in-admit state_half_open now cb a = ground arith

-- A request is let through exactly if the breaker is closed, or open and its timeout is over, or
-- half-open with a trial to spare; the breaker must allow at least one trial. A request that is
-- turned away is counted as one more rejection, and one that is let through as none.
before_request-Admits :
    (now : ℕ) (cb : Breaker)
    → 1 ≤ cb.config.max_half_open_requests
    → let (error, cb') = before_request now cb in
      ((error ≡ none) ↔ Admits cb.state now cb)
      × (cb'.total_rejections ≡ cb.total_rejections + (if is_some error then 1 else 0))
unfolding before_request
before_request-Admits now cb trials =
    ((in-admit cb.state now cb, admit-in cb.state now cb trials), ground arith)
