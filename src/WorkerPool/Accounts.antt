-- ===== src/WorkerPool/Accounts.antt =====
-- Where the events of a pool of workerpool.go are: nothing is lost and nothing is handled twice.
use grnoti.Prelude.{
  ℕ, zero, suc, ◌+◌, ◌≡◌, refl, ◌&&◌, Option, none, some, List, [], ◌∷◌, ◌++◌, arith, ltb, if_both,
  length, AllSome, all,
}
use grnoti.Types.{Event}
use grnoti.WorkerPool.Runs.{run_keeps}
use grnoti.WorkerPool.{
  is_stopping, is_exited, Worker, idle, exited, handling, Phase, running, stopping, stopped, Pool,
  PoolConfig, or_default, idle_workers, new_worker_pool, is_open, submit, close, finish_stop, Turn,
  act, and_others, put_before, work_at, turned, work, Move, submits, works, closes, finishes,
  after_submit, step, run,
}

module _ (f : Event → ℕ) where
  -- The sum of a measure of events. For the test of an event, it counts how often the event occurs.
  abbrev pub total : List Event → ℕ
  total [] = 0
  total (event ∷ events) = f event + total events

  abbrev held : Worker → ℕ
  held (handling event) = f event
  held _ = 0

  abbrev pub held_by : List Worker → ℕ
  held_by [] = 0
  held_by (w ∷ ws) = held w + held_by ws

  total-append : (xs ys : List Event) → total (xs ++ ys) ≡ total xs + total ys
  total-append [] ys = omega arith
  total-append (x ∷ xs) ys = omega (arith, total-append xs ys)

  held_by-append : (xs ys : List Worker) → held_by (xs ++ ys) ≡ held_by xs + held_by ys
  held_by-append [] ys = omega arith
  held_by-append (x ∷ xs) ys = omega (arith, held_by-append xs ys)

  -- An action only moves events on: from the queue to a worker, and from there to the finished.
  abbrev Moves : List Worker → List Event → Turn → Type 0
  Moves ws queue t = held_by ws + total queue ≡ held_by t.workers + total t.queue + total t.finished

  act-Moves :
      (w : Worker) (queue : List Event) (phase : Phase)
      → AllSome (Moves (w ∷ []) queue) (act w queue phase)
  unfolding act
  act-Moves exited queue phase = tt
  act-Moves (handling event) queue phase = omega arith
  act-Moves idle (event ∷ rest) phase = omega arith
  act-Moves idle [] running = tt
  act-Moves idle [] stopping = omega arith
  act-Moves idle [] stopped = omega arith

  others-Moves :
      (w : Worker) (ws : List Worker) (queue : List Event) (turn : Option Turn)
      → AllSome (Moves (w ∷ []) queue) turn
      → AllSome (Moves (w ∷ ws) queue) (and_others turn ws)
  others-Moves w ws queue none m = tt
  others-Moves w ws queue (some t) m = omega (arith, m, held_by-append t.workers ws)

  before-Moves :
      (w : Worker) (ws : List Worker) (queue : List Event) (turn : Option Turn)
      → AllSome (Moves ws queue) turn
      → AllSome (Moves (w ∷ ws) queue) (put_before w turn)
  before-Moves w ws queue none m = tt
  before-Moves w ws queue (some t) m = omega (arith, m)

  work_at-Moves :
      (i : ℕ) (ws : List Worker) (queue : List Event) (phase : Phase)
      → AllSome (Moves ws queue) (work_at i ws queue phase)
  unfolding work_at
  work_at-Moves i [] queue phase = tt
  work_at-Moves zero (w ∷ ws) queue phase =
      others-Moves w ws queue (act w queue phase) (act-Moves w queue phase)
  work_at-Moves (suc i) (w ∷ ws) queue phase =
      before-Moves w ws queue (work_at i ws queue phase) (work_at-Moves i ws queue phase)

  -- Every accepted event is done, with a worker, or in the queue.
  abbrev pub Conserves : Pool → Type 0
  Conserves p = total p.accepted ≡ total p.handled + held_by p.workers + total p.queue

  turned-Conserves :
      (p : Pool) (turn : Option Turn)
      → Conserves p
      → AllSome (Moves p.workers p.queue) turn
      → AllSome Conserves (turned p turn)
  turned-Conserves p none v m = tt
  turned-Conserves p (some t) v m = omega (arith, v, m, total-append p.handled t.finished)

  submit-Conserves :
      (p : Pool) (event : Event) → Conserves p → AllSome Conserves (after_submit p (submit p event))
  unfolding submit
  submit-Conserves p event v =
      if_both (λ x. AllSome Conserves (after_submit p x)) (is_open p.phase) _ _
        (if_both (λ x. AllSome Conserves (after_submit p x)) (ltb (length p.queue) p.capacity) _ _
          (omega
            (arith, v, total-append p.queue (event ∷ []), total-append p.accepted (event ∷ [])))
          v)
        tt

  step-Conserves : (p : Pool) (move : Move) → Conserves p → AllSome Conserves (step p move)
  unfolding step work close finish_stop
  step-Conserves p (submits event) v = submit-Conserves p event v
  step-Conserves p (works i) v =
      turned-Conserves p (work_at i p.workers p.queue p.phase) v
        (work_at-Moves i p.workers p.queue p.phase)
  step-Conserves p closes v = if_both (AllSome Conserves) (is_open p.phase) _ _ v tt
  step-Conserves p finishes v =
      if_both (AllSome Conserves) (is_stopping p.phase && all is_exited p.workers) _ _ v tt

  held_by-idle : (n : ℕ) → held_by (idle_workers n) ≡ 0
  held_by-idle zero = refl
  held_by-idle (suc n) = omega (arith, held_by-idle n)

  -- In every run of a new pool, in any interleaving of submitters and workers, each accepted event
  -- is at one place: handled, with a worker or in the queue. The measure of events is any, such as
  -- the count of one event: none is lost and none is handled twice.
  pub nothing_lost :
      (config : PoolConfig) (moves : List Move)
      → AllSome Conserves (run (new_worker_pool config) moves)
  unfolding new_worker_pool
  nothing_lost config moves =
      run_keeps Conserves step-Conserves (new_worker_pool config) moves
        (omega (arith, held_by-idle (or_default config.workers 10)))
