-- ===== src/WorkerPool/Tests.antt =====
-- Runs of the worker pool, and its theorems at concrete schedules.
use grnoti.Prelude.{◌+◌, ◌≡◌, ℕ, refl, List, [], ◌∷◌, map, none, some, true, AllSome, length}
use grnoti.Types.{Event}
use grnoti.WorkerPool.{
  PoolConfig, Pool, new_worker_pool, Move, submits, works, closes, finishes, step, run, submit, act,
  work_at, work, close, finish_stop, exited, idle, handling, stopping, stopped,
}
use grnoti.WorkerPool.Accounts.{total, Conserves, nothing_lost}
use grnoti.WorkerPool.Shutdown.{stop_drains}
use grnoti.WorkerPool.Stopping.{left_to_do}
use grnoti.WorkerPool.Returns.{workers_run_out, stop_returns, StopReturns}
use grnoti.Service.Tests.{order}

abbrev small : PoolConfig
small = record { workers = 2; queue_size = 1; has_metrics = true }

-- Three submissions, the third of which finds the queue full, and a shutdown while one event is
-- with a worker and one in the queue.
abbrev busy_day : List Move
busy_day =
    submits order
    ∷ works 0
    ∷ submits order
    ∷ submits order
    ∷ closes
    ∷ works 0
    ∷ works 1
    ∷ works 0
    ∷ works 1
    ∷ works 1
    ∷ finishes
    ∷ []

one_each : Event → ℕ
one_each event = 1

-- A closed pool with one event in its queue, one with a worker, and a worker at its select.
abbrev closing : Pool
closing = record {
  capacity = 1;
  queue = order ∷ [];
  workers = handling order ∷ idle ∷ [];
  phase = stopping;
  backpressure = some 1;
  accepted = order ∷ order ∷ [];
  handled = [];
}

submit_after_stop_panics : run closing (submits order ∷ []) ≡ none
unfolding run step submit
submit_after_stop_panics = refl

nothing_lost_example : AllSome (Conserves one_each) (run (new_worker_pool small) busy_day)
nothing_lost_example = nothing_lost one_each small busy_day

-- The pool at the end of busy_day.
abbrev day_over : Pool
day_over = record {
  capacity = 1;
  queue = [];
  workers = exited ∷ exited ∷ [];
  phase = stopped;
  backpressure = some 1;
  accepted = order ∷ order ∷ [];
  handled = order ∷ order ∷ [];
}

busy_day_ends : run (new_worker_pool small) busy_day ≡ some day_over
unfolding run step submit act work_at work close finish_stop new_worker_pool
busy_day_ends = refl

stop_drains_example : total one_each day_over.accepted ≡ total one_each day_over.handled
stop_drains_example = stop_drains one_each small busy_day day_over busy_day_ends refl

workers_run_out_example :
    AllSome
      (λ q. length {A = ℕ} (0 ∷ 1 ∷ []) + left_to_do q ≡ left_to_do closing)
      (run closing (map works (0 ∷ 1 ∷ [])))
workers_run_out_example = workers_run_out closing (0 ∷ 1 ∷ [])

stop_returns_example : StopReturns closing
stop_returns_example = stop_returns closing refl
