-- ===== src/WorkerPool.antt =====
-- workerpool.go: WorkerPool, the bounded queue between ingestion and processing. The goroutines run
-- in any order: a move is what one of them does in one atomic action, and a run is a list of
-- moves. A move that cannot be made now is `none`. A send on the closed queue panics, which ends
-- the program; so does closing it again.
pub mod Runs
pub mod Accounts
pub mod Stopping
pub mod Shutdown
pub mod Returns
pub mod Tests
use grnoti.Prelude.{
  ℕ, zero, suc, ◌+◌, Bool, true, false, ◌&&◌, not, Option, none, some, List, [], ◌∷◌, ◌++◌, ltb,
  leb, if◌then◌else◌, length, is_empty, all,
}
use grnoti.Types.{Event}

-- What a worker goroutine is at: at its select, in the handler, or returned.
pub data Worker : Type 0 where
  idle exited : Worker
  handling : Event → Worker

-- Whether the queue is open, closed by Stop, or closed with the context cancelled, as Stop returns.
pub data Phase : Type 0 where
  running stopping stopped : Phase

-- `accepted` and `handled` record the events that Submit took and the handler returned from, and
-- `backpressure` is the count of rejected events in the metrics, if there are any.
pub record Pool : Type 0 where
  pub capacity : ℕ
  pub queue : List Event
  pub workers : List Worker
  pub phase : Phase
  pub backpressure : Option ℕ
  pub accepted : List Event
  pub handled : List Event

pub record PoolConfig : Type 0 where
  pub workers : ℕ
  pub queue_size : ℕ
  pub has_metrics : Bool

-- A setting at most 0 is 0 here.
abbrev pub or_default : ℕ → ℕ → ℕ
or_default value default = if leb value 0 then default else value

abbrev pub idle_workers : ℕ → List Worker
idle_workers zero = []
idle_workers (suc n) = idle ∷ idle_workers n

-- NewWorkerPool with a handler, and Start.
unfoldable pub new_worker_pool : PoolConfig → Pool
new_worker_pool config = record {
  capacity = or_default config.queue_size 1000;
  queue = [];
  workers = idle_workers (or_default config.workers 10);
  phase = running;
  backpressure = if config.has_metrics then some 0 else none;
  accepted = [];
  handled = [];
}

abbrev pub is_open : Phase → Bool
is_open running = true
is_open _ = false

-- What Submit does: take the event, reject it, or panic.
pub data Submitted : Type 0 where
  queued rejected : Pool → Submitted
  panicked : Submitted

abbrev pub counted : Option ℕ → Option ℕ
counted none = none
counted (some n) = some (suc n)

unfoldable pub submit : Pool → Event → Submitted
submit p event =
    if is_open p.phase
    then if ltb (length p.queue) p.capacity
      then queued
          (record p { queue = p.queue ++ (event ∷ []); accepted = p.accepted ++ (event ∷ []) })
      else rejected (record p { backpressure = counted p.backpressure })
    else panicked

-- Stop begins by closing the queue.
unfoldable pub close : Pool → Option Pool
close p = if is_open p.phase then some (record p { phase = stopping }) else none

abbrev pub is_exited : Worker → Bool
is_exited exited = true
is_exited _ = false

abbrev pub is_stopping : Phase → Bool
is_stopping stopping = true
is_stopping _ = false

-- wg.Wait returns once every worker has; then the context is cancelled.
unfoldable pub finish_stop : Pool → Option Pool
finish_stop p =
    if is_stopping p.phase && all is_exited p.workers
    then some (record p { phase = stopped })
    else none

-- What an action of a worker leaves: the workers, the queue, and the event that is done.
pub record Turn : Type 0 where
  pub workers : List Worker
  pub queue : List Event
  pub finished : List Event

-- One worker's action, with the result as in a list of that worker alone. At its select a worker
-- takes the oldest event, returns from a closed and empty queue, or waits. The context is
-- cancelled only when no worker is at its select any more, so that case of it is no action.
unfoldable pub act : Worker → List Event → Phase → Option Turn
act exited queue phase = none
act (handling event) queue phase =
    some (record { workers = idle ∷ []; queue = queue; finished = event ∷ [] })
act idle (event ∷ rest) phase =
    some (record { workers = handling event ∷ []; queue = rest; finished = [] })
act idle [] running = none
act idle [] stopping = some (record { workers = exited ∷ []; queue = []; finished = [] })
act idle [] stopped = some (record { workers = exited ∷ []; queue = []; finished = [] })

abbrev pub and_others : Option Turn → List Worker → Option Turn
and_others none ws = none
and_others (some t) ws = some (record t { workers = t.workers ++ ws })

abbrev pub put_before : Worker → Option Turn → Option Turn
put_before w none = none
put_before w (some t) = some (record t { workers = w ∷ t.workers })

-- The action of worker number i.
unfoldable pub work_at : ℕ → List Worker → List Event → Phase → Option Turn
unfolding act
work_at i [] queue phase = none
work_at zero (w ∷ ws) queue phase = and_others (act w queue phase) ws
work_at (suc i) (w ∷ ws) queue phase = put_before w (work_at i ws queue phase)

abbrev pub turned : Pool → Option Turn → Option Pool
turned p none = none
turned p (some t) =
    some (record p { queue = t.queue; workers = t.workers; handled = p.handled ++ t.finished })

unfoldable pub work : Pool → ℕ → Option Pool
unfolding work_at
work p i = turned p (work_at i p.workers p.queue p.phase)

pub data Move : Type 0 where
  submits : Event → Move
  works : ℕ → Move
  closes finishes : Move

abbrev pub after_submit : Pool → Submitted → Option Pool
after_submit p (queued next) = some next
after_submit p (rejected next) = some next
after_submit p panicked = none

unfoldable pub step : Pool → Move → Option Pool
unfolding submit work close finish_stop
step p (submits event) = after_submit p (submit p event)
step p (works i) = work p i
step p closes = close p
step p finishes = finish_stop p

abbrev pub and_then : Option Pool → (Pool → Option Pool) → Option Pool
and_then none f = none
and_then (some p) f = f p

unfoldable pub run : Pool → List Move → Option Pool
unfolding step
run p [] = some p
run p (move ∷ moves) = and_then (step p move) (λ next. run next moves)

-- WorkerPool.SubmitAsync
unfoldable pub submit_async : Pool → Event → Option (Bool × Pool)
submit_async p event = elim (submit p event) [
  | queued next ↦ some (true, next)
  | rejected next ↦ some (false, next)
  | panicked ↦ none
]

pub record WorkerPoolStats : Type 0 where
  pub workers : ℕ
  pub queue_size : ℕ
  pub queued_events : ℕ
  pub queue_usage : ℕ × ℕ

-- WorkerPool.GetStats. The usage is the fraction with this numerator and denominator.
unfoldable pub get_stats : Pool → WorkerPoolStats
get_stats p = record {
  workers = length p.workers;
  queue_size = p.capacity;
  queued_events = length p.queue;
  queue_usage = if ltb 0 p.capacity then (length p.queue, p.capacity) else (0, 1);
}
