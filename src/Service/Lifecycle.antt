-- ===== src/Service/Lifecycle.antt =====
-- service.go: NewNotificationService, ProcessEvent, Submit and Close, around the pipeline of
-- processEvent and the worker pool. Close is its two steps, so that a Submit may come between them;
-- a panic is `none`. The detail of the pool's error is left out.
use grnoti.Prelude.{Bool, true, false, Option, none, some, Result, ok, err, if◌then◌else◌}
use grnoti.Types.{
  Error, err_closed, err_worker_pool_full, message, Event, ProcessingResult, no_dispatch,
}
use grnoti.Calls.{Go, pure}
use grnoti.Service.{Service}
use grnoti.Service.Pipeline.{Reply, process_event}
use grnoti.WorkerPool.{
  Pool, PoolConfig, new_worker_pool, Submitted, queued, rejected, panicked, submit, close,
}

-- Which of the required dependencies are given, and the rest.
pub record ServiceDeps : Type 0 where
  pub has_device_store : Bool
  pub has_dispatcher : Bool
  pub has_templates : Bool
  pub has_idempotency : Bool
  pub service : Service
  pub worker_pool_config : PoolConfig

-- The service with its flag and its pool.
pub record RunningService : Type 0 where
  pub service : Service
  pub worker_pool : Option Pool
  pub closed : Bool

unfoldable pub new_notification_service : ServiceDeps → Result Error RunningService
new_notification_service deps =
    if deps.has_device_store
    then if deps.has_dispatcher
      then if deps.has_templates
        then if deps.has_idempotency
          then ok (record {
            service = deps.service;
            worker_pool =
                if deps.service.config.enable_backpressure
                then some (new_worker_pool deps.worker_pool_config)
                else none;
            closed = false;
          })
          else err (message "grnoti: ServiceDeps.Idempotency is required")
        else err (message "grnoti: ServiceDeps.Templates is required")
      else err (message "grnoti: ServiceDeps.Dispatcher is required")
    else err (message "grnoti: ServiceDeps.DeviceStore is required")

-- ProcessingResult{}
abbrev pub no_result : ProcessingResult
no_result = record {
  event_id = "";
  user_id = "";
  device_count = 0;
  dispatch_result = no_dispatch;
  processed_at = 0;
  duration = 0;
  skipped = false;
  skip_reason = "";
}

unfoldable pub process_event_if_open : RunningService → Event → Go Reply
process_event_if_open r event env h =
    if r.closed
    then pure (no_result, some err_closed) env h
    else process_event r.service event env h

abbrev pub SubmitReply : Type 0
SubmitReply = Option (Option Error × RunningService)

abbrev pub after_pool : RunningService → Submitted → SubmitReply
after_pool r (queued p) = some (none, record r { worker_pool = some p })
after_pool r (rejected p) = some (some err_worker_pool_full, record r { worker_pool = some p })
after_pool r panicked = none

abbrev pub hand_over : RunningService → Event → Option Pool → Go SubmitReply
hand_over r event (some p) env h = (after_pool r (submit p event), h)
hand_over r event none env h = let a = process_event r.service event env h in (some (a.0.1, r), a.1)

unfoldable pub submit_event : RunningService → Event → Go SubmitReply
submit_event r event env h =
    if r.closed then (some (some err_closed, r), h) else hand_over r event r.worker_pool env h

-- The first step of Close.
unfoldable pub mark_closed : RunningService → RunningService
mark_closed r = record r { closed = true }

abbrev pub stopping_pool : RunningService → Option Pool → Option RunningService
stopping_pool r none = some r
stopping_pool r (some p) = elim (close p) [
  | none ↦ none
  | some q ↦ some (record r { worker_pool = some q })
]

-- The second: Stop of the pool, which then goes on as the pool's own steps.
unfoldable pub stop_pool : RunningService → Option RunningService
stop_pool r = stopping_pool r r.worker_pool
