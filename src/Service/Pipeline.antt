-- ===== src/Service/Pipeline.antt =====
-- service.go: processEvent, as one function for each stage between two early returns.
use grnoti.Prelude.{
  ℕ, ◌-◌, Bool, true, false, ◌&&◌, Option, none, some, String, Result, ok, err, concat, eqb,
  if◌then◌else◌, is_some, not,
}
use grnoti.Types.{
  Error, error_text, Event, is_authenticated, get_target_id, validate, Message, no_dispatch,
  total_count, ProcessingResult,
}
use grnoti.Calls.{
  Env, Go, is_processed, mark_processed, should_send_notification, build_message,
  observe_processing_latency, pure, ask, tell, read_clock, ◌>>=◌, ◌>>◌,
}
use grnoti.Service.{Service}
use grnoti.Service.Effects.{
  metrics_on, when, skip, mark_invalid_fids, publish_to_dlq_if_unresolved, record_metrics,
  publish_lifecycle_event,
}
use grnoti.Service.Dispatch.{Outcome, dispatch}

abbrev pub Reply : Type 0
Reply = ProcessingResult × Option Error

abbrev pub fresh_result : Event → ℕ → ProcessingResult
fresh_result event start = record {
  event_id = event.event_id;
  user_id = get_target_id event;
  device_count = 0;
  dispatch_result = no_dispatch;
  processed_at = start;
  duration = 0;
  skipped = false;
  skip_reason = "";
}

unfoldable pub skip_event : Service → ProcessingResult → ℕ → String → Go Reply
unfolding skip
skip_event s result start reason = do skipped ← skip s result start reason; pure (skipped, none)

-- A failure to mark the event is only logged.
unfoldable pub mark : Service → Event → Go (Unit {0})
mark s event = tell (mark_processed event.event_id s.config.idempotency_ttl)

-- No recipient was found, and nothing failed on the way.
abbrev pub nothing_dispatched : Outcome → Bool
nothing_dispatched o =
    eqb o.device_count 0 && eqb (total_count o.dispatch_result) 0 && not (is_some o.error)

-- What follows a dispatch, whether or not it met an error.
unfoldable pub settle : Service → Event → ProcessingResult → ℕ → ℕ → Outcome → Go Reply
settle s event result start latency o = do
  mark_invalid_fids o.dispatch_result.invalid_fids
  publish_to_dlq_if_unresolved s event o.dispatch_result
  record_metrics s event o.dispatch_result latency
  publish_lifecycle_event s event o.dispatch_result
  mark s event
  end ← read_clock
  when (metrics_on s) (tell (observe_processing_latency (end - start)))
  pure (
    record result {
      device_count = o.device_count;
      dispatch_result = o.dispatch_result;
      duration = end - start;
    },
    none,
  )

unfoldable pub conclude : Service → Event → ProcessingResult → ℕ → ℕ → Outcome → Go Reply
conclude s event result start latency o =
    if nothing_dispatched o
    then (do mark s event; skip_event s result start "no_active_devices")
    else settle s event result start latency o

unfoldable pub deliver : Service → Event → ProcessingResult → ℕ → Result Error Message → Go Reply
deliver s event result start (err e) = pure (result, some e)
deliver s event result start (ok msg) = do
  dispatch_start ← read_clock
  outcome ← dispatch s event msg
  dispatch_end ← read_clock
  conclude s event result start (dispatch_end - dispatch_start) outcome

-- The reason to skip, if there is one. An error of the filter lets the event through.
abbrev pub skip_reason_of : Bool × String × Option Error → Option String
skip_reason_of (send, reason, some e) = none
skip_reason_of (true, reason, none) = none
skip_reason_of (false, reason, none) = some (concat "preferences_" reason)

unfoldable pub ask_preferences : Service → Event → Go (Option String)
ask_preferences s event =
    if s.has_preferences_filter && s.config.enable_preferences_filter && is_authenticated event
    then (do
      reply ← ask (should_send_notification event) (λ (env : Env) h. env.should_send_reply h event)
      pure (skip_reason_of reply))
    else pure none

unfoldable pub check_preferences : Service → Event → ProcessingResult → ℕ → Option String → Go Reply
check_preferences s event result start (some reason) = skip_event s result start reason
check_preferences s event result start none = do
  msg ← ask (build_message event) (λ (env : Env) h. env.build_message_reply h event)
  deliver s event result start msg

unfoldable pub check_processed :
    Service → Event → ProcessingResult → ℕ → Result Error Bool → Go Reply
check_processed s event result start (err e) = pure (result, some e)
check_processed s event result start (ok true) = skip_event s result start "already_processed"
check_processed s event result start (ok false) = do
  reason ← ask_preferences s event
  check_preferences s event result start reason

unfoldable pub check_valid : Service → Event → ProcessingResult → ℕ → Option Error → Go Reply
check_valid s event result start (some e) =
    if s.config.skip_invalid_events
    then skip_event s result start (concat "invalid_event: " (error_text e))
    else pure (result, some e)
check_valid s event result start none = do
  processed ←
      ask (is_processed event.event_id) (λ (env : Env) h. env.is_processed_reply h event.event_id)
  check_processed s event result start processed

unfoldable pub process_event : Service → Event → Go Reply
process_event s event = do
  start ← read_clock
  check_valid s event (fresh_result event start) start (validate event)
