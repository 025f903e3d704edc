-- ===== src/Service/Effects.antt =====
-- service.go: what the pipeline does around the dispatch. Each is a method of notificationService
-- that reports and returns nothing.
use grnoti.Prelude.{
  ℕ, ◌-◌, Bool, true, false, not, ◌&&◌, ◌||◌, List, [], ◌∷◌, String, ltb, leb, if◌then◌else◌,
  length,
}
use grnoti.Prelude.Maps.{Map}
use grnoti.Types.{Error, error_text, Event, EventType, DispatchResult, ProcessingResult}
use grnoti.Calls.{
  Env, Go, mark_invalid, publish_to_dlq, inc_events_skipped, inc_notifications_processed,
  inc_notifications_sent, inc_notifications_failed, observe_dispatch_latency, pure, tell,
  read_clock, ◌>>=◌, ◌>>◌,
}
use grnoti.Events.{publish_sent, publish_failed}
use grnoti.Service.{Service}

-- The tests `s.metrics != nil && s.config.EnableMetrics`, and so on.
abbrev pub metrics_on : Service → Bool
metrics_on s = s.has_metrics && s.config.enable_metrics

abbrev pub dlq_on : Service → Bool
dlq_on s = s.has_dlq_handler && s.config.enable_dlq

abbrev pub when : Bool → Go (Unit {0}) → Go (Unit {0})
when true m = m
when false m = pure tt

unfoldable pub skip : Service → ProcessingResult → ℕ → String → Go ProcessingResult
skip s result start reason = do
  end ← read_clock
  when (metrics_on s) (tell (inc_events_skipped reason))
  pure (record result { skipped = true; skip_reason = reason; duration = end - start })

-- What MarkInvalid answers is only logged.
unfoldable pub mark_invalid_fids : List String → Go (Unit {0})
mark_invalid_fids [] = pure tt
mark_invalid_fids (fid ∷ fids) = do tell (mark_invalid fid); mark_invalid_fids fids

unfoldable pub join_dispatch_errors : Env → List Error → String
join_dispatch_errors env [] = "dispatch failed"
join_dispatch_errors env (e ∷ []) = error_text e
join_dispatch_errors env (e ∷ f ∷ rest) = env.and_more (error_text e) (length (f ∷ rest))

unfoldable pub publish_to_dlq_if_unresolved : Service → Event → DispatchResult → Go (Unit {0})
publish_to_dlq_if_unresolved s event d env h =
    let unresolved = d.failure_count - length d.invalid_fids in
    if not (dlq_on s) || leb unresolved 0
    then (tt, h)
    else tell (publish_to_dlq event (join_dispatch_errors env d.errors)) env h

-- The loops over the two platform maps.
unfoldable pub record_sent : EventType → ℕ → Map ℕ → Go (Unit {0})
record_sent type latency [] = pure tt
record_sent type latency ((platform, count) ∷ rest) = do
  when (ltb 0 count) (do
    tell (inc_notifications_sent type platform count)
    tell (observe_dispatch_latency type platform latency))
  record_sent type latency rest

unfoldable pub record_failed : EventType → Map ℕ → Go (Unit {0})
record_failed type [] = pure tt
record_failed type ((platform, count) ∷ rest) = do
  when (ltb 0 count) (tell (inc_notifications_failed type platform count))
  record_failed type rest

unfoldable pub record_metrics : Service → Event → DispatchResult → ℕ → Go (Unit {0})
record_metrics s event d latency = when (metrics_on s) (do
  tell inc_notifications_processed
  record_sent event.type latency d.success_by_platform
  record_failed event.type d.failure_by_platform)

unfoldable pub publish_lifecycle_event : Service → Event → DispatchResult → Go (Unit {0})
unfolding publish_sent publish_failed
publish_lifecycle_event s event d env h =
    if not s.config.enable_event_bus
    then (tt, h)
    else if ltb 0 d.success_count
    then publish_sent s.has_bus
        (record {
          event_id = event.event_id;
          user_id = event.user_id;
          anonymous_id = event.anonymous_id;
          event_type = event.type;
          success_count = d.success_count;
          failure_count = d.failure_count;
          timestamp = 0;
        })
        env h
    else if ltb 0 d.failure_count
    then publish_failed s.has_bus
        (record {
          event_id = event.event_id;
          user_id = event.user_id;
          anonymous_id = event.anonymous_id;
          event_type = event.type;
          failure_count = d.failure_count;
          reason = join_dispatch_errors env d.errors;
          timestamp = 0;
        })
        env h
    else (tt, h)
