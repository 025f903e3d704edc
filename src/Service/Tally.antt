-- ===== src/Service/Tally.antt =====
-- What a history of calls did to the outside: the number of its sends, the events that it marked
-- in the idempotency store and those that it put on the dead-letter queue, each latest first; and
-- which stages of the pipeline leave these alone.
use grnoti.Prelude.{
  ℕ, suc, ◌≡◌, refl, Bool, true, ◌&&◌, List, [], ◌∷◌, none, String, arith, ltb, length,
  if◌then◌else◌,
}
use grnoti.Prelude.Maps.{Map}
use grnoti.Types.{Event, EventType, DispatchResult, ProcessingResult}
use grnoti.Calls.{
  mark_invalid, inc_notifications_processed, inc_notifications_sent, inc_notifications_failed,
  observe_dispatch_latency, send, send_to_topic, mark_processed, publish_to_dlq, History, Env,
}
use grnoti.TopicRouter.{resolve_devices_for_event}
use grnoti.Service.{Service}
use grnoti.Service.Effects.{
  dlq_on, mark_invalid_fids, publish_to_dlq_if_unresolved, record_sent, record_failed,
  record_metrics, publish_lifecycle_event,
}
use grnoti.Service.Pipeline.{skip_event, ask_preferences}

abbrev pub sends : History → ℕ
sends [] = 0
sends (send _ _ ∷ h) = suc (sends h)
sends (send_to_topic _ _ ∷ h) = suc (sends h)
sends (_ ∷ h) = sends h

abbrev pub marked : History → List String
marked [] = []
marked (mark_processed id _ ∷ h) = id ∷ marked h
marked (_ ∷ h) = marked h

abbrev pub dead_letters : History → List Event
dead_letters [] = []
dead_letters (publish_to_dlq event _ ∷ h) = event ∷ dead_letters h
dead_letters (_ ∷ h) = dead_letters h

-- The calls between the two histories sent, marked and dead-lettered nothing.
pub record Quiet (h h' : History) : Type 0 where
  pub sends_same : sends h' ≡ sends h
  pub marked_same : marked h' ≡ marked h
  pub dead_letters_same : dead_letters h' ≡ dead_letters h

pub Quiet-refl : (h : History) → Quiet h h
Quiet-refl h = record { sends_same = refl; marked_same = refl; dead_letters_same = refl }

pub skip_event-Quiet :
    (s : Service) (r : ProcessingResult) (start : ℕ) (reason : String) (env : Env) (h : History)
    → Quiet h (skip_event s r start reason env h).1
unfolding skip_event
skip_event-Quiet s r start reason env h = ground arith

-- A skip reports the dispatch result that it was given, and no error.
pub skip_event_reply :
    (s : Service) (r : ProcessingResult) (start : ℕ) (reason : String) (env : Env) (h : History)
    → let reply = (skip_event s r start reason env h).0 in
      (reply.0.dispatch_result ≡ r.dispatch_result) × (reply.0.skipped ≡ true) × (reply.1 ≡ none)
unfolding skip_event
skip_event_reply s r start reason env h = ground arith

pub mark_invalid_fids-Quiet :
    (fids : List String) (env : Env) (h : History) → Quiet h (mark_invalid_fids fids env h).1
unfolding mark_invalid_fids
mark_invalid_fids-Quiet [] env h = Quiet-refl h
mark_invalid_fids-Quiet (fid ∷ fids) env h =
    ground (arith, mark_invalid_fids-Quiet fids env (mark_invalid fid ∷ h))

record_sent-Quiet :
    (type : EventType) (latency : ℕ) (counts : Map ℕ) (env : Env) (h : History)
    → Quiet h (record_sent type latency counts env h).1
unfolding record_sent
record_sent-Quiet type latency [] env h = Quiet-refl h
record_sent-Quiet type latency ((platform, count) ∷ rest) env h =
    let counted = inc_notifications_sent type platform count in
    let timed = observe_dispatch_latency type platform latency in
    ground (
      arith,
      record_sent-Quiet type latency rest env h,
      record_sent-Quiet type latency rest env (timed ∷ counted ∷ h),
    )

record_failed-Quiet :
    (type : EventType) (counts : Map ℕ) (env : Env) (h : History)
    → Quiet h (record_failed type counts env h).1
unfolding record_failed
record_failed-Quiet type [] env h = Quiet-refl h
record_failed-Quiet type ((platform, count) ∷ rest) env h =
    let counted = inc_notifications_failed type platform count in
    ground
      (arith, record_failed-Quiet type rest env h, record_failed-Quiet type rest env (counted ∷ h))

pub record_metrics-Quiet :
    (s : Service) (event : Event) (d : DispatchResult) (latency : ℕ) (env : Env) (h : History)
    → Quiet h (record_metrics s event d latency env h).1
unfolding record_metrics
record_metrics-Quiet s event d latency env h =
    let begun = inc_notifications_processed ∷ h in
    let mid = (record_sent event.type latency d.success_by_platform env begun).1 in
    ground (
      arith,
      record_sent-Quiet event.type latency d.success_by_platform env begun,
      record_failed-Quiet event.type d.failure_by_platform env mid,
    )

pub publish_lifecycle_event-Quiet :
    (s : Service) (event : Event) (d : DispatchResult) (env : Env) (h : History)
    → Quiet h (publish_lifecycle_event s event d env h).1
unfolding publish_lifecycle_event
publish_lifecycle_event-Quiet s event d env h = ground arith

pub ask_preferences-Quiet :
    (s : Service) (event : Event) (env : Env) (h : History)
    → Quiet h (ask_preferences s event env h).1
unfolding ask_preferences
ask_preferences-Quiet s event env h = ground arith

pub resolve_devices-Quiet :
    (event : Event) (env : Env) (h : History) → Quiet h (resolve_devices_for_event event env h).1
unfolding resolve_devices_for_event
resolve_devices-Quiet event env h = ground arith

-- The condition under which a dispatch result goes to the dead-letter queue.
abbrev pub goes_to_dlq : Service → DispatchResult → Bool
goes_to_dlq s d = dlq_on s && ltb (length d.invalid_fids) d.failure_count

-- What `publish_to_dlq_if_unresolved` does: one entry under that condition, and nothing else.
pub publish_to_dlq_effect :
    (s : Service) (event : Event) (d : DispatchResult) (env : Env) (h : History)
    → let h' = (publish_to_dlq_if_unresolved s event d env h).1 in
      (sends h' ≡ sends h)
      × (marked h' ≡ marked h)
      × (dead_letters h' ≡ (if goes_to_dlq s d then event ∷ dead_letters h else dead_letters h))
unfolding publish_to_dlq_if_unresolved
publish_to_dlq_effect s event d env h = ground arith
