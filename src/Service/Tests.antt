-- ===== src/Service/Tests.antt =====
-- Runs of the service against concrete environments, and its theorems there.
use mathlib.Core.List.{flatten}
use grnoti.Prelude.{
  ◌≡◌, refl, ◌≢◌, true, false, [], ◌∷◌, none, ok, err, arith, length, All, if◌then◌else◌,
}
use grnoti.Prelude.Int.{pos}
use grnoti.Types.{
  err_backend_unavailable, Event, Message, no_dispatch, total_count, topic_target, validate,
  has_direct_fids, is_authenticated,
}
use grnoti.Calls.{Env}
use grnoti.BatchSplitter.{batches, split}
use grnoti.BatchSplitter.Split.{IsBatch}
use grnoti.BatchSplitter.Tests.{five}
use grnoti.TopicRouter.{resolve_devices_for_event}
use grnoti.Service.{Service, default_service_config}
use grnoti.Service.Effects.{
  mark_invalid_fids, publish_to_dlq_if_unresolved, record_metrics, publish_lifecycle_event,
}
use grnoti.Service.Dispatch.{
  recipients, dispatch, dispatch_to_resolved, dispatch_to_devices, send_to_recipients, send_batches,
  merge_dispatch_result,
}
use grnoti.Service.Pipeline.{
  mark, settle, conclude, deliver, ask_preferences, check_preferences, check_processed, check_valid,
  process_event,
}
use grnoti.Service.Tally.{sends, marked, dead_letters, Quiet, goes_to_dlq}
use grnoti.Service.Delivery.{
  contains, Remembers, process_all, error-Quiet, dead_letters-process_event, send-marks,
  redelivery_sends_nothing,
}
use grnoti.Service.Lost.{outage_loses_event}
use grnoti.Service.Batching.{whole, planned, Sends, AccountsForAll, dispatch_to_devices-Sends}

abbrev service : Service
service = record {
  config = record default_service_config { max_devices_per_batch = 2; enforce_batching = true };
  has_preferences_filter = false;
  has_topic_router = false;
  has_dlq_handler = true;
  has_bus = false;
  has_metrics = false;
}

abbrev pub order : Event
order = record {
  event_id = "e1";
  user_id = "u";
  anonymous_id = "";
  fids = [];
  type = "order_shipped";
  payload = [];
  priority = "high";
  timestamp = 0;
  experiment_id = "";
}

abbrev shipped : Message
shipped = record {
  title = "Shipped";
  body = "";
  payload = [];
  image_url = "";
  priority = "high";
  ttl = pos 0;
  collapse_key = "";
  channel_id = "";
  badge = none;
  sound = "";
  actions = [];
  deep_link = "";
  category = "";
}

-- Everything answers, and the dispatcher reaches every device but one, which may be retried.
abbrev working : Env
working = record {
  now = λ h. length h;
  is_processed_reply = λ h id. ok (contains (marked h) id);
  mark_processed_reply = λ h id ttl. none;
  should_send_reply = λ h e. (true, "", none);
  build_message_reply = λ h e. ok shipped;
  resolve_target_reply = λ h e. ok (topic_target "news");
  active_devices_reply = λ h id. ok five;
  anonymous_devices_reply = λ h id. ok [];
  mark_invalid_reply = λ h fid. none;
  send_reply = λ h ds m. (record no_dispatch { success_count = length ds }, none);
  send_to_topic_reply = λ h t m. none;
  publish_to_dlq_reply = λ h e r. none;
  publish_reply = λ h e. none;
  and_more = λ text n. text;
}

abbrev store_down : Env
store_down = record working { is_processed_reply = λ h id. err err_backend_unavailable }

abbrev devices_down : Env
devices_down = record working { active_devices_reply = λ h id. err err_backend_unavailable }

order_valid : validate order ≡ none
unfolding validate
order_valid = refl

working-Remembers : Remembers working
working-Remembers h id = refl

working-AccountsForAll : AccountsForAll working
unfolding total_count
working-AccountsForAll h ds m distinct = omega arith

-- The run of the order, whose sends are the three batches.
order_sent : sends (process_event service order working []).1 ≡ 3
unfolding process_event check_valid validate check_processed ask_preferences check_preferences
    deliver dispatch resolve_devices_for_event has_direct_fids is_authenticated dispatch_to_resolved
    dispatch_to_devices send_to_recipients split batches send_batches conclude total_count settle
    mark_invalid_fids publish_to_dlq_if_unresolved record_metrics publish_lifecycle_event mark
    merge_dispatch_result
order_sent = refl

order-sends : sends (process_event service order working []).1 ≢ sends []
order-sends same = absurd (omega (arith, order_sent))

error-Quiet_example : Quiet [] (process_event service order store_down []).1
unfolding process_event check_valid validate check_processed
error-Quiet_example = error-Quiet service order store_down [] err_backend_unavailable refl

dead_letters-process_event_example :
    let x = process_event service order working [] in
    dead_letters x.1 ≡ (if goes_to_dlq service x.0.0.dispatch_result then order ∷ [] else [])
dead_letters-process_event_example = dead_letters-process_event service order working []

send-marks_example :
    (marked (process_event service order working []).1 ≡ "e1" ∷ [])
    × ((process_event service order working []).0.1 ≡ none)
send-marks_example = send-marks service order working [] order-sends

redelivery_sends_nothing_example :
    let later =
      process_all service
        (record order { event_id = "e2" } ∷ [])
        working
        (process_event service order working []).1 in
    sends (process_event service order working later).1 ≡ sends later
redelivery_sends_nothing_example =
    redelivery_sends_nothing service order (record order { event_id = "e2" } ∷ []) working []
      working-Remembers order-sends

outage_loses_event_example :
    let x = process_event service order devices_down [] in
    (x.0.1 ≡ none)
    × (x.0.0.skipped ≡ false)
    × (marked x.1 ≡ "e1" ∷ [])
    × (sends x.1 ≡ 0)
    × (dead_letters x.1 ≡ [])
unfolding has_direct_fids is_authenticated
outage_loses_event_example =
    outage_loses_event service order devices_down [] shipped err_backend_unavailable refl refl
      order_valid refl refl refl refl refl

dispatch_to_devices-Sends_example :
    let batches = planned service (recipients service five) in
    Sends batches [] (dispatch_to_devices service five shipped working []).1
    × (flatten batches ≡ recipients service five)
    × (whole service ≡ false → All (IsBatch 2) batches)
dispatch_to_devices-Sends_example = dispatch_to_devices-Sends service five shipped working []
