-- ===== src/Service/Dispatch.antt =====
-- service.go: dispatch, dispatchToDevices and mergeDispatchResult.
use grnoti.Prelude.{
  ℕ, ◌+◌, not, ◌&&◌, ◌||◌, List, [], ◌∷◌, ◌++◌, Option, none, some, String, Result, ok, err, leb,
  is_empty, if◌then◌else◌, length,
}
use grnoti.Prelude.Maps.{Map, lookup, insert}
use grnoti.Types.{
  Error, Event, Device, Message, DispatchResult, no_dispatch, Target, device_target, topic_target,
}
use grnoti.Calls.{Env, Go, resolve_target, send, send_to_topic, pure, ask, ◌>>=◌}
use grnoti.BatchSplitter.{deduplicate, split}
use grnoti.TopicRouter.{resolve_devices_for_event}
use grnoti.Service.{Service}

-- m[platform] += count, for each entry of the source.
unfoldable pub add_counts : Map ℕ → Map ℕ → Map ℕ
add_counts dst [] = dst
add_counts dst ((platform, count) ∷ rest) =
    add_counts
      (insert platform (elim (lookup platform dst) [ none ↦ 0 | some old ↦ old ] + count) dst) rest

unfoldable pub merge_dispatch_result : DispatchResult → DispatchResult → DispatchResult
unfolding add_counts
merge_dispatch_result dst src = record {
  success_count = dst.success_count + src.success_count;
  failure_count = dst.failure_count + src.failure_count;
  invalid_fids = dst.invalid_fids ++ src.invalid_fids;
  retryable_errors = dst.retryable_errors + src.retryable_errors;
  errors = dst.errors ++ src.errors;
  success_by_platform = add_counts dst.success_by_platform src.success_by_platform;
  failure_by_platform = add_counts dst.failure_by_platform src.failure_by_platform;
}

-- `ProcessingResult.DeviceCount`, the DispatchResult and the error that a dispatch leaves.
pub record Outcome : Type 0 where
  pub device_count : ℕ
  pub dispatch_result : DispatchResult
  pub error : Option Error

abbrev pub call_send : List Device → Message → Go (DispatchResult × Option Error)
call_send devices msg = ask (send devices msg) (λ (env : Env) h. env.send_reply h devices msg)

-- The later error stands.
abbrev pub last_error : Option Error → Option Error → Option Error
last_error old none = old
last_error old (some e) = some e

-- The loop over the batches.
unfoldable pub send_batches :
    List (List Device)
    → Message
    → DispatchResult
    → Option Error
    → Go (DispatchResult × Option Error)
send_batches [] msg aggregated last = pure (aggregated, last)
send_batches (batch ∷ rest) msg aggregated last = do
  reply ← call_send batch msg
  send_batches rest msg (merge_dispatch_result aggregated reply.0) (last_error last reply.1)

abbrev pub recipients : Service → List Device → List Device
recipients s devices = if s.config.enable_device_deduplication then deduplicate devices else devices

unfoldable pub send_to_recipients : Service → List Device → Message → Go Outcome
send_to_recipients s devices msg =
    if is_empty devices
    then pure (record { device_count = 0; dispatch_result = no_dispatch; error = none })
    else do
      reply ←
          if not s.config.enforce_batching || leb s.config.max_devices_per_batch 0
          then call_send devices msg
          else send_batches (split devices s.config.max_devices_per_batch) msg no_dispatch none
      pure (record { device_count = length devices; dispatch_result = reply.0; error = reply.1 })

unfoldable pub dispatch_to_devices : Service → List Device → Message → Go Outcome
dispatch_to_devices s devices msg = send_to_recipients s (recipients s devices) msg

unfoldable pub dispatch_to_topic : String → Message → Go Outcome
dispatch_to_topic topic msg = do
  reply ← ask (send_to_topic topic msg) (λ (env : Env) h. env.send_to_topic_reply h topic msg)
  pure (elim reply [
    | none ↦ record {
      device_count = 0;
      dispatch_result = record no_dispatch { success_count = 1 };
      error = none;
    }
    | some e ↦ record {
      device_count = 0;
      dispatch_result = record no_dispatch { failure_count = 1; errors = e ∷ [] };
      error = some e;
    }
  ])

abbrev unresolved : Error → Outcome
unresolved e = record { device_count = 0; dispatch_result = no_dispatch; error = some e }

unfoldable pub dispatch_to_target : Service → Message → Result Error Target → Go Outcome
dispatch_to_target s msg (err e) = pure (unresolved e)
dispatch_to_target s msg (ok (topic_target topic)) = dispatch_to_topic topic msg
dispatch_to_target s msg (ok (device_target devices)) = dispatch_to_devices s devices msg

unfoldable pub dispatch_to_resolved : Service → Message → Result Error (List Device) → Go Outcome
dispatch_to_resolved s msg (err e) = pure (unresolved e)
dispatch_to_resolved s msg (ok devices) = dispatch_to_devices s devices msg

unfoldable pub dispatch : Service → Event → Message → Go Outcome
unfolding dispatch_to_target dispatch_to_resolved
dispatch s event msg =
    if s.has_topic_router && s.config.enable_topic_routing
    then (do
      target ← ask (resolve_target event) (λ (env : Env) h. env.resolve_target_reply h event)
      dispatch_to_target s msg target)
    else (do devices ← resolve_devices_for_event event; dispatch_to_resolved s msg devices)
