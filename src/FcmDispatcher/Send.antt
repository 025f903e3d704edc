-- ===== src/FcmDispatcher/Send.antt =====
-- dispatcher.fcm.go: the retry loop, the batches of a platform, and Send.
use grnoti.Prelude.{
  ℕ, zero, suc, ◌+◌, ◌-◌, ◌&&◌, not, Option, none, some, List, [], ◌∷◌, ◌++◌, ◌==◌, leb,
  if◌then◌else◌, length, is_empty,
}
use grnoti.Prelude.Maps.{Map, lookup, insert}
use grnoti.Types.{Platform, platform_android, Device, Message, DispatchResult, no_dispatch, Error}
use grnoti.BatchSplitter.{deduplicate, split}
use grnoti.FcmDispatcher.{
  FcmDispatcher, FcmEnv, checks, counts_invalid, Trace, send_batch, retry_again, failed_batch,
  cut_short,
}

abbrev pub fcm_max_batch_size : ℕ
fcm_max_batch_size = 500

-- The attempts after the first: `left` of them may follow attempt number `attempt`, whose answer
-- is `last`.
unfoldable pub retry_loop :
    ℕ
    → ℕ
    → FcmDispatcher
    → FcmEnv
    → List Device
    → Message
    → Platform
    → (DispatchResult × Option Error) × Trace
    → DispatchResult × Trace
retry_loop zero attempt d env devices msg platform (last, t) = (last.0, t)
retry_loop (suc left) attempt d env devices msg platform (last, t) =
    let rest =
      retry_loop left (suc attempt) d env devices msg platform
        (send_batch d env devices msg platform (checks ∷ t)) in
    if retry_again d attempt last
    then elim (env.cancelled t) [ some e ↦ (cut_short last.0 e, checks ∷ t) | none ↦ rest ]
    else (last.0, t)

-- With no attempt allowed the loop of the source does not run; NewFCMDispatcher refuses that.
unfoldable pub send_batch_with_retry :
    FcmDispatcher → FcmEnv → List Device → Message → Platform → Trace → DispatchResult × Trace
unfolding retry_loop
send_batch_with_retry d env devices msg platform t =
    if leb d.config.max_retry_attempts 0
    then (no_dispatch, t)
    else retry_loop (d.config.max_retry_attempts - 1) 0 d env devices msg platform
        (send_batch d env devices msg platform t)

unfoldable pub send_one :
    FcmDispatcher → FcmEnv → List Device → Message → Platform → Trace → DispatchResult × Trace
send_one d env devices msg platform t =
    if d.config.enable_retry then send_batch_with_retry d env devices msg platform t else (
      (send_batch d env devices msg platform t).0.0,
      (send_batch d env devices msg platform t).1,
    )

-- The counts of a batch, added to those of its platform.
abbrev pub add_batch : DispatchResult → DispatchResult → DispatchResult
add_batch result r = record result {
  success_count = result.success_count + r.success_count;
  failure_count = result.failure_count + r.failure_count;
  invalid_fids = result.invalid_fids ++ r.invalid_fids;
  retryable_errors = result.retryable_errors + r.retryable_errors;
  errors = result.errors ++ r.errors;
}

-- A batch is not tried once the context is cancelled.
abbrev pub checked_batch :
    FcmDispatcher
    → FcmEnv
    → List Device
    → Message
    → Platform
    → Trace
    → Option Error
    → DispatchResult × Trace
checked_batch d env devices msg platform t (some e) = (failed_batch devices e, t)
checked_batch d env devices msg platform t none = send_one d env devices msg platform t

unfoldable pub send_batch_list :
    FcmDispatcher
    → FcmEnv
    → List (List Device)
    → Message
    → Platform
    → DispatchResult × Trace
    → DispatchResult × Trace
send_batch_list d env [] msg platform (result, t) = (result, t)
send_batch_list d env (batch ∷ rest) msg platform (result, t) =
    let one = checked_batch d env batch msg platform (checks ∷ t) (env.cancelled t) in
    send_batch_list d env rest msg platform (add_batch result one.0, one.1)

unfoldable pub send_platform_batches :
    FcmDispatcher → FcmEnv → List Device → Message → Platform → Trace → DispatchResult × Trace
unfolding send_batch_list
send_platform_batches d env devices msg platform t =
    send_batch_list d env (split devices fcm_max_batch_size) msg platform (no_dispatch, t)

abbrev pub platform_of : Device → Platform
platform_of dev = if dev.platform == "" then platform_android else dev.platform

abbrev pub devices_at : Option (List Device) → List Device
devices_at none = []
devices_at (some devices) = devices

-- byPlatform[platform] = append(byPlatform[platform], dev), for each device.
unfoldable pub group_by_platform : Map (List Device) → List Device → Map (List Device)
group_by_platform groups [] = groups
group_by_platform groups (dev ∷ rest) =
    let p = platform_of dev in
    group_by_platform (insert p (devices_at (lookup p groups) ++ (dev ∷ [])) groups) rest

abbrev pub count_at : Option ℕ → ℕ
count_at none = 0
count_at (some n) = n

abbrev pub add_to : Platform → ℕ → Map ℕ → Map ℕ
add_to platform n counts = insert platform (count_at (lookup platform counts) + n) counts

abbrev pub add_platform : DispatchResult → Platform → DispatchResult → DispatchResult
add_platform result platform r = record (add_batch result r) {
  success_by_platform = add_to platform r.success_count result.success_by_platform;
  failure_by_platform = add_to platform r.failure_count result.failure_by_platform;
}

unfoldable pub send_groups :
    FcmDispatcher
    → FcmEnv
    → Map (List Device)
    → Message
    → DispatchResult × Trace
    → DispatchResult × Trace
send_groups d env [] msg (result, t) = (result, t)
send_groups d env ((platform, devices) ∷ rest) msg (result, t) =
    let r = send_platform_batches d env devices msg platform t in
    send_groups d env rest msg (add_platform result platform r.0, r.1)

abbrev pub count_invalid :
    FcmDispatcher → DispatchResult × Trace → (DispatchResult × Option Error) × Trace
count_invalid d (result, t) =
    if d.has_metrics && not (is_empty result.invalid_fids)
    then ((result, none), counts_invalid (length result.invalid_fids) ∷ t)
    else ((result, none), t)

abbrev pub send_sized :
    FcmDispatcher
    → FcmEnv
    → List Device
    → Message
    → Trace
    → Option Error
    → (DispatchResult × Option Error) × Trace
send_sized d env devices msg t (some e) = ((failed_batch devices e, some e), t)
send_sized d env devices msg t none =
    count_invalid d
      (send_groups d env (group_by_platform [] (deduplicate devices)) msg (no_dispatch, t))

unfoldable pub send :
    FcmDispatcher → FcmEnv → List Device → Message → Trace → (DispatchResult × Option Error) × Trace
unfolding group_by_platform send_groups
send d env devices msg t =
    if is_empty devices
    then ((no_dispatch, none), t)
    else send_sized d env devices msg t (env.validate_size msg)
