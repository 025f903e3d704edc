-- ===== src/FcmDispatcher/Attempts.antt =====
-- The requests that dispatcher.fcm.go makes: how large they are, and how many for a batch.
use grnoti.Prelude.{
  ℕ, zero, suc, ◌+◌, ◌-◌, ◌≤◌, ◌&&◌, not, Option, none, some, List, [], ◌∷◌, arith, leb,
  if◌then◌else◌, if_both, if_cases, length, is_empty, All, All-weaken, Option-cases, inl, inr,
}
use grnoti.Prelude.Maps.{Map}
use grnoti.Types.{Platform, Device, Message, DispatchResult, no_dispatch, Error}
use grnoti.BatchSplitter.{deduplicate, split}
use grnoti.BatchSplitter.Split.{IsBatch, split_covers}
use grnoti.FcmDispatcher.{
  FcmDispatcher, FcmEnv, FcmCall, waits, enters, checks, multicasts, Trace, call_client,
  execute_send, enter_breaker, after_wait, send_batch, retry_again,
}
use grnoti.FcmDispatcher.Counts.{length-map}
use grnoti.FcmDispatcher.Send.{
  fcm_max_batch_size, retry_loop, send_batch_with_retry, send_one, checked_batch, send_batch_list,
  send_platform_batches, group_by_platform, add_batch, add_platform, send_groups, send_sized, send,
}

abbrev is_request : FcmCall → ℕ
is_request (multicasts fids platform) = 1
is_request _ = 0

-- How many multicast requests were made.
abbrev pub requests : Trace → ℕ
requests [] = 0
requests (call ∷ t) = is_request call + requests t

-- A request is within the limit of FCM on the FIDs of one multicast.
abbrev pub FitsFcm : FcmCall → Type 0
FitsFcm (multicasts fids platform) = length fids ≤ fcm_max_batch_size
FitsFcm _ = Unit

module _ (d : FcmDispatcher) (env : FcmEnv) (devices : List Device) (msg : Message)
    (platform : Platform) where
  -- What an attempt adds: one request at most, for the FIDs of the batch.
  abbrev Attempt : Trace → Trace → Type 0
  Attempt t t' =
      (requests t' ≤ suc (requests t))
      × (length devices ≤ fcm_max_batch_size → All FitsFcm t → All FitsFcm t')

  call_client-Attempt : (t : Trace) → Attempt t (call_client d env devices msg platform t).1
  call_client-Attempt t =
      (omega arith, λ small fits. (omega (arith, small, length-map (λ dev. dev.fid) devices), fits))

  execute-Attempt :
      (t : Trace) (refusal : Option Error)
      → Attempt t (execute_send d env devices msg platform t refusal).1
  execute-Attempt t (some e) = (omega arith, λ small fits. fits)
  execute-Attempt t none = call_client-Attempt t

  enter-Attempt : (t : Trace) → Attempt t (enter_breaker d env devices msg platform t).1
  enter-Attempt t =
      let inside = execute-Attempt (enters ∷ t) (env.breaker_refuses t) in
      if_both (λ (x : (DispatchResult × Option Error) × Trace). Attempt t x.1) d.has_circuit_breaker
        _ _ (omega (arith, inside.0), λ small fits. inside.1 small (tt, fits))
        (call_client-Attempt t)

  after_wait-Attempt :
      (t : Trace) (refusal : Option Error)
      → Attempt t (after_wait d env devices msg platform t refusal).1
  after_wait-Attempt t (some e) = (omega arith, λ small fits. fits)
  after_wait-Attempt t none = enter-Attempt t

  send_batch-Attempt : (t : Trace) → Attempt t (send_batch d env devices msg platform t).1
  unfolding send_batch
  send_batch-Attempt t =
      let inside = after_wait-Attempt (waits ∷ t) (env.wait_reply t) in
      if_both (λ (x : (DispatchResult × Option Error) × Trace). Attempt t x.1) d.has_rate_limiter _
        _ (omega (arith, inside.0), λ small fits. inside.1 small (tt, fits)) (enter-Attempt t)

  -- What up to n attempts add.
  abbrev Attempts : ℕ → Trace → Trace → Type 0
  Attempts n t t' =
      (requests t' ≤ n + requests t)
      × (length devices ≤ fcm_max_batch_size → All FitsFcm t → All FitsFcm t')

  retry_loop-Attempts :
      (left attempt : ℕ) (last : (DispatchResult × Option Error) × Trace)
      → Attempts left last.1 (retry_loop left attempt d env devices msg platform last).1
  unfolding retry_loop
  retry_loop-Attempts zero attempt (last, t) = (omega arith, λ small fits. fits)
  retry_loop-Attempts (suc left) attempt (last, t) =
      let next = send_batch d env devices msg platform (checks ∷ t) in
      let one = send_batch-Attempt (checks ∷ t) in
      let rest = retry_loop-Attempts left (suc attempt) next in
      let P : DispatchResult × Trace → Type 0 = λ x. Attempts (suc left) t x.1 in
      if_both P (retry_again d attempt last) _ _
        (elim (Option-cases (env.cancelled t)) [
          | inl running ↦
              rw running
                (omega (arith, one.0, rest.0), λ small fits. rest.1 small (one.1 small (tt, fits)))
          | inr stopped ↦ rw stopped.1 (omega arith, λ small fits. (tt, fits))
        ])
        (omega arith, λ small fits. fits)

  -- A batch is requested at most MaxRetryAttempts times, or once where retry is off. Where it is
  -- within the limit of FCM, so is each request.
  pub send_one-Attempts :
      (t : Trace)
      → let x = send_one d env devices msg platform t in
        (requests x.1
          ≤ (if d.config.enable_retry then d.config.max_retry_attempts else 1) + requests t)
        × (length devices ≤ fcm_max_batch_size → All FitsFcm t → All FitsFcm x.1)
  unfolding send_one send_batch_with_retry
  send_one-Attempts t =
      let one = send_batch-Attempt t in
      let most = d.config.max_retry_attempts in
      let start = send_batch d env devices msg platform t in
      let loop = retry_loop-Attempts (most - 1) 0 start in
      let bound = if d.config.enable_retry then most else 1 in
      let P : DispatchResult × Trace → Type 0 = λ x. Attempts bound t x.1 in
      if_cases P d.config.enable_retry _ _
        (λ on.
          if_cases P (leb most 0) _ _ (λ none_left. (ground (arith, on), λ small fits. fits))
            (λ some_left. (
              ground (arith, on, some_left, one.0, loop.0),
              λ small fits. loop.1 small (one.1 small fits),
            )))
        (λ off. (ground (arith, off, one.0), one.1))

  checked-Fits :
      (t : Trace) (stopped : Option Error)
      → length devices ≤ fcm_max_batch_size
      → All FitsFcm t
      → All FitsFcm (checked_batch d env devices msg platform t stopped).1
  checked-Fits t (some e) small fits = fits
  checked-Fits t none small fits = (send_one-Attempts t).1 small fits

split-small :
    (ds : List Device)
    → All (λ (b : List Device). length b ≤ fcm_max_batch_size) (split ds fcm_max_batch_size)
unfolding split
split-small [] = (omega arith, tt)
split-small (d ∷ ds) =
    All-weaken (IsBatch fcm_max_batch_size) (λ b. length b ≤ fcm_max_batch_size)
      (split (d ∷ ds) fcm_max_batch_size) (λ b p. p.1)
      (split_covers (d ∷ ds) fcm_max_batch_size (omega arith) (omega arith)).1

module _ (d : FcmDispatcher) (env : FcmEnv) (msg : Message) where
  send_batch_list-Fits :
      (batches : List (List Device)) (platform : Platform) (x : DispatchResult × Trace)
      → All (λ (b : List Device). length b ≤ fcm_max_batch_size) batches
      → All FitsFcm x.1
      → All FitsFcm (send_batch_list d env batches msg platform x).1
  unfolding send_batch_list
  send_batch_list-Fits [] platform (result, t) small fits = fits
  send_batch_list-Fits (batch ∷ rest) platform (result, t) small fits =
      let one = checked_batch d env batch msg platform (checks ∷ t) (env.cancelled t) in
      send_batch_list-Fits rest platform (add_batch result one.0, one.1) small.1
        (checked-Fits d env batch msg platform (checks ∷ t) (env.cancelled t) small.0 (tt, fits))

  send_platform-Fits :
      (devices : List Device) (platform : Platform) (t : Trace)
      → All FitsFcm t
      → All FitsFcm (send_platform_batches d env devices msg platform t).1
  unfolding send_platform_batches
  send_platform-Fits devices platform t fits =
      send_batch_list-Fits (split devices fcm_max_batch_size) platform (no_dispatch, t)
        (split-small devices) fits

  send_groups-Fits :
      (groups : Map (List Device)) (x : DispatchResult × Trace)
      → All FitsFcm x.1
      → All FitsFcm (send_groups d env groups msg x).1
  unfolding send_groups
  send_groups-Fits [] (result, t) fits = fits
  send_groups-Fits ((platform, devices) ∷ rest) (result, t) fits =
      let r = send_platform_batches d env devices msg platform t in
      send_groups-Fits rest (add_platform result platform r.0, r.1)
        (send_platform-Fits devices platform t fits)

  send_sized-Fits :
      (devices : List Device) (t : Trace) (refusal : Option Error)
      → All FitsFcm t
      → All FitsFcm (send_sized d env devices msg t refusal).1
  send_sized-Fits devices t (some e) fits = fits
  send_sized-Fits devices t none fits =
      let groups = group_by_platform [] (deduplicate devices) in
      let x = send_groups d env groups msg (no_dispatch, t) in
      let sent = send_groups-Fits groups (no_dispatch, t) fits in
      if_both (λ (y : (DispatchResult × Option Error) × Trace). All FitsFcm y.1)
        (d.has_metrics && not (is_empty x.0.invalid_fids)) _ _ (tt, sent) sent

  -- Every multicast that Send requests, retries included, names at most 500 FIDs, the limit of
  -- FCM, for any devices and whatever the client, rate limiter, breaker and context answer.
  pub send_fits :
      (devices : List Device) (t : Trace) → All FitsFcm t → All FitsFcm (send d env devices msg t).1
  unfolding send
  send_fits [] t fits = fits
  send_fits (dev ∷ devs) t fits = send_sized-Fits (dev ∷ devs) t (env.validate_size msg) fits
