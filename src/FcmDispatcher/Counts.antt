-- ===== src/FcmDispatcher/Counts.antt =====
-- The counts of one batch in dispatcher.fcm.go, with or without retries.
use mathlib.Core.Path.{subst}
use grnoti.Prelude.{
  ℕ, zero, suc, ◌+◌, ◌-◌, ◌≡◌, ◌≤◌, refl, ap, ◌∙◌, Bool, true, false, Option, none, some, Result,
  ok, err, List, [], ◌∷◌, String, map, arith, leb, if◌then◌else◌, if_cases, length,
  length-append_one, Bool-cases, inl, inr, Option-cases,
}
use grnoti.Types.{Platform, Device, Message, DispatchResult, no_dispatch, Error, FcmErrorCode}
use grnoti.FcmErrors.{classify_fcm_error}
use grnoti.FcmDispatcher.{
  config_is_valid, FcmDispatcher, FcmEnv, SendResponse, BatchResponse, Trace, checks, enters, waits,
  failed_batch, add_failure, add_response, add_responses, batch_result, call_client, execute_send,
  enter_breaker, after_wait, send_batch, retry_again,
}
use grnoti.FcmDispatcher.Send.{retry_loop, send_batch_with_retry, send_one, checked_batch}

abbrev pub failed : List SendResponse → ℕ
failed [] = 0
failed (r ∷ rs) = if r.success then failed rs else suc (failed rs)

-- What the Firebase library documents of a BatchResponse for n FIDs: a response for each, in two
-- counts by success.
pub record Complete (n : ℕ) (resp : BatchResponse) : Type 0 where
  pub one_each : length resp.responses ≡ n
  pub counts : resp.success_count + resp.failure_count ≡ n
  pub failures : failed resp.responses ≡ resp.failure_count

abbrev pub IsFcmClient : FcmEnv → Type 0
IsFcmClient env =
    (t : Trace) (fids : List String) (msg : Message) (platform : Platform) (resp : BatchResponse)
    → env.multicast_reply t fids msg platform ≡ ok resp
    → Complete (length fids) resp

-- A result that accounts for n recipients: each is a success or a failure, and no more failures
-- are reported as invalid FIDs or as worth a retry than there are.
pub record Accounts (n : ℕ) (r : DispatchResult) : Type 0 where
  pub all_counted : r.success_count + r.failure_count ≡ n
  pub classified : length r.invalid_fids + r.retryable_errors ≤ r.failure_count

abbrev pub spent : DispatchResult → ℕ
spent r = length r.invalid_fids + r.retryable_errors

add_failure-spent :
    (result : DispatchResult) (fid : String) (e : Error) (code : FcmErrorCode)
    → spent (add_failure result fid e code) ≤ suc (spent result)
add_failure-spent result fid e code = ground (arith, length-append_one result.invalid_fids fid)

-- What the loop over responses may add to a result: no more than n classified failures.
abbrev Adds : ℕ → DispatchResult → DispatchResult → Type 0
Adds n result x =
    (x.success_count ≡ result.success_count)
    × (x.failure_count ≡ result.failure_count)
    × (spent x ≤ n + spent result)

add_response-Adds :
    (env : FcmEnv) (result : DispatchResult) (fid : String) (success : Bool) (error : Option Error)
    → Adds (if success then 0 else 1) result (add_response env result fid success error)
add_response-Adds env result fid true error = (refl, refl, omega arith)
add_response-Adds env result fid false none = (refl, refl, omega arith)
add_response-Adds env result fid false (some e) =
    (refl, refl, omega (arith, add_failure-spent result fid e (classify_fcm_error env.is_kind e)))

add_responses-Adds :
    (env : FcmEnv) (result : DispatchResult) (rs : List SendResponse) (fids : List String)
    → Adds (failed rs) result (add_responses env result rs fids)
unfolding add_responses
add_responses-Adds env result [] fids = (refl, refl, omega arith)
add_responses-Adds env result (r ∷ rs) [] = (refl, refl, omega arith)
add_responses-Adds env result (r ∷ rs) (fid ∷ fids) =
    let next = add_response env result fid r.success r.error in
    let one = add_response-Adds env result fid r.success r.error in
    let rest = add_responses-Adds env next rs fids in
    (rest.0 ∙ one.0, rest.1 ∙ one.1, ground (arith, one.2, rest.2))

pub length-map : (f : Device → String) (ds : List Device) → length (map f ds) ≡ length ds
length-map f [] = refl
length-map f (d ∷ ds) = ap suc (length-map f ds)

failed-Accounts :
    (devices : List Device) (e : Error) → Accounts (length devices) (failed_batch devices e)
failed-Accounts devices e = record { all_counted = omega arith; classified = omega arith }

batch-Accounts :
    (env : FcmEnv) (devices : List Device) (fids : List String) (reply : Result Error BatchResponse)
    → ((resp : BatchResponse) → reply ≡ ok resp → Complete (length devices) resp)
    → Accounts (length devices) (batch_result env devices fids reply).0
batch-Accounts env devices fids (err e) c = failed-Accounts devices e
batch-Accounts env devices fids (ok resp) c =
    let start : DispatchResult = record no_dispatch {
      success_count = resp.success_count;
      failure_count = resp.failure_count;
    } in
    let adds = add_responses-Adds env start resp.responses fids in
    let complete = c resp refl in
    record {
      all_counted = omega (arith, adds.0, adds.1, complete.counts);
      classified = omega (arith, adds.1, adds.2, complete.failures);
    }

module _ (d : FcmDispatcher) (env : FcmEnv) (client : IsFcmClient env) (devices : List Device)
    (msg : Message) (platform : Platform) where
  call_client-Accounts :
      (t : Trace) → Accounts (length devices) (call_client d env devices msg platform t).0.0
  call_client-Accounts t =
      let fids = map (λ (dev : Device). dev.fid) devices in
      batch-Accounts env devices fids (env.multicast_reply t fids msg platform) (λ resp e.
        subst (λ n. Complete n resp) (length-map (λ dev. dev.fid) devices)
          (client t fids msg platform resp e))

  execute-Accounts :
      (t : Trace) (refusal : Option Error)
      → Accounts (length devices) (execute_send d env devices msg platform t refusal).0.0
  execute-Accounts t (some e) = failed-Accounts devices e
  execute-Accounts t none = call_client-Accounts t

  enter-Accounts :
      (t : Trace) → Accounts (length devices) (enter_breaker d env devices msg platform t).0.0
  enter-Accounts t = elim (Bool-cases d.has_circuit_breaker) [
    | inl on ↦ rw on (execute-Accounts (enters ∷ t) (env.breaker_refuses t))
    | inr off ↦ rw off (call_client-Accounts t)
  ]

  after_wait-Accounts :
      (t : Trace) (refusal : Option Error)
      → Accounts (length devices) (after_wait d env devices msg platform t refusal).0.0
  after_wait-Accounts t (some e) = failed-Accounts devices _
  after_wait-Accounts t none = enter-Accounts t

  pub send_batch-Accounts :
      (t : Trace) → Accounts (length devices) (send_batch d env devices msg platform t).0.0
  unfolding send_batch
  send_batch-Accounts t = elim (Bool-cases d.has_rate_limiter) [
    | inl on ↦ rw on (after_wait-Accounts (waits ∷ t) (env.wait_reply t))
    | inr off ↦ rw off (enter-Accounts t)
  ]

  retry_loop-Accounts :
      (left attempt : ℕ) (last : (DispatchResult × Option Error) × Trace)
      → Accounts (length devices) last.0.0
      → Accounts (length devices) (retry_loop left attempt d env devices msg platform last).0
  unfolding retry_loop
  retry_loop-Accounts zero attempt (last, t) v = v
  retry_loop-Accounts (suc left) attempt (last, t) v =
      elim (Bool-cases (retry_again d attempt last)) [
        | inl again ↦ elim (Option-cases (env.cancelled t)) [
          | inl running ↦
              rw (again, running)
                (retry_loop-Accounts left (suc attempt)
                  (send_batch d env devices msg platform (checks ∷ t))
                  (send_batch-Accounts (checks ∷ t)))
          | inr stopped ↦
              rw (again, stopped.1)
                (record { all_counted = v.all_counted; classified = v.classified })
        ]
        | inr enough ↦ rw enough v
      ]

  -- With the configuration that NewFCMDispatcher accepts, a batch is accounted for.
  pub send_one-Accounts :
      config_is_valid d.config ≡ true
      → (t : Trace) → Accounts (length devices) (send_one d env devices msg platform t).0
  unfolding send_one send_batch_with_retry config_is_valid
  send_one-Accounts valid t =
      let P : DispatchResult × Trace → Type 0 = λ x. Accounts (length devices) x.0 in
      if_cases P d.config.enable_retry _ _
        (λ on.
          if_cases P (leb d.config.max_retry_attempts 0) _ _
            (λ none_left. ground (arith, valid, on, none_left))
            (λ some_left.
              retry_loop-Accounts (d.config.max_retry_attempts - 1) 0
                (send_batch d env devices msg platform t) (send_batch-Accounts t)))
        (λ off. send_batch-Accounts t)

  pub checked-Accounts :
      config_is_valid d.config ≡ true
      → (t : Trace) (stopped : Option Error)
      → Accounts (length devices) (checked_batch d env devices msg platform t stopped).0
  checked-Accounts valid t (some e) = failed-Accounts devices e
  checked-Accounts valid t none = send_one-Accounts valid t
