-- ===== src/FcmDispatcher.antt =====
-- dispatcher.fcm.go: fcmDispatcher. What it calls (the FCM client, the rate limiter, the circuit
-- breaker, the payload validator, the context) answers from an environment that sees the calls
-- made before. The goroutines of Send, one for each platform, run one after the other here. The
-- message that the client gets is build_multicast_message (Messages) of what the call shows.
pub mod Send
pub mod Messages
pub mod Single
pub mod Counts
pub mod Accounting
pub mod Attempts
pub mod Tests
use grnoti.Prelude.{
  ℕ, zero, suc, ◌+◌, Bool, true, false, ◌&&◌, ◌||◌, not, Option, none, some, Result, ok, err, List,
  [], ◌∷◌, ◌++◌, String, map, ltb, leb, if◌then◌else◌, length, is_some,
}
use grnoti.Prelude.Int.{pos}
use grnoti.Types.{
  Platform, Device, Message, DispatchResult, no_dispatch, Error, FcmErrorCode, fcm_error, wrapped,
  is_permanent, is_retryable,
}
use grnoti.FcmErrors.{description, classify_fcm_error}
use grnoti.Backoff.{FullJitterRetry, should_retry}

pub record FcmDispatcherConfig : Type 0 where
  pub enable_retry : Bool
  pub max_retry_attempts : ℕ
  pub retry_base_delay : ℕ
  pub retry_max_delay : ℕ

-- fcmDispatcher: its configuration, and which optional collaborators are set.
pub record FcmDispatcher : Type 0 where
  pub config : FcmDispatcherConfig
  pub has_rate_limiter : Bool
  pub has_circuit_breaker : Bool
  pub has_metrics : Bool

-- messaging.SendResponse and messaging.BatchResponse of the Firebase library.
pub record SendResponse : Type 0 where
  pub success : Bool
  pub error : Option Error

pub record BatchResponse : Type 0 where
  pub success_count : ℕ
  pub failure_count : ℕ
  pub responses : List SendResponse

pub data FcmCall : Type 0 where
  waits enters checks : FcmCall
  multicasts : List String → Platform → FcmCall
  counts_invalid : ℕ → FcmCall

-- The calls made so far, the latest first.
abbrev pub Trace : Type 0
Trace = List FcmCall

-- RateLimiter.Wait, a refusal of CircuitBreaker.Execute, ctx.Err, PayloadValidator.ValidateSize,
-- SendEachForMulticast, and the checks messaging.IsX.
pub record FcmEnv : Type 0 where
  pub wait_reply : Trace → Option Error
  pub breaker_refuses : Trace → Option Error
  pub cancelled : Trace → Option Error
  pub validate_size : Message → Option Error
  pub multicast_reply : Trace → List String → Message → Platform → Result Error BatchResponse
  pub is_kind : FcmErrorCode → Error → Bool

-- NewFCMDispatcher's check of its configuration.
unfoldable pub config_is_valid : FcmDispatcherConfig → Bool
config_is_valid config = not (config.enable_retry && leb config.max_retry_attempts 0)

-- A batch that fails as a whole.
abbrev pub failed_batch : List Device → Error → DispatchResult
failed_batch devices e = record no_dispatch { failure_count = length devices; errors = e ∷ [] }

-- What one failed response adds to the result.
abbrev pub add_failure : DispatchResult → String → Error → FcmErrorCode → DispatchResult
add_failure result fid e code = record result {
  errors = result.errors ++ (fcm_error code fid (description code) e ∷ []);
  invalid_fids =
      if is_permanent code then result.invalid_fids ++ (fid ∷ []) else result.invalid_fids;
  retryable_errors =
      if not (is_permanent code) && is_retryable code
      then suc result.retryable_errors
      else result.retryable_errors;
}

abbrev pub add_response : FcmEnv → DispatchResult → String → Bool → Option Error → DispatchResult
add_response env result fid true error = result
add_response env result fid false none = result
add_response env result fid false (some e) =
    add_failure result fid e (classify_fcm_error env.is_kind e)

-- The loop over the responses, each with its FID. The client answers one for each FID; a failed
-- one past the FIDs would be a panic, and is left out here.
unfoldable pub add_responses :
    FcmEnv → DispatchResult → List SendResponse → List String → DispatchResult
add_responses env result [] fids = result
add_responses env result (r ∷ rs) [] = result
add_responses env result (r ∷ rs) (fid ∷ fids) =
    add_responses env (add_response env result fid r.success r.error) rs fids

abbrev pub batch_result :
    FcmEnv → List Device → List String → Result Error BatchResponse → DispatchResult × Option Error
batch_result env devices fids (err e) = (failed_batch devices e, some e)
batch_result env devices fids (ok resp) = (
  add_responses env
      (record no_dispatch {
        success_count = resp.success_count;
        failure_count = resp.failure_count;
      })
      resp.responses fids,
  none,
)

-- sendFn, which the circuit breaker may refuse to run.
abbrev pub call_client :
    FcmDispatcher
    → FcmEnv
    → List Device
    → Message
    → Platform
    → Trace
    → (DispatchResult × Option Error) × Trace
call_client d env devices msg platform t =
    let fids = map (λ (dev : Device). dev.fid) devices in
    (
      batch_result env devices fids (env.multicast_reply t fids msg platform),
      multicasts fids platform ∷ t,
    )

abbrev pub execute_send :
    FcmDispatcher
    → FcmEnv
    → List Device
    → Message
    → Platform
    → Trace
    → Option Error
    → (DispatchResult × Option Error) × Trace
execute_send d env devices msg platform t (some e) = ((failed_batch devices e, some e), t)
execute_send d env devices msg platform t none = call_client d env devices msg platform t

abbrev pub enter_breaker :
    FcmDispatcher
    → FcmEnv
    → List Device
    → Message
    → Platform
    → Trace
    → (DispatchResult × Option Error) × Trace
enter_breaker d env devices msg platform t =
    if d.has_circuit_breaker
    then execute_send d env devices msg platform (enters ∷ t) (env.breaker_refuses t)
    else call_client d env devices msg platform t

abbrev pub after_wait :
    FcmDispatcher
    → FcmEnv
    → List Device
    → Message
    → Platform
    → Trace
    → Option Error
    → (DispatchResult × Option Error) × Trace
after_wait d env devices msg platform t (some e) =
    ((failed_batch devices (wrapped "grnoti/fcm: rate limiter wait" e), some e), t)
after_wait d env devices msg platform t none = enter_breaker d env devices msg platform t

unfoldable pub send_batch :
    FcmDispatcher
    → FcmEnv
    → List Device
    → Message
    → Platform
    → Trace
    → (DispatchResult × Option Error) × Trace
unfolding add_responses
send_batch d env devices msg platform t =
    if d.has_rate_limiter
    then after_wait d env devices msg platform (waits ∷ t) (env.wait_reply t)
    else enter_breaker d env devices msg platform t

-- The strategy that NewFCMDispatcher makes when retry is enabled.
abbrev pub retry_strategy : FcmDispatcher → FullJitterRetry
retry_strategy d = record {
  max_attempts = pos d.config.max_retry_attempts;
  base_delay = d.config.retry_base_delay;
  max_delay = d.config.retry_max_delay;
}

unfoldable pub retry_again : FcmDispatcher → ℕ → DispatchResult × Option Error → Bool
retry_again d attempt (result, none) = ltb 0 result.retryable_errors
retry_again d attempt (result, some e) = should_retry (retry_strategy d) (pos attempt) (some e)

-- ctx.Done while waiting for the next attempt: the error is added to the last result.
abbrev pub cut_short : DispatchResult → Error → DispatchResult
cut_short result e = record result { errors = result.errors ++ (e ∷ []) }
