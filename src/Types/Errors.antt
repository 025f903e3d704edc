-- ===== src/Types/Errors.antt =====
-- errors.go, with the two sentinels of circuitbreaker.go and the one of workerpool.go. A Go
-- `error` that may be nil is an `Option Error`.
use grnoti.Prelude.{Bool, true, false, String, concat}

pub data FcmErrorCode : Type 0 where
  unspecified invalid_argument unregistered sender_id_mismatch quota_exceeded : FcmErrorCode
  unavailable internal third_party_auth_err : FcmErrorCode

-- `message` is an error of a library, by its text; `wrapped` is fmt.Errorf("text: %w", err),
-- and `joined` is errors.Join of two errors.
pub data Error : Type 0 where
  err_closed err_backend_unavailable err_invalid_event_id err_no_target_specified : Error
  err_invalid_fid err_invalid_event_type err_invalid_priority err_template_not_found : Error
  err_preferences_not_found err_preferences_user_id_required err_experiment_not_found : Error
  err_experiment_already_exists err_experiment_has_no_variants err_dlq_event_not_found : Error
  err_dlq_event_not_claimed err_fcm_client_nil err_fcm_payload_too_large : Error
  err_circuit_open err_too_many_requests err_worker_pool_full : Error
  fcm_error : FcmErrorCode → String → String → Error → Error
  wrapped : String → Error → Error
  joined : Error → Error → Error
  message : String → Error

-- FCMErrorCode.IsRetryable
unfoldable pub is_retryable : FcmErrorCode → Bool
is_retryable unavailable = true
is_retryable internal = true
is_retryable quota_exceeded = true
is_retryable _ = false

-- FCMErrorCode.IsPermanent
unfoldable pub is_permanent : FcmErrorCode → Bool
is_permanent unregistered = true
is_permanent invalid_argument = true
is_permanent sender_id_mismatch = true
is_permanent _ = false

-- The text of a code, as `string(e.Code)`.
unfoldable pub code_text : FcmErrorCode → String
code_text unspecified = "unspecified"
code_text invalid_argument = "invalid_argument"
code_text unregistered = "unregistered"
code_text sender_id_mismatch = "sender_id_mismatch"
code_text quota_exceeded = "quota_exceeded"
code_text unavailable = "unavailable"
code_text internal = "internal"
code_text third_party_auth_err = "third_party_auth_error"

-- err.Error()
unfoldable pub error_text : Error → String
error_text err_closed = "grnoti: closed"
error_text err_backend_unavailable = "grnoti: backend unavailable"
error_text err_invalid_event_id = "grnoti: event id is required"
error_text err_no_target_specified =
    "grnoti: at least one of user id, anonymous id, or FIDs is required"
error_text err_invalid_fid = "grnoti: invalid firebase installation id (fid)"
error_text err_invalid_event_type = "grnoti: invalid event type"
error_text err_invalid_priority = "grnoti: invalid priority"
error_text err_template_not_found = "grnoti: template not found for event type"
error_text err_preferences_not_found = "grnoti: preferences not found"
error_text err_preferences_user_id_required = "grnoti: preferences user id is required"
error_text err_experiment_not_found = "grnoti: experiment not found"
error_text err_experiment_already_exists = "grnoti: experiment already exists"
error_text err_experiment_has_no_variants = "grnoti: experiment has no variants"
error_text err_dlq_event_not_found = "grnoti: dead-letter event not found"
error_text err_dlq_event_not_claimed =
    "grnoti: dead-letter event is not in a claimed (retrying) state"
error_text err_fcm_client_nil = "grnoti: fcm client is nil"
error_text err_fcm_payload_too_large = "grnoti: fcm payload exceeds maximum size"
error_text err_circuit_open = "grnoti: circuit breaker is open"
error_text err_too_many_requests = "grnoti: too many requests while circuit breaker is half-open"
error_text err_worker_pool_full = "grnoti: worker pool queue is full"
error_text (fcm_error c fid text e) =
    concat "grnoti: fcm send failed ("
      (concat (code_text c) (concat "): " (concat text (concat ": " (error_text e)))))
error_text (wrapped text e) = concat text (concat ": " (error_text e))
error_text (joined e f) = concat (error_text e) (concat "\n" (error_text f))
error_text (message text) = text
