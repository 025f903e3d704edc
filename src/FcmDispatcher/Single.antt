-- ===== src/FcmDispatcher/Single.antt =====
-- dispatcher.fcm.go: SendToDevice and SendToTopic, one message each. What they call answers from an
-- environment that sees the calls made before, as in the parent.
use grnoti.Prelude.{Bool, Option, none, some, List, ◌∷◌, String, if◌then◌else◌}
use grnoti.Types.{Device, Message, Error, FcmErrorCode, fcm_error, wrapped}
use grnoti.FcmErrors.{description, classify_fcm_error}
use grnoti.FcmDispatcher.{FcmDispatcher}
use grnoti.FcmDispatcher.Messages.{MessageTexts, FcmMessage, build_fcm_message, build_topic_message}

pub data SingleCall : Type 0 where
  validates waits enters : SingleCall
  sends : FcmMessage → SingleCall

-- The calls made so far, the latest first.
abbrev pub SingleTrace : Type 0
SingleTrace = List SingleCall

pub record SingleEnv : Type 0 where
  pub validate_size : Message → Option Error
  pub wait_reply : SingleTrace → Option Error
  pub breaker_refuses : SingleTrace → Option Error
  pub send_reply : SingleTrace → FcmMessage → Option Error
  pub is_kind : FcmErrorCode → Error → Bool

abbrev pub SingleReply : Type 0
SingleReply = Option Error × SingleTrace

-- sendFn, alone or in the circuit breaker.
abbrev pub send_message : SingleEnv → FcmMessage → SingleTrace → SingleReply
send_message env m t = (env.send_reply t m, sends m ∷ t)

abbrev pub if_admitted : SingleEnv → FcmMessage → SingleTrace → Option Error → SingleReply
if_admitted env m t (some e) = (some e, t)
if_admitted env m t none = send_message env m t

abbrev pub through_breaker : FcmDispatcher → SingleEnv → FcmMessage → SingleTrace → SingleReply
through_breaker d env m t =
    if d.has_circuit_breaker
    then if_admitted env m (enters ∷ t) (env.breaker_refuses t)
    else send_message env m t

abbrev pub if_waited :
    FcmDispatcher
    → SingleEnv
    → FcmMessage
    → (Error → Error)
    → SingleTrace
    → Option Error
    → SingleReply
if_waited d env m report t (some e) = (some (wrapped "grnoti/fcm: rate limiter wait" e), t)
if_waited d env m report t none =
    let r = through_breaker d env m t in (elim r.0 [ none ↦ none | some e ↦ some (report e) ], r.1)

-- The two methods, up to what they make of a failed send.
abbrev pub send_single :
    FcmDispatcher
    → SingleEnv
    → Message
    → FcmMessage
    → (Error → Error)
    → SingleTrace
    → Option Error
    → SingleReply
send_single d env msg m report t (some e) = (some e, t)
send_single d env msg m report t none =
    if d.has_rate_limiter
    then if_waited d env m report (waits ∷ t) (env.wait_reply t)
    else if_waited d env m report t none

abbrev pub as_device_error : SingleEnv → String → Error → Error
as_device_error env fid e =
    let code = classify_fcm_error env.is_kind e in fcm_error code fid (description code) e

unfoldable pub send_to_device :
    FcmDispatcher → SingleEnv → MessageTexts → Device → Message → SingleTrace → SingleReply
send_to_device d env texts device msg t =
    send_single d env msg (build_fcm_message texts device.fid msg device.platform)
      (as_device_error env device.fid) (validates ∷ t) (env.validate_size msg)

unfoldable pub send_to_topic :
    FcmDispatcher → SingleEnv → MessageTexts → String → Message → SingleTrace → SingleReply
send_to_topic d env texts topic msg t =
    send_single d env msg (build_topic_message texts topic msg) (λ e. e) (validates ∷ t)
      (env.validate_size msg)
