-- ===== src/FcmDispatcher/Tests.antt =====
-- Runs of the FCM dispatcher, and its theorems against a concrete client.
use mathlib.Core.Path.{subst}
use grnoti.Prelude.{
  ◌≡◌, refl, ap, true, false, none, some, ok, err, List, [], ◌∷◌, String, arith, length, All,
  Result, map,
}
use grnoti.Prelude.Int.{pos}
use grnoti.Types.{Message, Error, message, unregistered}
use grnoti.BatchSplitter.{deduplicate}
use grnoti.BatchSplitter.Tests.{five}
use grnoti.FcmErrors.{
  classify_text, contains_any_fold, contains_any, contains_text, is_prefix, to_lower,
}
use grnoti.FcmDispatcher.Messages.{MessageTexts, build_android_config, build_topic_message}
use grnoti.FcmDispatcher.Single.{send_to_topic, validates}
use grnoti.Types.{err_fcm_payload_too_large}
use grnoti.FcmDispatcher.{config_is_valid, FcmDispatcher, FcmEnv, SendResponse, BatchResponse}
use grnoti.FcmDispatcher.Send.{send}
use grnoti.FcmDispatcher.Counts.{failed, Complete, IsFcmClient, Accounts}
use grnoti.FcmDispatcher.Accounting.{send-Accounts}
use grnoti.FcmDispatcher.Attempts.{FitsFcm, send_fits}

abbrev dispatcher : FcmDispatcher
dispatcher = record {
  config = record {
    enable_retry = true;
    max_retry_attempts = 3;
    retry_base_delay = 5;
    retry_max_delay = 50;
  };
  has_rate_limiter = false;
  has_circuit_breaker = true;
  has_metrics = true;
}

abbrev hello : Message
hello = record {
  title = "hello";
  body = "";
  payload = [];
  image_url = "";
  priority = "high";
  ttl = pos 0;
  collapse_key = "";
  channel_id = "";
  badge = none;
  sound = "";
  actions = [];
  deep_link = "";
  category = "";
}

-- A client that has lost every FID.
abbrev lost : SendResponse
lost = record { success = false; error = some (message "Unregistered") }

abbrev losses : List String → List SendResponse
losses = map (λ fid. lost)

abbrev losing : FcmEnv
losing = record {
  wait_reply = λ t. none;
  breaker_refuses = λ t. none;
  cancelled = λ t. none;
  validate_size = λ msg. none;
  multicast_reply = λ t fids msg platform.
      ok (record { success_count = 0; failure_count = length fids; responses = losses fids });
  is_kind = λ code e. false;
}

length-losses : (fids : List String) → length (losses fids) ≡ length fids
length-losses [] = refl
length-losses (fid ∷ fids) = omega (arith, length-losses fids)

failed-losses : (fids : List String) → failed (losses fids) ≡ length fids
failed-losses [] = refl
failed-losses (fid ∷ fids) = omega (arith, failed-losses fids)

losses-Complete :
    (fids : List String)
    → Complete
        (length fids)
        (record { success_count = 0; failure_count = length fids; responses = losses fids })
losses-Complete fids = record {
  one_each = length-losses fids;
  counts = omega arith;
  failures = failed-losses fids;
}

dispatcher_is_valid : config_is_valid dispatcher.config ≡ true
unfolding config_is_valid
dispatcher_is_valid = refl

abbrev reply_of : BatchResponse → Result Error BatchResponse → BatchResponse
reply_of other (ok resp) = resp
reply_of other (err e) = other

losing-IsFcmClient : IsFcmClient losing
losing-IsFcmClient t fids msg platform resp e =
    subst (λ r. Complete (length fids) r) (ap (reply_of resp) e) (losses-Complete fids)

unregistered_by_text : classify_text "FCM: NotRegistered (404)" ≡ unregistered
unfolding classify_text contains_any_fold contains_any contains_text is_prefix to_lower
unregistered_by_text = refl

send-Accounts_example :
    Accounts (length (deduplicate five)) (send dispatcher losing five hello []).0.0
send-Accounts_example =
    send-Accounts dispatcher losing losing-IsFcmClient dispatcher_is_valid hello five []

send_fits_example : All FitsFcm (send dispatcher losing five hello []).1
send_fits_example = send_fits dispatcher losing hello five [] tt

abbrev plain_texts : MessageTexts
plain_texts = record {
  actions_json = λ actions. none;
  expiration_after = λ ttl. "0";
  seconds_of = λ ttl. "0";
}

-- A message that is too large is not sent.
too_large_is_not_sent :
    send_to_topic dispatcher
      (record {
        validate_size = λ msg. some err_fcm_payload_too_large;
        wait_reply = λ t. none;
        breaker_refuses = λ t. none;
        send_reply = λ t m. none;
        is_kind = λ code e. false;
      })
      plain_texts
      "news"
      hello
      []
    ≡ (some err_fcm_payload_too_large, validates ∷ [])
unfolding send_to_topic build_topic_message
too_large_is_not_sent = refl

no_data_without_extras :
    (build_android_config plain_texts
      (record hello { deep_link = ""; actions = []; category = "" })).values
    ≡ none
unfolding build_android_config
no_data_without_extras = refl
