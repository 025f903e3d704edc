-- ===== src/Calls.antt =====
-- What the service and the engines call through interfaces: a method call is an action that adds
-- the call to a history and takes its answer from an environment. An answer may depend on all the
-- calls before it, so an environment stands for any implementation with any state of its own. The
-- clock is read the same way. Log lines are left out: nothing reads them.
use grnoti.Prelude.{ℕ, Bool, List, ◌∷◌, Option, String, Result}
use grnoti.Prelude.Int.{ℤ}
use grnoti.Types.{
  Error, Event, EventType, Device, Platform, Message, DispatchResult, Target, BusEvent,
}

pub data Call : Type 0 where
  -- IdempotencyStore
  is_processed : String → Call
  mark_processed : String → ℤ → Call
  -- PreferencesFilter, TemplateEngine, TopicRouter
  should_send_notification : Event → Call
  build_message : Event → Call
  resolve_target : Event → Call
  -- DeviceStore
  get_active_devices : String → Call
  get_active_devices_by_anonymous_id : String → Call
  mark_invalid : String → Call
  -- PushDispatcher
  send : List Device → Message → Call
  send_to_topic : String → Message → Call
  -- DLQHandler, grevents.Bus
  publish_to_dlq : Event → String → Call
  publish : BusEvent → Call
  -- Metrics
  inc_events_skipped : String → Call
  inc_notifications_processed : Call
  inc_notifications_sent : EventType → Platform → ℕ → Call
  inc_notifications_failed : EventType → Platform → ℕ → Call
  observe_dispatch_latency : EventType → Platform → ℕ → Call
  observe_processing_latency : ℕ → Call

-- The calls made so far, the latest first.
abbrev pub History : Type 0
History = List Call

pub record Env : Type 0 where
  pub now : History → ℕ
  pub is_processed_reply : History → String → Result Error Bool
  pub mark_processed_reply : History → String → ℤ → Option Error
  pub should_send_reply : History → Event → Bool × String × Option Error
  pub build_message_reply : History → Event → Result Error Message
  pub resolve_target_reply : History → Event → Result Error Target
  pub active_devices_reply : History → String → Result Error (List Device)
  pub anonymous_devices_reply : History → String → Result Error (List Device)
  pub mark_invalid_reply : History → String → Option Error
  pub send_reply : History → List Device → Message → DispatchResult × Option Error
  pub send_to_topic_reply : History → String → Message → Option Error
  pub publish_to_dlq_reply : History → Event → String → Option Error
  pub publish_reply : History → BusEvent → Option Error
  -- fmt.Sprintf("%s (and %d more)", text, count)
  pub and_more : String → ℕ → String

-- A method that calls others: its result, and the history it leaves.
abbrev pub Go {ℓ} : Type ℓ → Type ℓ
Go A = Env → History → A × History

module _ {ℓ} {A : Type ℓ} where
  abbrev pub pure : A → Go A
  pure a env h = (a, h)

  -- A call whose answer is `reply`.
  abbrev pub ask : Call → (Env → History → A) → Go A
  ask call reply env h = (reply env h, call ∷ h)

-- A call whose answer is not looked at.
abbrev pub tell : Call → Go (Unit {0})
tell call env h = (tt, call ∷ h)

abbrev pub read_clock : Go ℕ
read_clock env h = (env.now h, h)

infixl 5 ◌>>=◌ ◌>>◌
abbrev pub ◌>>=◌ {ℓ κ} : {A : Type ℓ} {B : Type κ} → Go A → (A → Go B) → Go B
◌>>=◌ m f env h = f (m env h).0 env (m env h).1

abbrev pub ◌>>◌ {ℓ} : {B : Type ℓ} → Go (Unit {0}) → Go B → Go B
◌>>◌ m k env h = k env (m env h).1
