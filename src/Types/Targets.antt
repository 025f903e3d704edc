-- ===== src/Types/Targets.antt =====
-- NotificationTarget of topicrouter.go (DeviceTarget, TopicTarget), and the lifecycle payloads of
-- events.go with the event that goes to the bus.
use grnoti.Prelude.{ℕ, List, String}
use grnoti.Prelude.Maps.{Map}
use grnoti.Types.Devices.{Device}
use grnoti.Types.Events.{EventType}

pub data Target : Type 0 where
  device_target : List Device → Target
  topic_target : String → Target

pub record SentPayload : Type 0 where
  pub event_id : String
  pub user_id : String
  pub anonymous_id : String
  pub event_type : EventType
  pub success_count : ℕ
  pub failure_count : ℕ
  pub timestamp : ℕ

pub record FailedPayload : Type 0 where
  pub event_id : String
  pub user_id : String
  pub anonymous_id : String
  pub event_type : EventType
  pub failure_count : ℕ
  pub reason : String
  pub timestamp : ℕ

pub record AssignedPayload : Type 0 where
  pub user_id : String
  pub experiment_id : String
  pub variant_id : String
  pub timestamp : ℕ

pub data BusPayload : Type 0 where
  sent : SentPayload → BusPayload
  failed : FailedPayload → BusPayload
  assigned : AssignedPayload → BusPayload

pub record BusEvent : Type 0 where
  pub topic : String
  pub payload : BusPayload
  pub metadata : Map String
