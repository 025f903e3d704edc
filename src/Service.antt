-- ===== src/Service.antt =====
-- service.go and ServiceConfig of types.go: the notification service. Its configuration and its
-- optional collaborators stand here; the children hold the pipeline, part by part, and the proofs.
pub mod Effects
pub mod Dispatch
pub mod Pipeline
pub mod Lifecycle
pub mod Tally
pub mod Effect
pub mod Delivery
pub mod Lost
pub mod Batching
pub mod Tests
use grnoti.Prelude.{ℕ, ◌*◌, ◌^◌, Bool, true, false}
use grnoti.Prelude.Int.{ℤ, pos}

-- MaxDevicesPerBatch is an int: one that is at most 0 is 0 here, and no code tells them apart.
pub record ServiceConfig : Type 0 where
  pub idempotency_ttl : ℤ
  pub max_devices_per_batch : ℕ
  pub enable_metrics : Bool
  pub skip_invalid_events : Bool
  pub enable_device_deduplication : Bool
  pub enforce_batching : Bool
  pub enable_preferences_filter : Bool
  pub enable_topic_routing : Bool
  pub enable_rich_push : Bool
  pub enable_localization : Bool
  pub enable_backpressure : Bool
  pub enable_ab_testing : Bool
  pub enable_dlq : Bool
  pub enable_event_bus : Bool

abbrev pub default_service_config : ServiceConfig
default_service_config = record {
  idempotency_ttl = pos (24 * 3600 * 10 ^ 9);
  max_devices_per_batch = 500;
  enable_metrics = true;
  skip_invalid_events = false;
  enable_device_deduplication = false;
  enforce_batching = false;
  enable_preferences_filter = false;
  enable_topic_routing = false;
  enable_rich_push = false;
  enable_localization = false;
  enable_backpressure = false;
  enable_ab_testing = false;
  enable_dlq = true;
  enable_event_bus = false;
}

-- notificationService: which optional collaborators are not nil. The required ones always answer.
pub record Service : Type 0 where
  pub config : ServiceConfig
  pub has_preferences_filter : Bool
  pub has_topic_router : Bool
  pub has_dlq_handler : Bool
  pub has_bus : Bool
  pub has_metrics : Bool
