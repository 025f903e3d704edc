-- ===== src/EventTypes/Tests.antt =====
-- Runs of the event type registry.
use grnoti.Prelude.{◌≡◌, refl, false, some, [], ◌∷◌}
use grnoti.Types.{err_invalid_event_type, event_type_is_valid}
use grnoti.Templates.Engine.{event_type_custom}
use grnoti.EventTypes.{EventTypeMetadata, new_event_type_registry, register_type, all_types}

abbrev meta : EventTypeMetadata
meta = record {
  default_priority = "normal";
  category = "social";
  transactional = false;
  requires_immediate_delivery = false;
  can_be_scheduled = false;
  should_include_in_digest = false;
  max_retries = 3;
  retry_delay_multiplier = (3, 2);
  description = "";
}

no_empty_type : (register_type [] "" meta).0 ≡ some err_invalid_event_type
unfolding register_type event_type_is_valid
no_empty_type = refl

default_types :
    all_types new_event_type_registry
    ≡ event_type_custom ∷ "system_alert" ∷ "account_verification" ∷ "password_reset"
      ∷ "generic_transactional" ∷ "generic_marketing" ∷ []
unfolding all_types
default_types = refl
