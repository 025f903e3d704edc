-- ===== src/EventTypes.antt =====
-- eventtypes.go: EventTypeMetadata and eventTypeRegistry. RetryDelayMultiplier, a float, is the
-- fraction of two numbers; an int at most 0 is 0.
pub mod Tests
use grnoti.Prelude.{
  ℕ, Bool, true, false, Option, none, some, List, [], ◌∷◌, String, map, if◌then◌else◌,
}
use grnoti.Prelude.Maps.{Map, lookup, insert}
use grnoti.Types.{Error, err_invalid_event_type, EventType, Priority, event_type_is_valid}
use grnoti.Templates.Engine.{
  event_type_custom, category_transactional, category_marketing, category_alert,
}

pub record EventTypeMetadata : Type 0 where
  pub default_priority : Priority
  pub category : String
  pub transactional : Bool
  pub requires_immediate_delivery : Bool
  pub can_be_scheduled : Bool
  pub should_include_in_digest : Bool
  pub max_retries : ℕ
  pub retry_delay_multiplier : ℕ × ℕ
  pub description : String

-- eventTypeRegistry
abbrev pub EventTypeRegistry : Type 0
EventTypeRegistry = Map EventTypeMetadata

-- Metadata with these fields, and Go's zero values for the others.
abbrev of_category : Priority → String → String → EventTypeMetadata
of_category priority category description = record {
  default_priority = priority;
  category = category;
  transactional = false;
  requires_immediate_delivery = false;
  can_be_scheduled = false;
  should_include_in_digest = false;
  max_retries = 0;
  retry_delay_multiplier = (0, 1);
  description = description;
}

abbrev immediate : EventTypeMetadata → EventTypeMetadata
immediate meta = record meta { transactional = true; requires_immediate_delivery = true }

abbrev deferrable : EventTypeMetadata → EventTypeMetadata
deferrable meta = record meta { can_be_scheduled = true; should_include_in_digest = true }

-- NewEventTypeRegistry
abbrev pub new_event_type_registry : EventTypeRegistry
new_event_type_registry =
    (
      event_type_custom,
      of_category "normal" category_transactional
          "Fallback type for anything not otherwise registered.",
    )
    ∷ (
      "system_alert",
      immediate (of_category "high" category_alert "Generic operational/system notification."),
    )
    ∷ (
      "account_verification",
      immediate
          (of_category "high" category_transactional "Generic account-verification notification."),
    )
    ∷ (
      "password_reset",
      immediate (of_category "high" category_transactional "Generic password-reset notification."),
    )
    ∷ (
      "generic_transactional",
      immediate (
          of_category "normal" category_transactional
            "Generic transactional notification with no more specific type registered."),
    )
    ∷ (
      "generic_marketing",
      deferrable
          (of_category "low" category_marketing "Generic promotional/marketing notification."),
    )
    ∷ []

unfoldable pub register_type :
    EventTypeRegistry → EventType → EventTypeMetadata → Option Error × EventTypeRegistry
register_type r type meta =
    if event_type_is_valid type
    then (none, insert type meta r)
    else (some err_invalid_event_type, r)

-- eventTypeRegistry.Lookup
unfoldable pub lookup_type : EventTypeRegistry → EventType → Option EventTypeMetadata
lookup_type r type = lookup type r

-- eventTypeRegistry.All, in the order of the list
unfoldable pub all_types : EventTypeRegistry → List EventType
all_types r = map (λ entry. entry.0) r
