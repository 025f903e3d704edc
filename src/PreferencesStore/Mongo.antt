-- ===== src/PreferencesStore/Mongo.antt =====
-- preferences.mongo.go: the collection of the preferences as documents by user. The settings are
-- an array of pairs, sorted by event type.
pub mod Settings
pub mod Promise
use grnoti.Prelude.{
  ℕ, Bool, true, false, Option, none, some, Result, ok, err, List, [], ◌∷◌, map, String, concat,
  ◌==◌, if◌then◌else◌, text_lt,
}
use grnoti.Prelude.Maps.{Map, lookup, insert}
use grnoti.Types.{
  EventType, Error, err_closed, err_preferences_not_found, err_preferences_user_id_required,
}
use grnoti.Preferences.{NotificationPreferences}
use grnoti.Database.{Fault, served, applied, queried, unavailable_error, failed_as, millis}
use grnoti.Mongo.{MongoStore}
use grnoti.PreferencesStore.{PreferencesStore}
use grnoti.PreferencesStore.Memory.{enabled_by}

-- mongoEventTypeSetting
pub record EventTypeSetting : Type 0 where
  pub event_type : EventType
  pub enabled : Bool

-- mongoPreferencesDoc
pub record PreferencesDoc : Type 0 where
  pub user_id : String
  pub global_enabled : Bool
  pub quiet_hours_enabled : Bool
  pub quiet_hours_start : String
  pub quiet_hours_end : String
  pub timezone : String
  pub locale : String
  pub event_type_settings : List EventTypeSetting
  pub created_at : ℕ
  pub updated_at : ℕ

-- The loop of toPreferences that fills the map.
unfoldable pub fill_settings : List EventTypeSetting → Map Bool → Map Bool
fill_settings [] settings = settings
fill_settings (s ∷ rest) settings = fill_settings rest (insert s.event_type s.enabled settings)

unfoldable pub to_preferences : PreferencesDoc → NotificationPreferences
to_preferences d = record {
  user_id = d.user_id;
  global_enabled = d.global_enabled;
  quiet_hours_enabled = d.quiet_hours_enabled;
  quiet_hours_start = d.quiet_hours_start;
  quiet_hours_end = d.quiet_hours_end;
  timezone = d.timezone;
  locale = d.locale;
  event_type_settings = fill_settings d.event_type_settings [];
  created_at = d.created_at;
  updated_at = d.updated_at;
}

-- slices.SortFunc by the event type.
unfoldable pub insert_setting : EventTypeSetting → List EventTypeSetting → List EventTypeSetting
insert_setting s [] = s ∷ []
insert_setting s (first ∷ rest) =
    if text_lt first.event_type s.event_type
    then first ∷ insert_setting s rest
    else s ∷ first ∷ rest

unfoldable pub sort_settings : List EventTypeSetting → List EventTypeSetting
sort_settings [] = []
sort_settings (s ∷ rest) = insert_setting s (sort_settings rest)

abbrev pub setting_of : String × Bool → EventTypeSetting
setting_of e = record { event_type = e.0; enabled = e.1 }

unfoldable pub settings_to_mongo : Map Bool → List EventTypeSetting
settings_to_mongo settings = sort_settings (map setting_of settings)

-- The update document on the one that is there: $set writes every field but created_at.
abbrev pub set_fields : ℕ → NotificationPreferences → PreferencesDoc → PreferencesDoc
set_fields now prefs d = record d {
  global_enabled = prefs.global_enabled;
  quiet_hours_enabled = prefs.quiet_hours_enabled;
  quiet_hours_start = prefs.quiet_hours_start;
  quiet_hours_end = prefs.quiet_hours_end;
  timezone = prefs.timezone;
  locale = prefs.locale;
  event_type_settings = settings_to_mongo prefs.event_type_settings;
  updated_at = millis now;
}

-- A new document has the key of the filter and $setOnInsert; the other fields are set after.
abbrev pub inserted : ℕ → String → PreferencesDoc
inserted now user_id = record {
  user_id = user_id;
  global_enabled = false;
  quiet_hours_enabled = false;
  quiet_hours_start = "";
  quiet_hours_end = "";
  timezone = "";
  locale = "";
  event_type_settings = [];
  created_at = millis now;
  updated_at = millis now;
}

abbrev pub written : ℕ → NotificationPreferences → Option PreferencesDoc → PreferencesDoc
written now prefs none = set_fields now prefs (inserted now prefs.user_id)
written now prefs (some d) = set_fields now prefs d

abbrev pub answer_doc :
    String → Result Error (Option PreferencesDoc) → Result Error NotificationPreferences
answer_doc user_id (err e) =
    err (unavailable_error (concat "grnoti/mongo: get preferences for " user_id) e)
answer_doc user_id (ok none) = err err_preferences_not_found
answer_doc user_id (ok (some d)) = ok (to_preferences d)

-- mongoPreferencesStore
abbrev pub MongoPreferences : Type 0 → Type 0
MongoPreferences Client = MongoStore Client (Map PreferencesDoc)

module _ {Client : Type 0} where
  -- FindOne with the decoding of what it finds.
  unfoldable pub get_preferences :
      Fault → MongoPreferences Client → String → Result Error NotificationPreferences
  get_preferences fault s user_id =
      if s.closed
      then err err_closed
      else answer_doc user_id (queried fault (lookup user_id s.collection))

  -- UpdateOne with an upsert on the key.
  unfoldable pub save_preferences :
      Fault
      → MongoPreferences Client
      → ℕ
      → NotificationPreferences
      → Option Error × MongoPreferences Client
  save_preferences fault s now prefs =
      if s.closed
      then (some err_closed, s)
      else if prefs.user_id == ""
      then (some err_preferences_user_id_required, s)
      else let r = applied fault s.collection (
          insert prefs.user_id (written now prefs (lookup prefs.user_id s.collection))
            s.collection) in
        (
          failed_as (concat "grnoti/mongo: save preferences for " prefs.user_id) r.0,
          record s { collection = r.1 },
        )

  unfoldable pub is_enabled_for :
      Fault → MongoPreferences Client → String → EventType → Result Error Bool
  is_enabled_for fault s user_id type = enabled_by (get_preferences fault s user_id) type

  -- The store as long as the database serves every operation.
  abbrev pub mongo_preferences_store : PreferencesStore (MongoPreferences Client)
  mongo_preferences_store = record {
    get_preferences = λ s user_id. (get_preferences served s user_id, s);
    save_preferences = save_preferences served;
    is_event_type_enabled = λ s user_id type. (is_enabled_for served s user_id type, s);
  }
