-- ===== src/PreferencesStore/Postgres.antt =====
-- preferences.postgres.go, with the statements of internal/postgresdb/preferences.sql.go on the
-- table grnoti_preferences, by user. encoding/json is a parameter: its encoding of the settings is
-- of type Raw. A row that breaks a limit of its column is refused, as any statement may be.
pub mod Promise
use grnoti.Prelude.{
  ℕ, Bool, true, false, Option, none, some, Result, ok, err, [], String, concat, ◌==◌,
  if◌then◌else◌,
}
use grnoti.Prelude.Maps.{Map, lookup, insert}
use grnoti.Prelude.Fallible.{pure, on_err, ◌>>=◌}
use grnoti.Types.{
  EventType, Error, err_closed, err_preferences_not_found, err_preferences_user_id_required,
  wrapped,
}
use grnoti.Preferences.{NotificationPreferences}
use grnoti.Database.{Fault, served, applied, queried, failed_as, unavailable_error}
use grnoti.Postgres.{Timestamptz, pg_timestamptz, pg_time, PostgresStore}
use grnoti.PreferencesStore.{PreferencesStore}
use grnoti.PreferencesStore.Memory.{enabled_by}

pub record SettingsCodec (Raw : Type 0) : Type 0 where
  pub marshal : Map Bool → Result Error Raw
  pub unmarshal : Raw → Result Error (Map Bool)
  pub is_empty : Raw → Bool

-- GrnotiPreference
pub record PreferencesRow (Raw : Type 0) : Type 0 where
  pub user_id : String
  pub global_enabled : Bool
  pub quiet_hours_enabled : Bool
  pub quiet_hours_start : String
  pub quiet_hours_end : String
  pub timezone : String
  pub locale : String
  pub event_type_settings : Raw
  pub created_at : Timestamptz
  pub updated_at : Timestamptz

module _ {Raw : Type 0} where
  -- SELECT ... WHERE user_id = $1
  unfoldable pub preferences_row : String → Map (PreferencesRow Raw) → Option (PreferencesRow Raw)
  preferences_row user_id table = lookup user_id table

  -- INSERT ... ON CONFLICT (user_id) DO UPDATE, which leaves created_at. `new` is the row of the
  -- INSERT, EXCLUDED in the UPDATE.
  abbrev pub upserted : PreferencesRow Raw → Option (PreferencesRow Raw) → PreferencesRow Raw
  upserted new none = new
  upserted new (some old) = record old {
    global_enabled = new.global_enabled;
    quiet_hours_enabled = new.quiet_hours_enabled;
    quiet_hours_start = new.quiet_hours_start;
    quiet_hours_end = new.quiet_hours_end;
    timezone = new.timezone;
    locale = new.locale;
    event_type_settings = new.event_type_settings;
    updated_at = new.updated_at;
  }

  unfoldable pub upsert_preferences :
      PreferencesRow Raw → Map (PreferencesRow Raw) → Map (PreferencesRow Raw)
  upsert_preferences new table = insert new.user_id (upserted new (lookup new.user_id table)) table

  abbrev pub preferences_of : PreferencesRow Raw → Map Bool → NotificationPreferences
  preferences_of r settings = record {
    user_id = r.user_id;
    global_enabled = r.global_enabled;
    quiet_hours_enabled = r.quiet_hours_enabled;
    quiet_hours_start = r.quiet_hours_start;
    quiet_hours_end = r.quiet_hours_end;
    timezone = r.timezone;
    locale = r.locale;
    event_type_settings = settings;
    created_at = pg_time r.created_at;
    updated_at = pg_time r.updated_at;
  }

-- postgresPreferencesStore
abbrev pub PostgresPreferences : Type 0 → Type 0 → Type 0
PostgresPreferences Pool Raw = PostgresStore Pool (Map (PreferencesRow Raw))

module _ {Raw : Type 0} (codec : SettingsCodec Raw) where
  abbrev pub decode_settings : PreferencesRow Raw → Result Error (Map Bool)
  decode_settings r =
      if codec.is_empty r.event_type_settings
      then ok []
      else on_err (wrapped (concat "grnoti/postgres: decode event type settings for " r.user_id))
          (codec.unmarshal r.event_type_settings)

  unfoldable pub preferences_row_to_domain :
      PreferencesRow Raw → Result Error NotificationPreferences
  preferences_row_to_domain r = do settings ← decode_settings r; pure (preferences_of r settings)

  abbrev pub row_of : NotificationPreferences → Raw → ℕ → PreferencesRow Raw
  row_of prefs settings now = record {
    user_id = prefs.user_id;
    global_enabled = prefs.global_enabled;
    quiet_hours_enabled = prefs.quiet_hours_enabled;
    quiet_hours_start = prefs.quiet_hours_start;
    quiet_hours_end = prefs.quiet_hours_end;
    timezone = prefs.timezone;
    locale = prefs.locale;
    event_type_settings = settings;
    created_at = pg_timestamptz now;
    updated_at = pg_timestamptz now;
  }

  abbrev pub answer_row :
      String → Result Error (Option (PreferencesRow Raw)) → Result Error NotificationPreferences
  answer_row user_id (err e) =
      err (unavailable_error (concat "grnoti/postgres: get preferences for " user_id) e)
  answer_row user_id (ok none) = err err_preferences_not_found
  answer_row user_id (ok (some row)) = preferences_row_to_domain row

  module _ {Pool : Type 0} where
    unfoldable pub get_preferences :
        Fault → PostgresPreferences Pool Raw → String → Result Error NotificationPreferences
    get_preferences fault s user_id =
        if s.closed
        then err err_closed
        else answer_row user_id (queried fault (preferences_row user_id s.table))

    abbrev pub save_encoded :
        Fault
        → PostgresPreferences Pool Raw
        → ℕ
        → NotificationPreferences
        → Result Error Raw
        → Option Error × PostgresPreferences Pool Raw
    save_encoded fault s now prefs (err e) = (
      some (wrapped (concat "grnoti/postgres: encode event type settings for " prefs.user_id) e),
      s,
    )
    save_encoded fault s now prefs (ok settings) =
        let r = applied fault s.table (upsert_preferences (row_of prefs settings now) s.table) in
        (
          failed_as (concat "grnoti/postgres: save preferences for " prefs.user_id) r.0,
          record s { table = r.1 },
        )

    unfoldable pub save_preferences :
        Fault
        → PostgresPreferences Pool Raw
        → ℕ
        → NotificationPreferences
        → Option Error × PostgresPreferences Pool Raw
    save_preferences fault s now prefs =
        if s.closed
        then (some err_closed, s)
        else if prefs.user_id == ""
        then (some err_preferences_user_id_required, s)
        else save_encoded fault s now prefs (codec.marshal prefs.event_type_settings)

    unfoldable pub is_enabled_for :
        Fault → PostgresPreferences Pool Raw → String → EventType → Result Error Bool
    is_enabled_for fault s user_id type = enabled_by (get_preferences fault s user_id) type

    -- The store as long as the database serves every statement.
    abbrev pub postgres_preferences_store : PreferencesStore (PostgresPreferences Pool Raw)
    postgres_preferences_store = record {
      get_preferences = λ s user_id. (get_preferences served s user_id, s);
      save_preferences = save_preferences served;
      is_event_type_enabled = λ s user_id type. (is_enabled_for served s user_id type, s);
    }
