-- ===== src/Preferences/Tests.antt =====
-- Runs of the preferences filter, and its theorems at concrete times.
use grnoti.Prelude.{ℕ, ◌*◌, ◌^◌, ◌≡◌, refl, true, false, not, none, ok, [], ◌∷◌, if◌then◌else◌}
use grnoti.Prelude.Maps.{lookup}
use grnoti.Types.{Event, is_authenticated}
use grnoti.Preferences.{
  NotificationPreferences, Clock, in_window, is_event_type_enabled, verdict_of,
  should_send_notification,
}
use grnoti.Preferences.Filter.{silenced, should_send-silenced}

abbrev hour : ℕ
hour = 3600 * 10 ^ 9

night_is_quiet : in_window (22 * hour) (6 * hour) (23 * hour) ≡ true
unfolding in_window
night_is_quiet = refl

-- A clock on which every text is 22:00.
abbrev clock : Clock
clock = record {
  load_location = λ zone. none;
  parse_minute = λ text. ok 1320;
  quote = λ text. text;
  instant_today = λ zone now minute. minute * 60 * 10 ^ 9;
}

abbrev muted : NotificationPreferences
muted = record {
  user_id = "u";
  global_enabled = true;
  quiet_hours_enabled = false;
  quiet_hours_start = "";
  quiet_hours_end = "";
  timezone = "";
  locale = "";
  event_type_settings = ("order_shipped", false) ∷ [];
  created_at = 0;
  updated_at = 0;
}

abbrev shipped : Event
shipped = record {
  event_id = "e1";
  user_id = "u";
  anonymous_id = "";
  fids = [];
  type = "order_shipped";
  payload = [];
  priority = "high";
  timestamp = 0;
  experiment_id = "";
}

muted_is_silent :
    should_send_notification clock (λ id. ok muted) shipped 9 ≡ (false, "event_type_disabled", none)
unfolding should_send_notification verdict_of is_event_type_enabled is_authenticated lookup
muted_is_silent = refl

should_send-silenced_example :
    (should_send_notification clock (λ id. ok muted) shipped 9).0
    ≡ (if is_authenticated shipped then not (silenced clock shipped 9 (ok muted)) else true)
should_send-silenced_example = should_send-silenced clock (λ id. ok muted) shipped 9
