-- ===== src/Preferences/Filter.antt =====
-- When the filter of preferencesfilter.go holds a notification back.
use grnoti.Prelude.{ℕ, ◌≡◌, Bool, true, false, not, Result, ok, err, String, arith, if◌then◌else◌}
use grnoti.Types.{Event, Error, is_authenticated}
use grnoti.Preferences.{
  NotificationPreferences, Clock, is_event_type_enabled, is_within_quiet_hours, verdict_of,
  should_send_notification,
}

-- Whether preferences that were found ask for silence.
abbrev pub is_quiet : Result Error Bool → Bool
is_quiet (ok b) = b
is_quiet (err e) = false

abbrev pub silenced : Clock → Event → ℕ → Result Error NotificationPreferences → Bool
silenced clock event now (err e) = false
silenced clock event now (ok prefs) =
    if is_event_type_enabled prefs event.type
    then is_quiet (is_within_quiet_hours clock prefs now)
    else true

verdict-silenced :
    (clock : Clock) (event : Event) (now : ℕ) (found : Result Error NotificationPreferences)
    → (verdict_of clock event now found).0 ≡ not (silenced clock event now found)
unfolding verdict_of is_event_type_enabled
verdict-silenced clock event now (err e) = ground arith
verdict-silenced clock event now (ok prefs) = ground arith

-- The filter holds an event back exactly when its user is known, the user's preferences are found,
-- and they disable the event's type (as all types, if they disable everything) or the moment is in
-- their quiet hours. So it fails open: an unknown user, a store that fails and quiet hours that do
-- not parse all let the event through.
pub should_send-silenced :
    (clock : Clock) (get_preferences : String → Result Error NotificationPreferences)
    (event : Event) (now : ℕ)
    → (should_send_notification clock get_preferences event now).0 ≡ (
        if is_authenticated event
        then not (silenced clock event now (get_preferences event.user_id))
        else true)
unfolding should_send_notification
should_send-silenced clock get_preferences event now =
    ground (arith, verdict-silenced clock event now (get_preferences event.user_id))
