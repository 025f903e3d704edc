-- ===== src/Preferences.antt =====
-- preferencesfilter.go, and NotificationPreferences of types.go: may an event be sent to its user?
-- The time package is a parameter: whether a zone loads, the minute of the day that a text such as
-- 22:00 gives, and the instant of that minute on the local day of an instant; so is the quoting of
-- fmt.Errorf. Times count from
-- Go's zero time.
pub mod QuietHours
pub mod Filter
pub mod Tests
use grnoti.Prelude.{
  ℕ, Bool, true, false, not, ◌&&◌, ◌||◌, Option, none, some, Result, ok, err, String, concat, ltb,
  eqb, if◌then◌else◌,
}
use grnoti.Prelude.Maps.{Map, lookup}
use grnoti.Types.{
  Event, EventType, is_authenticated, Error, err_preferences_not_found, wrapped, joined,
}

pub record NotificationPreferences : Type 0 where
  pub user_id : String
  pub global_enabled : Bool
  pub quiet_hours_enabled : Bool
  pub quiet_hours_start : String
  pub quiet_hours_end : String
  pub timezone : String
  pub locale : String
  pub event_type_settings : Map Bool
  pub created_at : ℕ
  pub updated_at : ℕ

pub record Clock : Type 0 where
  pub load_location : String → Option Error
  pub parse_minute : String → Result Error ℕ
  pub quote : String → String
  pub instant_today : String → ℕ → ℕ → ℕ

unfoldable pub is_event_type_enabled : NotificationPreferences → EventType → Bool
is_event_type_enabled prefs type =
    if not prefs.global_enabled
    then false
    else elim (lookup type prefs.event_type_settings) [ some enabled ↦ enabled | none ↦ true ]

-- Whether now is in the window between two instants of its day; one that wraps spans midnight.
unfoldable pub in_window : ℕ → ℕ → ℕ → Bool
in_window start_today end_today now =
    if ltb start_today end_today
    then not (ltb now start_today) && ltb now end_today
    else if eqb start_today end_today
    then false
    else not (ltb now start_today) || ltb now end_today

abbrev pub quiet_window :
    Clock → NotificationPreferences → ℕ → Result Error ℕ → Result Error ℕ → Result Error Bool
quiet_window clock prefs now (err e) end =
    err (
      wrapped (concat "grnoti: invalid quiet-hours start " (clock.quote prefs.quiet_hours_start)) e)
quiet_window clock prefs now (ok start) (err e) =
    err (wrapped (concat "grnoti: invalid quiet-hours end " (clock.quote prefs.quiet_hours_end)) e)
quiet_window clock prefs now (ok start) (ok end) = ok (
    in_window (clock.instant_today prefs.timezone now start)
      (clock.instant_today prefs.timezone now end) now)

abbrev pub located : Clock → NotificationPreferences → ℕ → Option Error → Result Error Bool
located clock prefs now (some e) =
    err (wrapped (concat "grnoti: invalid quiet-hours timezone " (clock.quote prefs.timezone)) e)
located clock prefs now none =
    quiet_window clock prefs now (clock.parse_minute prefs.quiet_hours_start)
      (clock.parse_minute prefs.quiet_hours_end)

unfoldable pub is_within_quiet_hours : Clock → NotificationPreferences → ℕ → Result Error Bool
unfolding in_window
is_within_quiet_hours clock prefs now =
    if not prefs.quiet_hours_enabled
    then ok false
    else located clock prefs now (clock.load_location prefs.timezone)

-- The three results of ShouldSendNotification.
abbrev pub Verdict : Type 0
Verdict = Bool × String × Option Error

abbrev pub quiet_verdict : Result Error Bool → Verdict
quiet_verdict (err e) = (true, "", none)
quiet_verdict (ok true) = (false, "quiet_hours", none)
quiet_verdict (ok false) = (true, "", none)

-- errors.Is(err, ErrPreferencesNotFound), through wrapped errors.
unfoldable pub is_not_found : Error → Bool
is_not_found err_preferences_not_found = true
is_not_found (wrapped text e) = is_not_found e
is_not_found (joined e f) = is_not_found e || is_not_found f
is_not_found _ = false

unfoldable pub verdict_of : Clock → Event → ℕ → Result Error NotificationPreferences → Verdict
unfolding is_within_quiet_hours is_event_type_enabled is_not_found
verdict_of clock event now (err e) = if is_not_found e then (true, "", none) else (true, "", some e)
verdict_of clock event now (ok prefs) =
    if not prefs.global_enabled
    then (false, "global_disabled", none)
    else if not (is_event_type_enabled prefs event.type)
    then (false, "event_type_disabled", none)
    else quiet_verdict (is_within_quiet_hours clock prefs now)

-- The store is asked for the user's preferences, and the clock read, where the user is known.
unfoldable pub should_send_notification :
    Clock → (String → Result Error NotificationPreferences) → Event → ℕ → Verdict
unfolding verdict_of
should_send_notification clock get_preferences event now =
    if not (is_authenticated event)
    then (true, "", none)
    else verdict_of clock event now (get_preferences event.user_id)
