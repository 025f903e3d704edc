-- ===== src/PreferencesStore/Memory.antt =====
-- memory.go, memoryPreferencesStore: the preferences by user, under one lock.
use grnoti.Prelude.{
  ℕ, ◌≡◌, refl, ap, ◌∙◌, Bool, true, Option, none, some, Result, ok, err, List, [], String, ◌==◌,
  arith, if◌then◌else◌,
}
use grnoti.Prelude.Maps.{Map, lookup, insert, lookup-insert}
use grnoti.Types.{EventType, Error, err_preferences_not_found, err_preferences_user_id_required}
use grnoti.Preferences.{NotificationPreferences, is_event_type_enabled, is_not_found}
use grnoti.PreferencesStore.{
  PreferencesStore, Implements, Request, answers, promises, answers-eq-promises, View, stamped,
  get_answer, enabled_answer, save_answer, view_saved,
}

-- memoryPreferencesStore
pub record MemoryPreferences : Type 0 where
  pub by_uid : Map NotificationPreferences

-- NewMemoryPreferencesStore
abbrev pub no_preferences : MemoryPreferences
no_preferences = record { by_uid = [] }

abbrev found_in : Option NotificationPreferences → Result Error NotificationPreferences
found_in none = err err_preferences_not_found
found_in (some prefs) = ok prefs

unfoldable pub get_preferences : MemoryPreferences → String → Result Error NotificationPreferences
get_preferences s user_id = found_in (lookup user_id s.by_uid)

abbrev kept_created : ℕ → Option NotificationPreferences → ℕ
kept_created now none = now
kept_created now (some existing) = existing.created_at

unfoldable pub save_preferences :
    MemoryPreferences → ℕ → NotificationPreferences → Option Error × MemoryPreferences
save_preferences s now prefs =
    if prefs.user_id == "" then (some err_preferences_user_id_required, s) else (
      none,
      record s {
        by_uid =
            insert prefs.user_id
              (record prefs {
                created_at = kept_created now (lookup prefs.user_id s.by_uid);
                updated_at = now;
              })
              s.by_uid;
      },
    )

-- A user without preferences is opted in.
abbrev pub enabled_by : Result Error NotificationPreferences → EventType → Result Error Bool
enabled_by (err e) type = if is_not_found e then ok true else err e
enabled_by (ok prefs) type = ok (is_event_type_enabled prefs type)

unfoldable pub is_enabled_for : MemoryPreferences → String → EventType → Result Error Bool
is_enabled_for s user_id type = enabled_by (get_preferences s user_id) type

abbrev pub memory_store : PreferencesStore MemoryPreferences
memory_store = record {
  get_preferences = λ s user_id. (get_preferences s user_id, s);
  save_preferences = save_preferences;
  is_event_type_enabled = λ s user_id type. (is_enabled_for s user_id type, s);
}

abbrev pub ShowsMap : MemoryPreferences → View → Type 0
ShowsMap s v = (user_id : String) → lookup user_id s.by_uid ≡ v user_id

kept-stamped :
    (now : ℕ) (prefs : NotificationPreferences) (old : Option NotificationPreferences)
    → record prefs { created_at = kept_created now old; updated_at = now } ≡ stamped now prefs old
kept-stamped now prefs none = refl
kept-stamped now prefs (some existing) = refl

found_in-eq-get_answer : (o : Option NotificationPreferences) → found_in o ≡ get_answer o
found_in-eq-get_answer none = refl
found_in-eq-get_answer (some prefs) = refl

pub enabled_by-get_answer :
    (o : Option NotificationPreferences) (type : EventType)
    → enabled_by (get_answer o) type ≡ ok (enabled_answer o type)
unfolding is_not_found
enabled_by-get_answer none type = refl
enabled_by-get_answer (some prefs) type = refl

save_shows :
    (s : MemoryPreferences) (v : View) (now : ℕ) (prefs : NotificationPreferences)
    → ShowsMap s v
    → ((save_preferences s now prefs).0 ≡ save_answer prefs)
      × ShowsMap (save_preferences s now prefs).1 (view_saved v now prefs)
unfolding save_preferences
save_shows s v now prefs shows = (
  ground arith,
  λ user_id. ground (
    arith,
    lookup-insert prefs.user_id user_id
        (record prefs {
          created_at = kept_created now (lookup prefs.user_id s.by_uid);
          updated_at = now;
        })
        s.by_uid,
    kept-stamped now prefs (lookup prefs.user_id s.by_uid),
    shows user_id,
    shows prefs.user_id,
  ),
)

-- The store in memory keeps the promise of its interface.
pub memory-Implements : Implements memory_store
unfolding get_preferences is_enabled_for
memory-Implements = record {
  Shows = ShowsMap;
  get_lem = λ s v user_id shows.
      (found_in-eq-get_answer (lookup user_id s.by_uid) ∙ ap get_answer (shows user_id), shows);
  save_lem = save_shows;
  enabled_lem = λ s v user_id type shows. (
    ap (λ r. enabled_by r type)
          (found_in-eq-get_answer (lookup user_id s.by_uid) ∙ ap get_answer (shows user_id))
        ∙ enabled_by-get_answer (v user_id) type,
    shows,
  );
}

-- The new store has no preferences of anyone.
pub no_preferences-Shows : memory-Implements.Shows no_preferences (λ user_id. none)
unfolding memory-Implements lookup
no_preferences-Shows user_id = refl

pub memory_answers :
    (s : MemoryPreferences) (v : View) (requests : List Request)
    → ShowsMap s v
    → answers memory_store s requests ≡ promises v requests
unfolding memory-Implements
memory_answers s v requests shows =
    answers-eq-promises memory_store memory-Implements s v requests shows
