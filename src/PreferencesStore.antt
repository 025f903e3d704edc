-- ===== src/PreferencesStore.antt =====
-- PreferencesStore of interfaces.go: the interface as a record of operations, what it promises as
-- operations on a view (the preferences of each user), and what it means to keep that promise. A
-- state that an operation leaves is part of its result, and the clock's reading an argument.
pub mod Memory
mod Written
pub mod Postgres
pub mod Mongo
pub mod Databases
pub mod Cached
pub mod Coherence
pub mod Tests
use grnoti.Prelude.{
  ℕ, ◌≡◌, refl, ap, Bool, true, Option, none, some, Result, ok, err, List, [], ◌∷◌, String, ◌==◌,
  if◌then◌else◌,
}
use grnoti.Types.{EventType, Error, err_preferences_not_found, err_preferences_user_id_required}
use grnoti.Preferences.{NotificationPreferences, is_event_type_enabled}

pub record PreferencesStore (T : Type 0) : Type 0 where
  pub get_preferences : T → String → Result Error NotificationPreferences × T
  pub save_preferences : T → ℕ → NotificationPreferences → Option Error × T
  pub is_event_type_enabled : T → String → EventType → Result Error Bool × T

abbrev pub View : Type 0
View = String → Option NotificationPreferences

-- What the interface promises of each operation.
abbrev pub get_answer : Option NotificationPreferences → Result Error NotificationPreferences
get_answer none = err err_preferences_not_found
get_answer (some prefs) = ok prefs

abbrev pub enabled_answer : Option NotificationPreferences → EventType → Bool
enabled_answer none type = true
enabled_answer (some prefs) type = is_event_type_enabled prefs type

abbrev pub save_answer : NotificationPreferences → Option Error
save_answer prefs = if prefs.user_id == "" then some err_preferences_user_id_required else none

-- An upsert keeps the time of creation.
abbrev pub stamped :
    ℕ → NotificationPreferences → Option NotificationPreferences → NotificationPreferences
stamped now prefs none = record prefs { created_at = now; updated_at = now }
stamped now prefs (some old) = record prefs { created_at = old.created_at; updated_at = now }

abbrev pub view_saved : View → ℕ → NotificationPreferences → View
view_saved v now prefs user_id =
    if prefs.user_id == ""
    then v user_id
    else if prefs.user_id == user_id
    then some (stamped now prefs (v prefs.user_id))
    else v user_id

-- A state of the store shows a view, and every operation answers and goes on as the view says.
pub record Implements {T : Type 0} (store : PreferencesStore T) : Type 1 where
  pub Shows : T → View → Type 0
  pub get_lem :
      (t : T) (v : View) (user_id : String)
      → Shows t v
      → ((store.get_preferences t user_id).0 ≡ get_answer (v user_id))
        × Shows (store.get_preferences t user_id).1 v
  pub save_lem :
      (t : T) (v : View) (now : ℕ) (prefs : NotificationPreferences)
      → Shows t v
      → ((store.save_preferences t now prefs).0 ≡ save_answer prefs)
        × Shows (store.save_preferences t now prefs).1 (view_saved v now prefs)
  pub enabled_lem :
      (t : T) (v : View) (user_id : String) (type : EventType)
      → Shows t v
      → ((store.is_event_type_enabled t user_id type).0 ≡ ok (enabled_answer (v user_id) type))
        × Shows (store.is_event_type_enabled t user_id type).1 v

-- A client's calls of a store, and its answers.
pub data Request : Type 0 where
  gets : String → Request
  saves : ℕ → NotificationPreferences → Request
  asks : String → EventType → Request

pub data Answer : Type 0 where
  preferences : Result Error NotificationPreferences → Answer
  saved : Option Error → Answer
  enabled : Result Error Bool → Answer

abbrev pub serve : {T : Type 0} → PreferencesStore T → T → Request → Answer × T
serve store t (gets user_id) = let r = store.get_preferences t user_id in (preferences r.0, r.1)
serve store t (saves now prefs) = let r = store.save_preferences t now prefs in (saved r.0, r.1)
serve store t (asks user_id type) =
    let r = store.is_event_type_enabled t user_id type in (enabled r.0, r.1)

abbrev pub answers : {T : Type 0} → PreferencesStore T → T → List Request → List Answer
answers store t [] = []
answers store t (request ∷ requests) =
    (serve store t request).0 ∷ answers store (serve store t request).1 requests

-- The same calls on a view.
abbrev pub promised : View → Request → Answer
promised v (gets user_id) = preferences (get_answer (v user_id))
promised v (saves now prefs) = saved (save_answer prefs)
promised v (asks user_id type) = enabled (ok (enabled_answer (v user_id) type))

abbrev pub viewed : View → Request → View
viewed v (saves now prefs) = view_saved v now prefs
viewed v _ = v

abbrev pub promises : View → List Request → List Answer
promises v [] = []
promises v (request ∷ requests) = promised v request ∷ promises (viewed v request) requests

module _ {T : Type 0} (store : PreferencesStore T) (impl : Implements store) where
  serve_lem :
      (t : T) (v : View) (request : Request)
      → impl.Shows t v
      → ((serve store t request).0 ≡ promised v request)
        × impl.Shows (serve store t request).1 (viewed v request)
  serve_lem t v (gets user_id) s = let r = impl.get_lem t v user_id s in (ap preferences r.0, r.1)
  serve_lem t v (saves now prefs) s = let r = impl.save_lem t v now prefs s in (ap saved r.0, r.1)
  serve_lem t v (asks user_id type) s =
      let r = impl.enabled_lem t v user_id type s in (ap enabled r.0, r.1)

  -- A store that keeps the promise answers every sequence of calls as the view does.
  pub answers-eq-promises :
      (t : T) (v : View) (requests : List Request)
      → impl.Shows t v
      → answers store t requests ≡ promises v requests
  answers-eq-promises t v [] s = refl
  answers-eq-promises t v (request ∷ requests) s =
      let r = serve_lem t v request s in
      rw (r.0, answers-eq-promises (serve store t request).1 (viewed v request) requests r.1)
