-- ===== src/PreferencesStore/Cached.antt =====
-- cache.preferences.go: cachedPreferencesStore, read-through caching in front of any preferences
-- store. encoding/json is a parameter. The state is the state of the store and that of the cache;
-- log lines are left out.
use grnoti.Prelude.{
  ℕ, Bool, true, Option, none, some, Result, ok, err, [], ◌∷◌, String, concat, if◌then◌else◌,
}
use grnoti.Prelude.Int.{ℤ}
use grnoti.Types.{EventType, Error, wrapped}
use grnoti.Cache.{Cache, Read, found, missing, failed}
use grnoti.Preferences.{NotificationPreferences, is_event_type_enabled, is_not_found}
use grnoti.PreferencesStore.{PreferencesStore}

-- json.Marshal and json.Unmarshal of preferences.
pub record PreferencesCodec (Raw : Type 0) : Type 0 where
  pub marshal : NotificationPreferences → Option Raw
  pub unmarshal : Raw → Option NotificationPreferences

abbrev pub preferences_cache_key : String → String
preferences_cache_key user_id = concat "grnoti:preferences:" user_id

abbrev pub preferences_cache_tag : String → String
preferences_cache_tag user_id = concat "grnoti:preferences:user:" user_id

-- cachedPreferencesStore
pub record CachedPreferences (T Raw C : Type 0) : Type 0 where
  pub store : PreferencesStore T
  pub cache : Cache Raw C
  pub codec : PreferencesCodec Raw
  pub ttl : ℤ

module _ {T Raw C : Type 0} (s : CachedPreferences T Raw C) where
  -- The preferences in the bytes that the cache has, if it has any and they can be read.
  abbrev pub usable : Read Raw → Option NotificationPreferences
  usable (found raw) = s.codec.unmarshal raw
  usable missing = none
  usable (failed e) = none

  abbrev pub put : C → String → NotificationPreferences → Option Raw → C
  put c user_id prefs none = c
  put c user_id prefs (some raw) =
      (s.cache.set c (preferences_cache_key user_id) raw s.ttl
        (preferences_cache_tag user_id ∷ [])).1

  abbrev pub filled :
      C
      → String
      → Result Error NotificationPreferences × T
      → Result Error NotificationPreferences × (T × C)
  filled c user_id (err e, t) = (err e, (t, c))
  filled c user_id (ok prefs, t) = (ok prefs, (t, put c user_id prefs (s.codec.marshal prefs)))

  -- A hit ends the call; otherwise the store is asked and the cache filled.
  abbrev pub hit_or :
      T
      → C
      → String
      → Option NotificationPreferences
      → Result Error NotificationPreferences × (T × C)
  hit_or t c user_id (some prefs) = (ok prefs, (t, c))
  hit_or t c user_id none = filled c user_id (s.store.get_preferences t user_id)

  unfoldable pub get_cached : T × C → String → Result Error NotificationPreferences × (T × C)
  get_cached (t, c) user_id =
      let read = s.cache.get c (preferences_cache_key user_id) in
      hit_or t read.1 user_id (usable read.0)

  abbrev pub invalidated : C → NotificationPreferences → Option Error × T → Option Error × (T × C)
  invalidated c prefs (some e, t) = (some e, (t, c))
  invalidated c prefs (none, t) =
      (none, (t, (s.cache.invalidate_tag c (preferences_cache_tag prefs.user_id)).1))

  unfoldable pub save_cached : T × C → ℕ → NotificationPreferences → Option Error × (T × C)
  save_cached (t, c) now prefs = invalidated c prefs (s.store.save_preferences t now prefs)

  -- A user without preferences is opted in.
  abbrev pub enabled_cached :
      String → EventType → Result Error NotificationPreferences → Result Error Bool
  enabled_cached user_id type (err e) =
      if is_not_found e
      then ok true
      else err (wrapped (concat "grnoti: is event type enabled for " user_id) e)
  enabled_cached user_id type (ok prefs) = ok (is_event_type_enabled prefs type)

  unfoldable pub is_enabled_cached : T × C → String → EventType → Result Error Bool × (T × C)
  is_enabled_cached state user_id type =
      let got = get_cached state user_id in (enabled_cached user_id type got.0, got.1)

  abbrev pub cached_store : PreferencesStore (T × C)
  cached_store = record {
    get_preferences = get_cached;
    save_preferences = save_cached;
    is_event_type_enabled = is_enabled_cached;
  }
