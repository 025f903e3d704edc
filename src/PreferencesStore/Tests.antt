-- ===== src/PreferencesStore/Tests.antt =====
-- The cached preferences store over the store in memory, with a cache that is a list of entries,
-- and its theorem for a client of it.
use grnoti.Prelude.Maps.{Map, lookup}
use grnoti.Prelude.{ℕ, Bool, ok, map, ◌≡◌, refl, sym, true, false, none, some, List, [], ◌∷◌}
use grnoti.Prelude.Int.{pos}
use grnoti.Cache.Tests.{Item, list_cache, list_cache-Laws, empty_list_cache}
use grnoti.Preferences.{NotificationPreferences}
use grnoti.PreferencesStore.{Request, gets, saves, asks, answers, promises}
use grnoti.PreferencesStore.Memory.{
  MemoryPreferences, memory_store, no_preferences, memory-Implements, no_preferences-Shows,
}
use grnoti.PreferencesStore.Cached.{CachedPreferences, cached_store}
use grnoti.PreferencesStore.Coherence.{cached_answers}
use grnoti.PreferencesStore.Postgres.{
  SettingsCodec, PostgresPreferences, postgres_preferences_store,
}
use grnoti.PreferencesStore.Mongo.{MongoPreferences, mongo_preferences_store}
use grnoti.PreferencesStore.Mongo.Promise.{as_stored}
use grnoti.PreferencesStore.Mongo.Settings.{restored, settings_round_trip}
use grnoti.PreferencesStore.Postgres.Promise.{in_micros}
use grnoti.PreferencesStore.Databases.{stores_agree}

abbrev store :
    CachedPreferences MemoryPreferences NotificationPreferences
      (List (Item NotificationPreferences))
store = record {
  store = memory_store;
  cache = list_cache;
  codec = record { marshal = some; unmarshal = some };
  ttl = pos 60;
}

abbrev prefs : NotificationPreferences
prefs = record {
  user_id = "u";
  global_enabled = true;
  quiet_hours_enabled = false;
  quiet_hours_start = "";
  quiet_hours_end = "";
  timezone = "UTC";
  locale = "en";
  event_type_settings = ("order", false) ∷ [];
  created_at = 0;
  updated_at = 0;
}

-- A read that misses, a write, a read that fills the cache, one that hits it, and a second write.
abbrev day : List Request
day =
    gets "u"
    ∷ saves 5000123 prefs
    ∷ gets "u"
    ∷ asks "u" "order"
    ∷ saves 9000456 prefs
    ∷ gets "u"
    ∷ asks "v" "order"
    ∷ []

cached_answers_example :
    answers (cached_store store) (no_preferences, []) day ≡ promises (λ user_id. none) day
cached_answers_example =
    cached_answers store memory-Implements list_cache-Laws (λ p raw e. sym e) (λ c tag. refl)
      no_preferences [] (λ user_id. none) day no_preferences-Shows empty_list_cache

-- An encoding of the settings by themselves.
abbrev plain_codec : SettingsCodec (Map Bool)
plain_codec = record { marshal = ok; unmarshal = ok; is_empty = λ raw. false }

abbrev no_rows : PostgresPreferences ℕ (Map Bool)
no_rows = record { pool = 0; owns_pool = true; closed = false; table = [] }

abbrev no_docs : MongoPreferences ℕ
no_docs = record { client = 0; closed = false; collection = [] }

stores_agree_example :
    (answers (postgres_preferences_store plain_codec) no_rows day
      ≡ answers memory_store no_preferences (map in_micros day))
    × (answers mongo_preferences_store no_docs day
        ≡ answers memory_store no_preferences (map as_stored day))
unfolding lookup
stores_agree_example =
    stores_agree plain_codec (record { round_trip = λ m. (m, refl, refl, refl) }) no_rows no_docs
      no_preferences (λ user_id. none) day (refl, λ user_id. tt) (refl, λ user_id. tt)
      (λ user_id. refl)

settings_round_trip_example :
    lookup "order" (restored (("shipped", true) ∷ ("order", false) ∷ []))
    ≡ lookup "order" (("shipped", true) ∷ ("order", false) ∷ [])
unfolding lookup
settings_round_trip_example =
    settings_round_trip (("shipped", true) ∷ ("order", false) ∷ []) "order" (refl, (refl, tt))
