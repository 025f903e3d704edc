-- ===== src/PreferencesStore/Databases.antt =====
-- The preferences stores over the databases, preferences.postgres.go and preferences.mongo.go,
-- against the one in memory of memory.go.
use grnoti.Prelude.{◌≡◌, sym, ◌∙◌, List, map}
use grnoti.PreferencesStore.{View, Request, answers}
use grnoti.PreferencesStore.Memory.{MemoryPreferences, memory_store, memory_answers, ShowsMap}
use grnoti.PreferencesStore.Postgres.{
  SettingsCodec, PostgresPreferences, postgres_preferences_store,
}
use grnoti.PreferencesStore.Postgres.Promise.{in_micros, SettingsLaws, ShowsRows, postgres_answers}
use grnoti.PreferencesStore.Mongo.{MongoPreferences, mongo_preferences_store}
use grnoti.PreferencesStore.Mongo.Promise.{ShowsDocs, as_stored, mongo_answers}

module _ {Raw Pool Client : Type 0} (codec : SettingsCodec Raw) where
  -- From states that show one view, and while the databases serve their statements and the decoded
  -- settings are the encoded ones, the stores over the databases answer every sequence of calls as
  -- the one in memory answers it at another precision: the store over PostgreSQL as the one in
  -- memory whose clock gives whole microseconds, and the store over MongoDB as the one whose clock
  -- gives whole milliseconds and that is given each user's settings in the order of the event types.
  pub stores_agree :
      (laws : SettingsLaws codec) (rows : PostgresPreferences Pool Raw)
      (docs : MongoPreferences Client) (memory : MemoryPreferences) (v : View)
      (requests : List Request)
      → ShowsRows codec rows v
      → ShowsDocs docs v
      → ShowsMap memory v
      → (answers (postgres_preferences_store codec) rows requests
          ≡ answers memory_store memory (map in_micros requests))
        × (answers mongo_preferences_store docs requests
            ≡ answers memory_store memory (map as_stored requests))
  stores_agree laws rows docs memory v requests in_rows in_docs in_memory = (
    postgres_answers codec laws rows v requests in_rows
        ∙ sym (memory_answers memory v (map in_micros requests) in_memory),
    mongo_answers docs v requests in_docs
        ∙ sym (memory_answers memory v (map as_stored requests) in_memory),
  )
