-- ===== src/PreferencesStore/Postgres/Promise.antt =====
-- The store of preferences.postgres.go answers as its interface promises while the database serves
-- its statements, with times in whole microseconds.
use grnoti.Prelude.{
  map, [], ◌∷◌, ℕ, ◌≡◌, refl, ap, ◌∙◌, Bool, true, false, Option, none, some, Result, ok, err, List,
  String, ◌==◌, arith, Bool-cases, inl, inr,
}
use grnoti.Prelude.Maps.{Map, lookup}
use grnoti.Prelude.Fallible.{pure, ◌>>=◌}
use grnoti.Types.{Error}
use grnoti.Preferences.{NotificationPreferences}
use grnoti.Database.{served, micros}
use grnoti.Postgres.{Timestamptz, pg_timestamptz, pg_time, pg_time-pg_timestamptz}
use grnoti.PreferencesStore.{
  View, Request, gets, saves, asks, preferences, saved, enabled, serve, answers, promised, viewed,
  promises, stamped, get_answer, save_answer, view_saved,
}
use grnoti.PreferencesStore.Memory.{enabled_by, enabled_by-get_answer}
use grnoti.PreferencesStore.Written.{insert-Holds}
use grnoti.PreferencesStore.Postgres.{
  SettingsCodec, PreferencesRow, PostgresPreferences, upserted, preferences_row,
  preferences_row_to_domain, decode_settings, preferences_of, row_of, answer_row, get_preferences,
  save_encoded, save_preferences, is_enabled_for, postgres_preferences_store, upsert_preferences,
}

-- What the store relies on in encoding/json: settings are encoded, as some bytes, and decoded again.
pub record SettingsLaws {Raw : Type 0} (codec : SettingsCodec Raw) : Type 0 where
  pub round_trip :
      (settings : Map Bool)
      → (raw : Raw) × (codec.marshal settings ≡ ok raw)
        × (codec.is_empty raw ≡ false)
        × (codec.unmarshal raw ≡ ok settings)

-- A request at a time in whole microseconds, as a column keeps it.
abbrev pub in_micros : Request → Request
in_micros (gets user_id) = gets user_id
in_micros (saves now prefs) = saves (micros now) prefs
in_micros (asks user_id type) = asks user_id type

abbrev created_in : Result Error NotificationPreferences → ℕ
created_in (err e) = 0
created_in (ok prefs) = prefs.created_at

module _ {Raw : Type 0} (codec : SettingsCodec Raw) where
  -- A row under a user holds the preferences that a view has of the user.
  abbrev pub Holds : String → Option (PreferencesRow Raw) → Option NotificationPreferences → Type 0
  Holds user_id none none = Unit
  Holds user_id (some row) (some prefs) =
      (row.user_id ≡ user_id) × (preferences_row_to_domain codec row ≡ ok prefs)
  Holds user_id _ _ = true ≡ false

  Holds-answer :
      (user_id : String) (row : Option (PreferencesRow Raw))
      (prefs : Option NotificationPreferences)
      → Holds user_id row prefs
      → answer_row codec user_id (ok row) ≡ get_answer prefs
  Holds-answer user_id none none h = refl
  Holds-answer user_id (some row) (some prefs) h = h.1
  Holds-answer user_id none (some prefs) h = ground (arith, h)
  Holds-answer user_id (some row) none h = ground (arith, h)

  -- A row with encoded settings, and its times.
  row_decoded :
      (prefs : NotificationPreferences) (raw : Raw) (id : String) (created : Timestamptz) (now : ℕ)
      → codec.is_empty raw ≡ false
      → codec.unmarshal raw ≡ ok prefs.event_type_settings
      → preferences_row_to_domain codec
          (record (row_of codec prefs raw now) { user_id = id; created_at = created })
        ≡ ok (record prefs { user_id = id; created_at = pg_time created; updated_at = micros now })
  unfolding preferences_row_to_domain
  row_decoded prefs raw id created now filled back =
      rw (filled, back, pg_time-pg_timestamptz now) refl

  created_at-decoded :
      (row : PreferencesRow Raw) (prefs : NotificationPreferences)
      (settings : Result Error (Map Bool))
      → (settings >>= (λ found. pure (preferences_of row found))) ≡ ok prefs
      → pg_time row.created_at ≡ prefs.created_at
  created_at-decoded row prefs (ok settings) d = ap created_in d
  created_at-decoded row prefs (err why) d = ground (arith, d)

  -- The row of a user that is written on top of the old one.
  row_written :
      (prefs : NotificationPreferences) (raw : Raw) (now : ℕ) (old : Option (PreferencesRow Raw))
      (before : Option NotificationPreferences)
      → codec.is_empty raw ≡ false
      → codec.unmarshal raw ≡ ok prefs.event_type_settings
      → Holds prefs.user_id old before
      → Holds prefs.user_id
          (some (upserted (row_of codec prefs raw now) old))
          (some (stamped (micros now) prefs before))
  unfolding preferences_row_to_domain
  row_written prefs raw now none none filled back h = (
    refl,
    row_decoded prefs raw prefs.user_id (pg_timestamptz now) now filled back
        ∙ ap (λ t. ok (record prefs { created_at = t; updated_at = micros now }))
            (pg_time-pg_timestamptz now),
  )
  row_written prefs raw now none (some p) filled back h = ground (arith, h)
  row_written prefs raw now (some row) none filled back h = ground (arith, h)
  row_written prefs raw now (some row) (some p) filled back h = (
    h.0,
    row_decoded prefs raw row.user_id row.created_at now filled back
        ∙ rw (h.0, created_at-decoded row p (decode_settings codec row) h.1) refl,
  )

  abbrev pub ShowsRows : {Pool : Type 0} → PostgresPreferences Pool Raw → View → Type 0
  ShowsRows s v =
      (s.closed ≡ false) × ((user_id : String) → Holds user_id (lookup user_id s.table) (v user_id))

module _ {Raw Pool : Type 0} (codec : SettingsCodec Raw) (laws : SettingsLaws codec) where
  save_encoded_shows :
      (s : PostgresPreferences Pool Raw) (v : View) (now : ℕ) (prefs : NotificationPreferences)
      → ShowsRows codec s v
      → (prefs.user_id == "") ≡ false
      → let r = save_encoded codec served s now prefs (codec.marshal prefs.event_type_settings) in
        (r.0 ≡ none) × ShowsRows codec r.1 (view_saved v (micros now) prefs)
  unfolding upsert_preferences
  save_encoded_shows s v now prefs shows named =
      let encoded = laws.round_trip prefs.event_type_settings in
      let old = lookup prefs.user_id s.table in
      simp (encoded.1, named)
        (
          refl,
          (
            shows.0,
            insert-Holds (Holds codec) s.table v prefs.user_id
                (upserted (row_of codec prefs encoded.0 now) old)
                (stamped (micros now) prefs (v prefs.user_id)) shows.1
                (row_written codec prefs encoded.0 now old (v prefs.user_id) encoded.2 encoded.3
                  (shows.1 prefs.user_id)),
          ),
        )

  save_shows :
      (s : PostgresPreferences Pool Raw) (v : View) (now : ℕ) (prefs : NotificationPreferences)
      → ShowsRows codec s v
      → ((save_preferences codec served s now prefs).0 ≡ save_answer prefs)
        × ShowsRows codec
            (save_preferences codec served s now prefs).1
            (view_saved v (micros now) prefs)
  unfolding save_preferences
  save_shows s v now prefs shows = elim (Bool-cases (prefs.user_id == "")) [
    | inl e ↦ simp (shows.0, e) (refl, (refl, shows.1))
    | inr e ↦
        let open_path : save_preferences codec served s now prefs
            ≡ save_encoded codec served s now prefs (codec.marshal prefs.event_type_settings) =
          simp (shows.0, e) refl in
        let encoded = save_encoded_shows s v now prefs shows e in
        rw open_path (encoded.0 ∙ rw e refl, encoded.1)
  ]

  get_shown :
      (s : PostgresPreferences Pool Raw) (v : View) (user_id : String)
      → ShowsRows codec s v
      → get_preferences codec served s user_id ≡ get_answer (v user_id)
  unfolding get_preferences preferences_row
  get_shown s v user_id shows =
      rw (shows.0)
        (Holds-answer codec user_id (lookup user_id s.table) (v user_id) (shows.1 user_id))

  serve_shown :
      (s : PostgresPreferences Pool Raw) (v : View) (request : Request)
      → ShowsRows codec s v
      → let r = serve (postgres_preferences_store codec) s request in
        (r.0 ≡ promised v (in_micros request)) × ShowsRows codec r.1 (viewed v (in_micros request))
  unfolding is_enabled_for
  serve_shown s v (gets user_id) shows = (ap preferences (get_shown s v user_id shows), shows)
  serve_shown s v (saves now prefs) shows =
      let r = save_shows s v now prefs shows in (ap saved r.0, r.1)
  serve_shown s v (asks user_id type) shows = (
    ap (λ r. enabled (enabled_by r type)) (get_shown s v user_id shows)
        ∙ ap enabled (enabled_by-get_answer (v user_id) type),
    shows,
  )

  -- The store over PostgreSQL
  pub postgres_answers :
      (s : PostgresPreferences Pool Raw) (v : View) (requests : List Request)
      → ShowsRows codec s v
      → answers (postgres_preferences_store codec) s requests ≡ promises v (map in_micros requests)
  postgres_answers s v [] shows = refl
  postgres_answers s v (request ∷ requests) shows =
      let r = serve_shown s v request shows in
      rw (
        r.0,
        postgres_answers (serve (postgres_preferences_store codec) s request).1
            (viewed v (in_micros request)) requests r.1,
      )
