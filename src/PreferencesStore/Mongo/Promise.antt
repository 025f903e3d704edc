-- ===== src/PreferencesStore/Mongo/Promise.antt =====
-- The store of preferences.mongo.go answers as its interface promises while the database serves
-- its operations, with the settings as they come back from their array.
use grnoti.Prelude.{
  ℕ, ◌≡◌, refl, ap, ◌∙◌, true, false, Option, none, some, ok, List, [], ◌∷◌, map, String, ◌==◌,
  arith, Bool-cases, inl, inr,
}
use grnoti.Prelude.Maps.{lookup}
use grnoti.Preferences.{NotificationPreferences}
use grnoti.Database.{served, millis}
use grnoti.PreferencesStore.{
  View, Request, gets, saves, asks, preferences, saved, enabled, serve, answers, promised, viewed,
  promises, stamped, get_answer, save_answer, view_saved,
}
use grnoti.PreferencesStore.Memory.{enabled_by, enabled_by-get_answer}
use grnoti.PreferencesStore.Written.{insert-Holds}
use grnoti.PreferencesStore.Mongo.{
  PreferencesDoc, MongoPreferences, to_preferences, written, answer_doc, get_preferences,
  save_preferences, is_enabled_for, mongo_preferences_store,
}
use grnoti.PreferencesStore.Mongo.Settings.{restored}

abbrev stored : NotificationPreferences → NotificationPreferences
stored prefs = record prefs { event_type_settings = restored prefs.event_type_settings }

-- A request with the settings as the store gives them back, at a time in whole milliseconds.
abbrev pub as_stored : Request → Request
as_stored (gets user_id) = gets user_id
as_stored (saves now prefs) = saves (millis now) (stored prefs)
as_stored (asks user_id type) = asks user_id type

-- A document under a user holds the preferences that a view has of the user.
abbrev pub HoldsDoc : String → Option PreferencesDoc → Option NotificationPreferences → Type 0
HoldsDoc user_id none none = Unit
HoldsDoc user_id (some d) (some prefs) = (d.user_id ≡ user_id) × (to_preferences d ≡ prefs)
HoldsDoc user_id _ _ = true ≡ false

HoldsDoc-answer :
    (user_id : String) (d : Option PreferencesDoc) (prefs : Option NotificationPreferences)
    → HoldsDoc user_id d prefs
    → answer_doc user_id (ok d) ≡ get_answer prefs
HoldsDoc-answer user_id none none h = refl
HoldsDoc-answer user_id (some d) (some prefs) h = ap ok h.1
HoldsDoc-answer user_id none (some prefs) h = ground (arith, h)
HoldsDoc-answer user_id (some d) none h = ground (arith, h)

-- The document of a user that is written on top of the old one.
written-HoldsDoc :
    (now : ℕ) (prefs : NotificationPreferences) (old : Option PreferencesDoc)
    (before : Option NotificationPreferences)
    → HoldsDoc prefs.user_id old before
    → HoldsDoc prefs.user_id
        (some (written now prefs old))
        (some (stamped (millis now) (stored prefs) before))
unfolding to_preferences
written-HoldsDoc now prefs none none h = (refl, refl)
written-HoldsDoc now prefs none (some p) h = ground (arith, h)
written-HoldsDoc now prefs (some d) none h = ground (arith, h)
written-HoldsDoc now prefs (some d) (some p) h =
    let created : d.created_at ≡ p.created_at = ap (λ q. q.created_at) h.1 in
    (h.0, rw (h.0, created) refl)

module _ {Client : Type 0} where
  abbrev pub ShowsDocs : MongoPreferences Client → View → Type 0
  ShowsDocs s v =
      (s.closed ≡ false)
      × ((user_id : String) → HoldsDoc user_id (lookup user_id s.collection) (v user_id))

  save_shows :
      (s : MongoPreferences Client) (v : View) (now : ℕ) (prefs : NotificationPreferences)
      → ShowsDocs s v
      → ((save_preferences served s now prefs).0 ≡ save_answer prefs)
        × ShowsDocs
            (save_preferences served s now prefs).1
            (view_saved v (millis now) (stored prefs))
  unfolding save_preferences
  save_shows s v now prefs shows = elim (Bool-cases (prefs.user_id == "")) [
    | inl e ↦ simp (shows.0, e) (refl, (refl, shows.1))
    | inr e ↦
        let old = lookup prefs.user_id s.collection in
        simp (shows.0, e)
          (
            refl,
            (
              refl,
              insert-Holds HoldsDoc s.collection v prefs.user_id (written now prefs old)
                  (stamped (millis now) (stored prefs) (v prefs.user_id)) shows.1
                  (written-HoldsDoc now prefs old (v prefs.user_id) (shows.1 prefs.user_id)),
            ),
          )
  ]

  get_shown :
      (s : MongoPreferences Client) (v : View) (user_id : String)
      → ShowsDocs s v
      → get_preferences served s user_id ≡ get_answer (v user_id)
  unfolding get_preferences
  get_shown s v user_id shows =
      rw (shows.0)
        (HoldsDoc-answer user_id (lookup user_id s.collection) (v user_id) (shows.1 user_id))

  serve_shown :
      (s : MongoPreferences Client) (v : View) (request : Request)
      → ShowsDocs s v
      → ((serve mongo_preferences_store s request).0 ≡ promised v (as_stored request))
        × ShowsDocs (serve mongo_preferences_store s request).1 (viewed v (as_stored request))
  unfolding is_enabled_for
  serve_shown s v (gets user_id) shows = (ap preferences (get_shown s v user_id shows), shows)
  serve_shown s v (saves now prefs) shows =
      let r = save_shows s v now prefs shows in (ap saved r.0, r.1)
  serve_shown s v (asks user_id type) shows = (
    ap (λ r. enabled (enabled_by r type)) (get_shown s v user_id shows)
        ∙ ap enabled (enabled_by-get_answer (v user_id) type),
    shows,
  )

  -- The store over MongoDB
  pub mongo_answers :
      (s : MongoPreferences Client) (v : View) (requests : List Request)
      → ShowsDocs s v
      → answers mongo_preferences_store s requests ≡ promises v (map as_stored requests)
  mongo_answers s v [] shows = refl
  mongo_answers s v (request ∷ requests) shows =
      let r = serve_shown s v request shows in
      rw (
        r.0,
        mongo_answers (serve mongo_preferences_store s request).1 (viewed v (as_stored request))
            requests r.1,
      )
