-- ===== src/PreferencesStore/Mongo/Settings.antt =====
-- The round trip of the settings of preferences.mongo.go: sorted into an array, and back.
use grnoti.Prelude.{
  ◌≡◌, refl, ◌∙◌, Bool, Option, none, some, List, [], ◌∷◌, map, String, ◌==◌, eq_iff, arith,
  if◌then◌else◌,
}
use grnoti.Prelude.Maps.{Map, lookup, insert, lookup-insert}
use grnoti.Prelude.Keys.{Unique}
use grnoti.PreferencesStore.Mongo.{
  EventTypeSetting, setting_of, fill_settings, insert_setting, sort_settings, settings_to_mongo,
}

-- The first entry of an array for an event type.
abbrev first_for : String → List EventTypeSetting → Option Bool
first_for type [] = none
first_for type (s ∷ rest) = if s.event_type == type then some s.enabled else first_for type rest

-- No event type stands twice in the array.
abbrev Once : List EventTypeSetting → Type 0
Once [] = Unit
Once (s ∷ rest) = (first_for s.event_type rest ≡ none) × Once rest

abbrev or_from : Option Bool → Option Bool → Option Bool
or_from none other = other
or_from (some b) other = some b

first_for-insert_setting :
    (type : String) (s : EventTypeSetting) (rest : List EventTypeSetting)
    → first_for s.event_type rest ≡ none
    → first_for type (insert_setting s rest) ≡ first_for type (s ∷ rest)
unfolding insert_setting
first_for-insert_setting type s [] new = refl
first_for-insert_setting type s (first ∷ rest) new = ground (
  arith,
  new,
  first_for-insert_setting type s rest,
  eq_iff s.event_type type,
  eq_iff first.event_type type,
  eq_iff first.event_type s.event_type,
)

insert_setting-Once :
    (s : EventTypeSetting) (rest : List EventTypeSetting)
    → first_for s.event_type rest ≡ none
    → Once rest
    → Once (insert_setting s rest)
unfolding insert_setting
insert_setting-Once s [] new once = (refl, tt)
insert_setting-Once s (first ∷ rest) new once = ground (
  arith,
  new,
  once,
  eq_iff s.event_type first.event_type,
  eq_iff first.event_type s.event_type,
  insert_setting-Once s rest,
  first_for-insert_setting first.event_type s rest,
)

-- Sorting keeps the entries, each under its event type.
sort_settings-same :
    (settings : List EventTypeSetting)
    → Once settings
    → Once (sort_settings settings)
      × ((type : String) → first_for type (sort_settings settings) ≡ first_for type settings)
unfolding sort_settings
sort_settings-same [] once = (tt, λ type. refl)
sort_settings-same (s ∷ rest) once =
    let same = sort_settings-same rest once.1 in
    let new : first_for s.event_type (sort_settings rest) ≡ none = same.1 s.event_type ∙ once.0 in
    (
      insert_setting-Once s (sort_settings rest) new same.0,
      λ type.
          first_for-insert_setting type s (sort_settings rest) new ∙ ground (arith, same.1 type),
    )

fill_settings-lookup :
    (type : String) (settings : List EventTypeSetting) (m : Map Bool)
    → Once settings
    → lookup type (fill_settings settings m) ≡ or_from (first_for type settings) (lookup type m)
unfolding fill_settings
fill_settings-lookup type [] m once = refl
fill_settings-lookup type (s ∷ rest) m once = ground (
  arith,
  once,
  fill_settings-lookup type rest (insert s.event_type s.enabled m),
  lookup-insert s.event_type type s.enabled m,
  eq_iff s.event_type type,
)

first_for-map : (type : String) (m : Map Bool) → first_for type (map setting_of m) ≡ lookup type m
unfolding lookup
first_for-map type [] = refl
first_for-map type ((key, enabled) ∷ rest) = rw (first_for-map type rest) refl

Unique-Once : (m : Map Bool) → Unique m → Once (map setting_of m)
Unique-Once [] u = tt
Unique-Once ((key, enabled) ∷ rest) u = (first_for-map key rest ∙ u.0, Unique-Once rest u.1)

-- The settings that a read gives after a write of these.
abbrev pub restored : Map Bool → Map Bool
restored m = fill_settings (settings_to_mongo m) []

or_none : (o : Option Bool) → or_from o none ≡ o
or_none none = refl
or_none (some b) = refl

-- The settings of a user, whose event types are distinct as the keys of a Go map are, come back
-- from the sorted array with the same value for every event type, and with none where they had
-- none.
pub settings_round_trip :
    (m : Map Bool) (type : String) → Unique m → lookup type (restored m) ≡ lookup type m
unfolding settings_to_mongo lookup
settings_round_trip m type u =
    let sorted = sort_settings-same (map setting_of m) (Unique-Once m u) in
    fill_settings-lookup type (sort_settings (map setting_of m)) [] sorted.0
    ∙ or_none (first_for type (sort_settings (map setting_of m)))
    ∙ sorted.1 type
    ∙ first_for-map type m
