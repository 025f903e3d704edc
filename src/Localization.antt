-- ===== src/Localization.antt =====
-- localization.go: the store of localized templates, the locale resolvers, and the localized engine
-- in front of another engine. reflect.DeepEqual of templates is a parameter. A resolver may answer
-- differently at every call, so it comes with the call.
pub mod Uncached
pub mod Transparent
pub mod Tests
use grnoti.Prelude.{
  Bool, true, false, ◌&&◌, Option, none, some, Result, ok, err, List, [], ◌∷◌, String, concat, ◌==◌,
  map, if◌then◌else◌,
}
use grnoti.Prelude.Maps.{Map, lookup, insert}
use grnoti.Types.{
  Error, err_template_not_found, Event, EventType, Message, is_authenticated, is_anonymous,
}
use grnoti.Preferences.{NotificationPreferences}
use grnoti.Templates.{
  Templating, MessageTemplate, CompiledTemplate, compile_template, render_message,
}
use grnoti.Templates.Engine.{TemplateEngine}

pub record LocalizedTemplate : Type 0 where
  pub default_locale : String
  pub templates : Map MessageTemplate

-- inMemoryLocalizationStore
abbrev pub LocalizationStore : Type 0
LocalizationStore = Map LocalizedTemplate

-- NewInMemoryLocalizationStore
abbrev pub no_templates : LocalizationStore
no_templates = []

-- The entry of an event type, a new one if there is none.
abbrev pub entry_or_new : Option LocalizedTemplate → LocalizedTemplate
entry_or_new (some entry) = entry
entry_or_new none = record { default_locale = "en"; templates = [] }

unfoldable pub register_localized_template :
    LocalizationStore → EventType → String → MessageTemplate → LocalizationStore
register_localized_template s type locale tmpl =
    let entry = entry_or_new (lookup type s) in
    insert type (record entry { templates = insert locale tmpl entry.templates }) s

abbrev pub template_or_error : Option MessageTemplate → Result Error MessageTemplate
template_or_error none = err err_template_not_found
template_or_error (some tmpl) = ok tmpl

abbrev pub in_locale : LocalizedTemplate → Option MessageTemplate → Result Error MessageTemplate
in_locale entry (some tmpl) = ok tmpl
in_locale entry none = template_or_error (lookup entry.default_locale entry.templates)

abbrev pub in_entry : String → Option LocalizedTemplate → Result Error MessageTemplate
in_entry locale none = err err_template_not_found
in_entry locale (some entry) = in_locale entry (lookup locale entry.templates)

unfoldable pub get_localized_template :
    LocalizationStore → EventType → String → Result Error MessageTemplate
get_localized_template s type locale = in_entry locale (lookup type s)

unfoldable pub get_supported_locales : LocalizationStore → EventType → List String
get_supported_locales s type = elim (lookup type s) [
  | none ↦ []
  | some entry ↦ map (λ e. e.0) entry.templates
]

-- LocaleResolver
pub record LocaleResolver : Type 0 where
  pub resolve_locale : String → Result Error String
  pub resolve_locale_for_anonymous : String → Result Error String
  pub default_locale : String

abbrev pub fallback_locale : String → String
fallback_locale fallback = if fallback == "" then "en" else fallback

abbrev pub preferred_locale : String → Result Error NotificationPreferences → String
preferred_locale fallback (err e) = fallback
preferred_locale fallback (ok prefs) = if prefs.locale == "" then fallback else prefs.locale

-- NewPreferencesLocaleResolver, with the answers of its preferences store.
unfoldable pub preferences_locale_resolver :
    (String → Result Error NotificationPreferences) → String → LocaleResolver
preferences_locale_resolver get_preferences fallback = record {
  resolve_locale =
      λ user_id. ok (preferred_locale (fallback_locale fallback) (get_preferences user_id));
  resolve_locale_for_anonymous = λ anonymous_id. ok (fallback_locale fallback);
  default_locale = fallback_locale fallback;
}

-- NewStaticLocaleResolver
unfoldable pub static_locale_resolver : String → LocaleResolver
static_locale_resolver locale = record {
  resolve_locale = λ user_id. ok locale;
  resolve_locale_for_anonymous = λ anonymous_id. ok locale;
  default_locale = locale;
}

-- The switch at the head of BuildMessage, with the default locale for an error.
abbrev pub or_default_locale : LocaleResolver → Result Error String → String
or_default_locale r (ok locale) = locale
or_default_locale r (err e) = r.default_locale

unfoldable pub locale_of : LocaleResolver → Event → String
locale_of r event =
    if is_authenticated event
    then or_default_locale r (r.resolve_locale event.user_id)
    else if is_anonymous event
    then or_default_locale r (r.resolve_locale_for_anonymous event.anonymous_id)
    else r.default_locale

-- localizedCacheEntry
pub record LocalizedCacheEntry (T : Type 0) : Type 0 where
  pub source : MessageTemplate
  pub compiled : CompiledTemplate T

-- localizedTemplateEngine: what it calls, and its state.
pub record LocalizedEngine (T B : Type 0) : Type 0 where
  pub base_engine : TemplateEngine B
  pub lib : Templating T
  pub deep_equal : MessageTemplate → MessageTemplate → Bool

pub record EngineState (T B : Type 0) : Type 0 where
  pub base : B
  pub locale_store : LocalizationStore
  pub cache : Map (LocalizedCacheEntry T)

module _ {T B : Type 0} (e : LocalizedEngine T B) where
  -- What of an entry may be used for a source: its compiled template, if the source is the same.
  abbrev pub fresh_entry :
      MessageTemplate → Option (LocalizedCacheEntry T) → Option (CompiledTemplate T)
  fresh_entry source none = none
  fresh_entry source (some entry) =
      if e.deep_equal entry.source source then some entry.compiled else none

  abbrev pub remember :
      Map (LocalizedCacheEntry T)
      → String
      → MessageTemplate
      → Result Error (CompiledTemplate T)
      → Result Error (CompiledTemplate T) × Map (LocalizedCacheEntry T)
  remember cache key source (err why) = (err why, cache)
  remember cache key source (ok compiled) =
      (ok compiled, insert key (record { source = source; compiled = compiled }) cache)

  abbrev pub hit_or_compile :
      Map (LocalizedCacheEntry T)
      → String
      → EventType
      → MessageTemplate
      → Option (CompiledTemplate T)
      → Result Error (CompiledTemplate T) × Map (LocalizedCacheEntry T)
  hit_or_compile cache key type source (some compiled) = (ok compiled, cache)
  hit_or_compile cache key type source none =
      remember cache key source (compile_template e.lib type source)

  unfoldable pub get_compiled :
      Map (LocalizedCacheEntry T)
      → EventType
      → String
      → MessageTemplate
      → Result Error (CompiledTemplate T) × Map (LocalizedCacheEntry T)
  get_compiled cache type locale source =
      let key = concat type (concat ":" locale) in
      hit_or_compile cache key type source (fresh_entry source (lookup key cache))

  abbrev pub from_base : EngineState T B → Event → Result Error Message × EngineState T B
  from_base s event =
      let r = e.base_engine.build_message s.base event in (r.0, record s { base = r.1 })

  abbrev pub from_compiled :
      EngineState T B
      → Event
      → Result Error (CompiledTemplate T) × Map (LocalizedCacheEntry T)
      → Result Error Message × EngineState T B
  from_compiled s event (err why, cache) = from_base (record s { cache = cache }) event
  from_compiled s event (ok compiled, cache) =
      (render_message e.lib compiled event, record s { cache = cache })

  abbrev pub from_localized :
      EngineState T B
      → String
      → Event
      → Result Error MessageTemplate
      → Result Error Message × EngineState T B
  from_localized s locale event (err why) = from_base s event
  from_localized s locale event (ok source) =
      from_compiled s event (get_compiled s.cache event.type locale source)

  unfoldable pub build_localized :
      EngineState T B → LocaleResolver → Event → Result Error Message × EngineState T B
  build_localized s r event =
      from_localized s (locale_of r event) event
        (get_localized_template s.locale_store event.type (locale_of r event))

  unfoldable pub register_in_base :
      EngineState T B → EventType → MessageTemplate → Option Error × EngineState T B
  register_in_base s type tmpl =
      let r = e.base_engine.register_template s.base type tmpl in (r.0, record s { base = r.1 })
