-- ===== src/Localization/Transparent.antt =====
-- The cache of compiled templates in localization.go changes no message.
use mathlib.Core.Path.{subst}
use grnoti.Prelude.{
  ◌≡◌, refl, sym, ap, ◌∙◌, true, Option, none, some, Result, ok, err, List, [], ◌∷◌, String, concat,
  ◌==◌, arith, if_cases, AllSome,
}
use grnoti.Prelude.Maps.{Map, lookup, insert, lookup-insert}
use grnoti.Types.{Error, Event, EventType, Message}
use grnoti.Templates.{MessageTemplate, CompiledTemplate, compile_template}
use grnoti.Localization.{
  LocalizationStore, get_localized_template, LocaleResolver, locale_of, LocalizedCacheEntry,
  LocalizedEngine, EngineState, fresh_entry, remember, hit_or_compile, get_compiled, from_compiled,
  from_localized, build_localized, register_in_base,
}
use grnoti.Templates.Compile.{compile-SameOk}
use grnoti.Localization.Uncached.{
  render_compiled, compile_and_render, build_uncached, Request, builds, registers, localizes, built,
  serve, answers, serve_uncached, answers_uncached,
}

some_to_ok : {A : Type 0} (a b : A) → some a ≡ some b → ◌≡◌ {A = Result Error A} (ok a) (ok b)
some_to_ok a b h = subst (AllSome (λ x. ◌≡◌ {A = Result Error _} (ok a) (ok x))) h refl

module _ {T B : Type 0} (e : LocalizedEngine T B)
    (equal_lem : (a b : MessageTemplate) → e.deep_equal a b ≡ true → a ≡ b) where
  -- Every entry holds the compiled form of its source, for any event type.
  abbrev Sound : Map (LocalizedCacheEntry T) → Type 0
  Sound cache =
      (key : String) (entry : LocalizedCacheEntry T) (type : EventType)
      → lookup key cache ≡ some entry
      → compile_template e.lib type entry.source ≡ ok entry.compiled

  fresh_entry_lem :
      (source : MessageTemplate) (type : EventType) (found : Option (LocalizedCacheEntry T))
      (c : CompiledTemplate T)
      → ((entry : LocalizedCacheEntry T)
          → found ≡ some entry
          → compile_template e.lib type entry.source ≡ ok entry.compiled)
      → fresh_entry e source found ≡ some c
      → compile_template e.lib type source ≡ ok c
  fresh_entry_lem source type none c sound f = ground (arith, f)
  fresh_entry_lem source type (some entry) c sound f =
      if_cases (λ x. x ≡ some c → compile_template e.lib type source ≡ ok c)
        (e.deep_equal entry.source source) _ _
        (λ same h.
          ap (compile_template e.lib type) (sym (equal_lem entry.source source same))
          ∙ sound entry refl
          ∙ some_to_ok entry.compiled c h)
        (λ differ h. ground (arith, h)) f

  insert-Sound :
      (cache : Map (LocalizedCacheEntry T)) (key : String) (new : LocalizedCacheEntry T)
      → ((type : EventType) → compile_template e.lib type new.source ≡ ok new.compiled)
      → Sound cache
      → Sound (insert key new cache)
  insert-Sound cache key new right sound other entry type found =
      if_cases (λ x. x ≡ some entry → compile_template e.lib type entry.source ≡ ok entry.compiled)
        (key == other) _ _
        (λ same h.
          subst (AllSome (λ kept. compile_template e.lib type kept.source ≡ ok kept.compiled)) h
            (right type))
        (λ differ h. sound other entry type h) (sym (lookup-insert key other new cache) ∙ found)

  remember_lem :
      (cache : Map (LocalizedCacheEntry T)) (key : String) (type : EventType)
      (source : MessageTemplate) (compiled : Result Error (CompiledTemplate T))
      → compile_template e.lib type source ≡ compiled
      → Sound cache
      → ((remember e cache key source compiled).0 ≡ compiled)
        × Sound (remember e cache key source compiled).1
  remember_lem cache key type source (err why) c sound = (refl, sound)
  remember_lem cache key type source (ok compiled) c sound = (
    refl,
    insert-Sound cache key _ (λ other. compile-SameOk e.lib type other source compiled c) sound,
  )

  hit_or_compile_lem :
      (cache : Map (LocalizedCacheEntry T)) (key : String) (type : EventType)
      (source : MessageTemplate) (hit : Option (CompiledTemplate T))
      → ((c : CompiledTemplate T) → hit ≡ some c → compile_template e.lib type source ≡ ok c)
      → Sound cache
      → ((hit_or_compile e cache key type source hit).0 ≡ compile_template e.lib type source)
        × Sound (hit_or_compile e cache key type source hit).1
  hit_or_compile_lem cache key type source (some c) right sound = (sym (right c refl), sound)
  hit_or_compile_lem cache key type source none right sound =
      remember_lem cache key type source (compile_template e.lib type source) refl sound

  get_compiled_lem :
      (cache : Map (LocalizedCacheEntry T)) (type : EventType) (locale : String)
      (source : MessageTemplate)
      → Sound cache
      → ((get_compiled e cache type locale source).0 ≡ compile_template e.lib type source)
        × Sound (get_compiled e cache type locale source).1
  unfolding get_compiled
  get_compiled_lem cache type locale source sound =
      let key = concat type (concat ":" locale) in
      hit_or_compile_lem cache key type source (fresh_entry e source (lookup key cache))
        (λ c. fresh_entry_lem source type (lookup key cache) c (λ entry f. sound key entry type f))
        sound

  -- The engines agree on the answer and on the state of the base engine.
  abbrev Agrees :
      LocalizationStore → Result Error Message × EngineState T B → Result Error Message × B → Type 0
  Agrees store r u = (r.0 ≡ u.0) × (r.1.base ≡ u.1) × (r.1.locale_store ≡ store) × Sound r.1.cache

  from_compiled-Agrees :
      (s : EngineState T B) (event : Event)
      (r : Result Error (CompiledTemplate T) × Map (LocalizedCacheEntry T))
      → Sound r.1
      → Agrees s.locale_store (from_compiled e s event r) (render_compiled e s.base event r.0)
  from_compiled-Agrees s event (err why, cache) sound = (refl, refl, refl, sound)
  from_compiled-Agrees s event (ok compiled, cache) sound = (refl, refl, refl, sound)

  from_localized-Agrees :
      (s : EngineState T B) (locale : String) (event : Event) (found : Result Error MessageTemplate)
      → Sound s.cache
      → Agrees s.locale_store
          (from_localized e s locale event found)
          (compile_and_render e s.base event found)
  from_localized-Agrees s locale event (err why) sound = (refl, refl, refl, sound)
  from_localized-Agrees s locale event (ok source) sound =
      let c = get_compiled_lem s.cache event.type locale source sound in
      subst
        (λ x.
          Agrees s.locale_store
            (from_compiled e s event (get_compiled e s.cache event.type locale source))
            (render_compiled e s.base event x))
        c.0 (from_compiled-Agrees s event (get_compiled e s.cache event.type locale source) c.1)

  build-Agrees :
      (s : EngineState T B) (r : LocaleResolver) (event : Event)
      → Sound s.cache
      → Agrees s.locale_store
          (build_localized e s r event)
          (build_uncached e s.base s.locale_store r event)
  unfolding build_localized
  build-Agrees s r event sound =
      from_localized-Agrees s (locale_of r event) event
        (get_localized_template s.locale_store event.type (locale_of r event)) sound

  serve_lem :
      (s : EngineState T B) (request : Request)
      → Sound s.cache
      → let u = serve_uncached e s.base s.locale_store request in
        ((serve e s request).0 ≡ u.0)
        × ((serve e s request).1.base ≡ u.1)
        × ((serve e s request).1.locale_store ≡ u.2)
        × Sound (serve e s request).1.cache
  unfolding register_in_base
  serve_lem s (builds r event) sound =
      let a = build-Agrees s r event sound in (ap built a.0, a.1, a.2, a.3)
  serve_lem s (registers type tmpl) sound = (refl, refl, refl, sound)
  serve_lem s (localizes type locale tmpl) sound = (refl, refl, refl, sound)

  answers_lem :
      (s : EngineState T B) (requests : List Request)
      → Sound s.cache
      → answers e s requests ≡ answers_uncached e s.base s.locale_store requests
  answers_lem s [] sound = refl
  answers_lem s (request ∷ requests) sound =
      let a = serve_lem s request sound in
      let later = answers_lem (serve e s request).1 requests a.3 in rw (a.0, later, a.1, a.2)

  -- The localized engine with an empty cache answers every sequence of builds and registrations as
  -- an engine that compiles the template for every message: no build uses the compiled form of a
  -- replaced template, or of another event type and locale with the same cache key. DeepEqual is
  -- assumed to hold of equal templates only.
  pub cache_transparent :
      (base : B) (store : LocalizationStore) (requests : List Request)
      → answers e (record { base = base; locale_store = store; cache = [] }) requests
        ≡ answers_uncached e base store requests
  unfolding lookup
  cache_transparent base store requests =
      answers_lem (record { base = base; locale_store = store; cache = [] }) requests
        (λ key entry type found. ground (arith, found))
