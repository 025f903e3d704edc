-- ===== src/Localization/Uncached.antt =====
-- The localized engine of localization.go without its cache, which it is compared with, and what a
-- client does with either.
use grnoti.Prelude.{Option, Result, ok, err, List, [], ◌∷◌, String}
use grnoti.Types.{Error, Event, EventType, Message}
use grnoti.Templates.{MessageTemplate, CompiledTemplate, compile_template, render_message}
use grnoti.Localization.{
  LocalizationStore, register_localized_template, get_localized_template, LocaleResolver, locale_of,
  LocalizedEngine, EngineState, build_localized, register_in_base,
}

-- The engine without a cache, which compiles the template of every message.
module _ {T B : Type 0} (e : LocalizedEngine T B) where
  abbrev pub render_compiled :
      B → Event → Result Error (CompiledTemplate T) → Result Error Message × B
  render_compiled b event (err why) = e.base_engine.build_message b event
  render_compiled b event (ok compiled) = (render_message e.lib compiled event, b)

  abbrev pub compile_and_render :
      B → Event → Result Error MessageTemplate → Result Error Message × B
  compile_and_render b event (err why) = e.base_engine.build_message b event
  compile_and_render b event (ok source) =
      render_compiled b event (compile_template e.lib event.type source)

  abbrev pub build_uncached :
      B → LocalizationStore → LocaleResolver → Event → Result Error Message × B
  build_uncached b store r event =
      compile_and_render b event (get_localized_template store event.type (locale_of r event))

-- What a client does: build a message with the resolver's answers of that moment, register a
-- template with the engine, or one with the store.
pub data Request : Type 0 where
  builds : LocaleResolver → Event → Request
  registers : EventType → MessageTemplate → Request
  localizes : EventType → String → MessageTemplate → Request

pub data Answer : Type 0 where
  built : Result Error Message → Answer
  registered : Option Error → Answer
  localized : Answer

module _ {T B : Type 0} (e : LocalizedEngine T B) where
  abbrev pub serve : EngineState T B → Request → Answer × EngineState T B
  serve s (builds r event) = let a = build_localized e s r event in (built a.0, a.1)
  serve s (registers type tmpl) = let a = register_in_base e s type tmpl in (registered a.0, a.1)
  serve s (localizes type locale tmpl) = (
    localized,
    record s { locale_store = register_localized_template s.locale_store type locale tmpl },
  )

  abbrev pub answers : EngineState T B → List Request → List Answer
  answers s [] = []
  answers s (request ∷ requests) = (serve s request).0 ∷ answers (serve s request).1 requests

  abbrev pub serve_uncached : B → LocalizationStore → Request → Answer × B × LocalizationStore
  serve_uncached b store (builds r event) =
      let a = build_uncached e b store r event in (built a.0, a.1, store)
  serve_uncached b store (registers type tmpl) =
      let a = e.base_engine.register_template b type tmpl in (registered a.0, a.1, store)
  serve_uncached b store (localizes type locale tmpl) =
      (localized, b, register_localized_template store type locale tmpl)

  abbrev pub answers_uncached : B → LocalizationStore → List Request → List Answer
  answers_uncached b store [] = []
  answers_uncached b store (request ∷ requests) =
      let a = serve_uncached b store request in a.0 ∷ answers_uncached a.1 a.2 requests
