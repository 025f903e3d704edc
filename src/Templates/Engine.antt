-- ===== src/Templates/Engine.antt =====
-- templateengine.go: defaultTemplateEngine, and the interface TemplateEngine of interfaces.go as a
-- record of operations. A range over the map of the default templates registers each; the order
-- does not matter, since the keys differ.
use grnoti.Prelude.{Option, none, some, Result, ok, err, List, [], ◌∷◌, String}
use grnoti.Prelude.Int.{pos}
use grnoti.Prelude.Maps.{Map, lookup, insert}
use grnoti.Types.{Error, err_template_not_found, Event, EventType, Message}
use grnoti.Templates.{
  Templating, MessageTemplate, CompiledTemplate, compile_template, render_message,
}

pub record TemplateEngine (B : Type 0) : Type 0 where
  pub build_message : B → Event → Result Error Message × B
  pub register_template : B → EventType → MessageTemplate → Option Error × B

abbrev pub category_transactional : String
category_transactional = "transactional"

abbrev pub category_marketing : String
category_marketing = "marketing"

abbrev pub category_alert : String
category_alert = "alert"

abbrev pub event_type_custom : EventType
event_type_custom = "custom"

abbrev plain : String → String → String → String → String → MessageTemplate
plain title body channel_id sound category = record {
  title_template = title;
  body_template = body;
  default_data = [];
  default_ttl = pos 0;
  collapse_key = "";
  channel_id = channel_id;
  sound = sound;
  actions = [];
  deep_link = "";
  category = category;
}

abbrev pub default_templates : List (EventType × MessageTemplate)
default_templates =
    (event_type_custom, plain "{{.title}}" "{{.body}}" "" "" category_transactional)
    ∷ ("system_alert", plain "System Alert" "{{.message}}" "alerts" "default" category_alert)
    ∷ (
      "account_verification",
      plain "Verify your account" "Please verify your account to continue." "account" "default"
          category_transactional,
    )
    ∷ (
      "password_reset",
      plain "Password reset requested"
          "A password reset was requested for your account. If this wasn't you, please secure your account."
          "security" "default" category_transactional,
    )
    ∷ (
      "generic_transactional",
      plain "{{.title}}" "{{.body}}" "transactional" "default" category_transactional,
    )
    ∷ ("generic_marketing", plain "{{.title}}" "{{.body}}" "promotions" "" category_marketing)
    ∷ []

module _ {T : Type 0} (lib : Templating T) where
  -- defaultTemplateEngine
  abbrev pub DefaultTemplateEngine : Type 0
  DefaultTemplateEngine = Map (CompiledTemplate T)

  abbrev pub registered :
      DefaultTemplateEngine
      → EventType
      → Result Error (CompiledTemplate T)
      → Option Error × DefaultTemplateEngine
  registered templates type (err e) = (some e, templates)
  registered templates type (ok compiled) = (none, insert type compiled templates)

  unfoldable pub register_template :
      DefaultTemplateEngine → EventType → MessageTemplate → Option Error × DefaultTemplateEngine
  register_template templates type tmpl = registered templates type (compile_template lib type tmpl)

  -- The error of a default template is dropped.
  abbrev pub register_each :
      DefaultTemplateEngine → List (EventType × MessageTemplate) → DefaultTemplateEngine
  register_each templates [] = templates
  register_each templates ((type, tmpl) ∷ rest) =
      register_each (register_template templates type tmpl).1 rest

  -- NewTemplateEngine
  unfoldable pub new_template_engine : DefaultTemplateEngine
  new_template_engine = register_each [] default_templates

  abbrev pub or_custom :
      DefaultTemplateEngine → Option (CompiledTemplate T) → Option (CompiledTemplate T)
  or_custom templates (some compiled) = some compiled
  or_custom templates none = lookup event_type_custom templates

  abbrev pub render_found : Event → Option (CompiledTemplate T) → Result Error Message
  render_found event none = err err_template_not_found
  render_found event (some compiled) = render_message lib compiled event

  unfoldable pub build_message : DefaultTemplateEngine → Event → Result Error Message
  build_message templates event =
      render_found event (or_custom templates (lookup event.type templates))

  abbrev pub default_engine : TemplateEngine DefaultTemplateEngine
  default_engine = record {
    build_message = λ b event. (build_message b event, b);
    register_template = register_template;
  }
