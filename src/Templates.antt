-- ===== src/Templates.antt =====
-- templateengine.go: compileTemplate, renderMessage and the default engine. text/template is a
-- parameter: `parse` takes the name and the text of a template, and `execute` the data. So are
-- strings.TrimSpace, time.ParseDuration (`none` for an error) and the printing of numbers.
pub mod Engine
pub mod Compile
pub mod Tests
use grnoti.Prelude.{
  ℕ, suc, Bool, true, false, Option, none, some, Result, ok, err, List, [], ◌∷◌, String, concat,
  if◌then◌else◌,
}
use grnoti.Prelude.Int.{ℤ}
use grnoti.Prelude.Maps.{Map, lookup, insert}
use grnoti.Prelude.Fallible.{pure, on_err, ◌>>=◌}
use grnoti.Types.{Error, wrapped, Event, EventType, NotificationAction, Message}
use grnoti.Types.Fid.{codes}
use grnoti.FcmErrors.{contains_text}

pub record Templating (T : Type 0) : Type 0 where
  pub parse : String → String → Result Error T
  pub execute : T → Map String → Result Error String
  pub trim_space : String → String
  pub parse_duration : String → Option ℤ
  pub decimal : ℕ → String

pub record MessageTemplate : Type 0 where
  pub title_template : String
  pub body_template : String
  pub default_data : Map String
  pub default_ttl : ℤ
  pub collapse_key : String
  pub channel_id : String
  pub sound : String
  pub actions : List NotificationAction
  pub deep_link : String
  pub category : String

-- compiledTemplate
pub record CompiledTemplate (T : Type 0) : Type 0 where
  pub title_tmpl : T
  pub body_tmpl : T
  pub default_data : Map String
  pub default_ttl : ℤ
  pub collapse_key : String
  pub channel_id : String
  pub sound : String
  pub actions : List NotificationAction
  pub deep_link : String
  pub category : String

-- strings.Contains(text, "{{")
abbrev pub has_action : String → Bool
has_action text = contains_text (codes "{{") (codes text)

-- for k, v := range entries { data[k] = v }
abbrev pub put_all : Map String → Map String → Map String
put_all [] into = into
put_all ((key, value) ∷ rest) into = put_all rest (insert key value into)

abbrev pub payload_or : Event → String → String → String
payload_or event key default = elim (lookup key event.payload) [ none ↦ default | some v ↦ v ]

module _ {T : Type 0} (lib : Templating T) where
  -- The checks of a text that may hold template actions; the result is not kept.
  abbrev pub checked_inline : String → String → (Error → Error) → Result Error (Unit {0})
  checked_inline name text wrap =
      if has_action text then (do parsed ← on_err wrap (lib.parse name text); pure tt) else pure tt

  abbrev pub check_actions : EventType → ℕ → List NotificationAction → Result Error (Unit {0})
  check_actions type i [] = pure tt
  check_actions type i (action ∷ actions) = do
    here ← checked_inline "action" action.url (
        wrapped (
          concat "grnoti: parsing action["
            (concat (lib.decimal i) (concat "] url template for " type))))
    check_actions type (suc i) actions

  unfoldable pub compile_template : EventType → MessageTemplate → Result Error (CompiledTemplate T)
  compile_template type tmpl = do
    title ←
        on_err (wrapped (concat "grnoti: parsing title template for " type))
          (lib.parse "title" tmpl.title_template)
    body ←
        on_err (wrapped (concat "grnoti: parsing body template for " type))
          (lib.parse "body" tmpl.body_template)
    link ←
        checked_inline "deeplink" tmpl.deep_link
          (wrapped (concat "grnoti: parsing deep link template for " type))
    actions ← check_actions type 0 tmpl.actions
    pure (record {
      title_tmpl = title;
      body_tmpl = body;
      default_data = tmpl.default_data;
      default_ttl = tmpl.default_ttl;
      collapse_key = tmpl.collapse_key;
      channel_id = tmpl.channel_id;
      sound = tmpl.sound;
      actions = tmpl.actions;
      deep_link = tmpl.deep_link;
      category = tmpl.category;
    })

  -- The payload wins over the template's data, and the event's own fields over both.
  unfoldable pub template_data : CompiledTemplate T → Event → Map String
  template_data compiled event = insert "event_type" event.type (
      insert "user_id" event.user_id (
        insert "event_id" event.event_id
          (put_all event.payload (put_all compiled.default_data []))))

  abbrev pub render_inline : String → Map String → Result Error String
  render_inline text values = do tmpl ← lib.parse "inline" text; lib.execute tmpl values

  -- A text with template actions is rendered, any other is kept.
  abbrev pub inline : String → Map String → (Error → Error) → Result Error String
  inline text values wrap =
      if has_action text then on_err wrap (render_inline text values) else pure text

  abbrev pub render_actions :
      EventType → Map String → ℕ → List NotificationAction → Result Error (List NotificationAction)
  render_actions type values i [] = pure []
  render_actions type values i (action ∷ actions) = do
    url ← inline action.url values (
        wrapped
          (concat "grnoti: rendering action[" (concat (lib.decimal i) (concat "] url for " type))))
    rest ← render_actions type values (suc i) actions
    pure (record action { url = url } ∷ rest)

  -- The payload's ttl, where it is given and is a duration.
  abbrev pub ttl_of : ℤ → Option String → ℤ
  ttl_of default none = default
  ttl_of default (some text) = elim (lib.parse_duration text) [ none ↦ default | some d ↦ d ]

  unfoldable pub render_message : CompiledTemplate T → Event → Result Error Message
  render_message compiled event = do
    let values = template_data compiled event
    title ←
        on_err (wrapped (concat "grnoti: rendering title for " event.type))
          (lib.execute compiled.title_tmpl values)
    body ←
        on_err (wrapped (concat "grnoti: rendering body for " event.type))
          (lib.execute compiled.body_tmpl values)
    actions ← render_actions event.type values 0 compiled.actions
    link ←
        inline compiled.deep_link values
          (wrapped (concat "grnoti: rendering deep link for " event.type))
    pure (record {
      title = lib.trim_space title;
      body = lib.trim_space body;
      payload = values;
      image_url = payload_or event "image_url" "";
      priority = event.priority;
      ttl = ttl_of compiled.default_ttl (lookup "ttl" event.payload);
      collapse_key = payload_or event "collapse_key" compiled.collapse_key;
      channel_id = compiled.channel_id;
      badge = none;
      sound = compiled.sound;
      actions = actions;
      deep_link = payload_or event "deep_link" link;
      category = compiled.category;
    })
