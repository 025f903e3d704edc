-- ===== src/Templates/Tests.antt =====
-- Runs of the template engine, with templates that are their own text.
use grnoti.Prelude.{◌≡◌, refl, none, some, ok, err, [], String, ◌==◌, if◌then◌else◌}
use grnoti.Prelude.Int.{pos}
use grnoti.Prelude.Maps.{lookup}
use grnoti.Types.{message, wrapped, err_template_not_found}
use grnoti.Templates.{Templating, MessageTemplate, compile_template}
use grnoti.Templates.Engine.{register_template, build_message}
use grnoti.Service.Tests.{order}

-- A text with a brace alone does not parse.
abbrev pub texts : Templating String
texts = record {
  parse = λ name text. if text == "{" then err (message "unclosed action") else ok text;
  execute = λ text values. ok text;
  trim_space = λ text. text;
  parse_duration = λ text. none;
  decimal = λ n. "0";
}

abbrev pub greeting : MessageTemplate
greeting = record {
  title_template = "Hello";
  body_template = "Your order";
  default_data = [];
  default_ttl = pos 0;
  collapse_key = "";
  channel_id = "";
  sound = "";
  actions = [];
  deep_link = "";
  category = "transactional";
}

bad_body_is_refused :
    (register_template texts [] "order" (record greeting { body_template = "{" })).0
    ≡ some (wrapped "grnoti: parsing body template for order" (message "unclosed action"))
unfolding register_template compile_template
bad_body_is_refused = refl

nothing_registered : build_message texts [] order ≡ err err_template_not_found
unfolding build_message lookup
nothing_registered = refl
