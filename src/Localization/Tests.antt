-- ===== src/Localization/Tests.antt =====
-- Runs of the localized engine over the default one, with templates that are their own text.
use grnoti.Prelude.{
  ◌≡◌, refl, ap, Bool, true, false, ◌&&◌, ok, List, [], ◌∷◌, String, ◌==◌, arith, eqb, eq_iff,
}
use grnoti.Prelude.Int.{ℤ, pos, negsuc}
use grnoti.Prelude.Maps.{lookup, insert}
use grnoti.Templates.{MessageTemplate}
use grnoti.Templates.Engine.{default_engine, DefaultTemplateEngine}
use grnoti.Localization.{
  static_locale_resolver, LocalizedEngine, no_templates, get_localized_template,
  register_localized_template,
}
use grnoti.Localization.Uncached.{Request, builds, localizes, answers, answers_uncached}
use grnoti.Localization.Transparent.{cache_transparent}
use grnoti.Service.Tests.{order}
use grnoti.Templates.Tests.{texts, greeting}

abbrev same_ttl : ℤ → ℤ → Bool
same_ttl (pos m) (pos n) = eqb m n
same_ttl _ _ = false

same_ttl_lem : (a b : ℤ) → same_ttl a b ≡ true → a ≡ b
same_ttl_lem (pos m) (pos n) h = ap pos (ground (arith, h))
same_ttl_lem (pos m) (negsuc n) h = ground (arith, h)
same_ttl_lem (negsuc m) (pos n) h = ground (arith, h)
same_ttl_lem (negsuc m) (negsuc n) h = ground (arith, h)

abbrev both_empty : {A : Type 0} → List A → List A → Bool
both_empty [] [] = true
both_empty _ _ = false

both_empty_lem : {A : Type 0} (xs ys : List A) → both_empty xs ys ≡ true → xs ≡ ys
both_empty_lem [] [] h = refl
both_empty_lem [] (y ∷ ys) h = ground (arith, h)
both_empty_lem (x ∷ xs) [] h = ground (arith, h)
both_empty_lem (x ∷ xs) (y ∷ ys) h = ground (arith, h)

both : (a b : Bool) → (a && b) ≡ true → (a ≡ true) × (b ≡ true)
both true b h = (refl, h)
both false b h = ground (arith, h)

-- Equality of templates without data and actions.
abbrev plain_equal : MessageTemplate → MessageTemplate → Bool
plain_equal a b =
    (a.title_template == b.title_template)
    && ((a.body_template == b.body_template)
        && (both_empty a.default_data b.default_data
            && (same_ttl a.default_ttl b.default_ttl
                && ((a.collapse_key == b.collapse_key)
                    && ((a.channel_id == b.channel_id)
                        && ((a.sound == b.sound)
                            && (both_empty a.actions b.actions
                                && ((a.deep_link == b.deep_link)
                                    && (a.category == b.category)))))))))

plain_equal_lem : (a b : MessageTemplate) → plain_equal a b ≡ true → a ≡ b
plain_equal_lem a b h =
    let t1 = both (a.title_template == b.title_template) _ h in
    let t2 = both (a.body_template == b.body_template) _ t1.1 in
    let t3 = both (both_empty a.default_data b.default_data) _ t2.1 in
    let t4 = both (same_ttl a.default_ttl b.default_ttl) _ t3.1 in
    let t5 = both (a.collapse_key == b.collapse_key) _ t4.1 in
    let t6 = both (a.channel_id == b.channel_id) _ t5.1 in
    let t7 = both (a.sound == b.sound) _ t6.1 in
    let t8 = both (both_empty a.actions b.actions) _ t7.1 in
    let t9 = both (a.deep_link == b.deep_link) _ t8.1 in
    λ i. record {
      title_template = (eq_iff _ _).0 t1.0 i;
      body_template = (eq_iff _ _).0 t2.0 i;
      default_data = both_empty_lem _ _ t3.0 i;
      default_ttl = same_ttl_lem a.default_ttl b.default_ttl t4.0 i;
      collapse_key = (eq_iff _ _).0 t5.0 i;
      channel_id = (eq_iff _ _).0 t6.0 i;
      sound = (eq_iff _ _).0 t7.0 i;
      actions = both_empty_lem _ _ t8.0 i;
      deep_link = (eq_iff _ _).0 t9.0 i;
      category = (eq_iff _ _).0 t9.1 i;
    }

abbrev gruss : MessageTemplate
gruss = record greeting { title_template = "Hallo" }

abbrev localized_engine : LocalizedEngine String (DefaultTemplateEngine texts)
localized_engine = record {
  base_engine = default_engine texts;
  lib = texts;
  deep_equal = plain_equal;
}

falls_back_to_english :
    get_localized_template
      (register_localized_template no_templates "order" "en" greeting)
      "order"
      "fr"
    ≡ ok greeting
unfolding get_localized_template register_localized_template lookup insert
falls_back_to_english = refl

-- The German template is built twice, replaced, and built again.
abbrev day : List Request
day =
    localizes order.type "de" gruss
    ∷ builds (static_locale_resolver "de") order
    ∷ builds (static_locale_resolver "de") order
    ∷ localizes order.type "de" greeting
    ∷ builds (static_locale_resolver "de") order
    ∷ []

cache_transparent_example :
    answers localized_engine (record { base = []; locale_store = no_templates; cache = [] }) day
    ≡ answers_uncached localized_engine [] no_templates day
cache_transparent_example = cache_transparent localized_engine plain_equal_lem [] no_templates day
