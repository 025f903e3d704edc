-- ===== src/Templates/Compile.antt =====
-- compileTemplate of templateengine.go does not depend on the event type, but for its errors.
use grnoti.Prelude.{ℕ, suc, List, [], ◌∷◌, String}
use grnoti.Prelude.Fallible.{pure, SameOk, on_err-SameOk, bind-SameOk, if-SameOk}
use grnoti.Types.{Error, EventType, NotificationAction}
use grnoti.Templates.{Templating, MessageTemplate, compile_template, checked_inline, check_actions}

module _ {T : Type 0} (lib : Templating T) where
  inline-SameOk :
      (name text : String) (v w : Error → Error)
      → SameOk (checked_inline lib name text v) (checked_inline lib name text w)
  inline-SameOk name text v w =
      if-SameOk _ _ _ (pure tt)
        (bind-SameOk _ _ _ _ (on_err-SameOk v w (lib.parse name text)) (λ parsed a e. e))

  actions-SameOk :
      (type other : EventType) (i : ℕ) (actions : List NotificationAction)
      → SameOk (check_actions lib type i actions) (check_actions lib other i actions)
  actions-SameOk type other i [] a e = e
  actions-SameOk type other i (action ∷ actions) a e =
      bind-SameOk _ _ _ _ (inline-SameOk "action" action.url _ _)
        (λ here. actions-SameOk type other (suc i) actions) a e

  -- The event type of a template stands in the errors only.
  pub compile-SameOk :
      (type other : EventType) (tmpl : MessageTemplate)
      → SameOk (compile_template lib type tmpl) (compile_template lib other tmpl)
  unfolding compile_template
  compile-SameOk type other tmpl =
      bind-SameOk _ _ _ _ (on_err-SameOk _ _ (lib.parse "title" tmpl.title_template)) (λ title.
        bind-SameOk _ _ _ _ (on_err-SameOk _ _ (lib.parse "body" tmpl.body_template)) (λ body.
          bind-SameOk _ _ _ _ (inline-SameOk "deeplink" tmpl.deep_link _ _) (λ link.
            bind-SameOk _ _ _ _ (actions-SameOk type other 0 tmpl.actions) (λ actions a e. e))))
