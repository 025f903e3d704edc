-- ===== src/PreferencesStore/Written.antt =====
-- A write of the preferences of one user, seen from a table of rows: for any relation between the
-- rows of a store and the view of it.
use grnoti.Prelude.{Option, some, String, ◌==◌, if◌then◌else◌, eq_iff, Bool-cases, inl, inr}
use mathlib.Core.Path.{subst}
use grnoti.Prelude.Maps.{Map, lookup, insert, lookup-insert}
use grnoti.Preferences.{NotificationPreferences}
use grnoti.PreferencesStore.{View}

module _ {R : Type 0} (Holds : String → Option R → Option NotificationPreferences → Type 0) where
  pub insert-Holds :
      (table : Map R) (v : View) (key : String) (row : R) (prefs : NotificationPreferences)
      → ((id : String) → Holds id (lookup id table) (v id))
      → Holds key (some row) (some prefs)
      → (user_id : String)
      → Holds user_id
          (lookup user_id (insert key row table))
          (if key == user_id then some prefs else v user_id)
  insert-Holds table v key row prefs holds written user_id = elim (Bool-cases (key == user_id)) [
    | inl e ↦
        rw (lookup-insert key user_id row table, e)
          (subst (λ id. Holds id (some row) (some prefs)) ((eq_iff key user_id).0 e) written)
    | inr e ↦ rw (lookup-insert key user_id row table, e) (holds user_id)
  ]
