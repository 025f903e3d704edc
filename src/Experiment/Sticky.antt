-- ===== src/Experiment/Sticky.antt =====
-- AssignVariant of experiment.go: an assignment stands, and is published once.
use grnoti.Prelude.{
  ℕ, ◌≡◌, refl, ◌∙◌, Option, none, some, Result, ok, err, List, [], ◌∷◌, String, arith, eq_refl,
}
use grnoti.Prelude.Maps.{lookup, lookup-insert}
use grnoti.Types.{Error}
use grnoti.Calls.{Env, History}
use grnoti.Experiment.{
  ExperimentVariant, Experiment, Engine, assignment_key, get_variant, assign_among, assign_new,
  assign_variant, store_pick, deterministic_pick,
}

-- The variant that a call answers with, where it does.
abbrev pub variant_of : Option (Result Error ExperimentVariant) → Option ExperimentVariant
variant_of none = none
variant_of (some (ok v)) = some v
variant_of (some (err e)) = none

store_pick-assigns :
    (e : Engine) (user_id experiment_id : String) (pick : Option ExperimentVariant) (env : Env)
    (h : History) (v : ExperimentVariant)
    → variant_of (store_pick e user_id experiment_id pick env h).0.0 ≡ some v
    → get_variant (store_pick e user_id experiment_id pick env h).0.1 user_id experiment_id ≡ some v
unfolding store_pick get_variant
store_pick-assigns e user_id experiment_id none env h v made = ground (arith, made)
store_pick-assigns e user_id experiment_id (some w) env h v made =
    let key = assignment_key user_id experiment_id in
    lookup-insert key key w e.assignments ∙ rw (eq_refl key) made

assign_new-assigns :
    (hash32 : String → ℕ) (e : Engine) (user_id experiment_id : String) (w : ExperimentVariant)
    (ws : List ExperimentVariant) (old : Option ExperimentVariant) (env : Env) (h : History)
    (v : ExperimentVariant)
    → get_variant e user_id experiment_id ≡ old
    → variant_of (assign_new hash32 e user_id experiment_id w ws old env h).0.0 ≡ some v
    → get_variant
        (assign_new hash32 e user_id experiment_id w ws old env h).0.1
        user_id
        experiment_id
      ≡ some v
unfolding assign_new
assign_new-assigns hash32 e user_id experiment_id w ws none env h v found made =
    store_pick-assigns e user_id experiment_id
      (deterministic_pick hash32 user_id experiment_id w ws) env h v made
assign_new-assigns hash32 e user_id experiment_id w ws (some old) env h v found made = found ∙ made

assign_among-assigns :
    (hash32 : String → ℕ) (e : Engine) (user_id experiment_id : String)
    (variants : List ExperimentVariant) (env : Env) (h : History) (v : ExperimentVariant)
    → variant_of (assign_among hash32 e user_id experiment_id variants env h).0.0 ≡ some v
    → get_variant
        (assign_among hash32 e user_id experiment_id variants env h).0.1
        user_id
        experiment_id
      ≡ some v
unfolding get_variant
assign_among-assigns hash32 e user_id experiment_id [] env h v made = ground (arith, made)
assign_among-assigns hash32 e user_id experiment_id (w ∷ ws) env h v made =
    assign_new-assigns hash32 e user_id experiment_id w ws
      (lookup (assignment_key user_id experiment_id) e.assignments) env h v refl made

assigned-repeats :
    (hash32 : String → ℕ) (e : Engine) (user_id experiment_id : String) (w : ExperimentVariant)
    (ws : List ExperimentVariant) (env : Env) (h : History) (v : ExperimentVariant)
    → get_variant e user_id experiment_id ≡ some v
    → assign_among hash32 e user_id experiment_id (w ∷ ws) env h ≡ ((some (ok v), e), h)
unfolding get_variant assign_new
assigned-repeats hash32 e user_id experiment_id w ws env h v found = rw found refl

-- Once AssignVariant has answered with a variant, GetVariant answers with it, and every later
-- AssignVariant for the user and the experiment does too, even with other variants in the
-- experiment: it changes no assignment and makes no call, so it publishes nothing.
pub assignment_sticks :
    (hash32 : String → ℕ) (e : Engine) (user_id : String) (x : Experiment) (w : ExperimentVariant)
    (ws : List ExperimentVariant) (v : ExperimentVariant) (env env' : Env) (h h' : History)
    → let first = assign_variant hash32 e user_id (some x) env h in
      variant_of first.0.0 ≡ some v
      → (get_variant first.0.1 user_id x.id ≡ some v)
        × (assign_variant hash32 first.0.1 user_id (some (record x { variants = w ∷ ws })) env' h'
            ≡ ((some (ok v), first.0.1), h'))
unfolding assign_variant
assignment_sticks hash32 e user_id x w ws v env env' h h' made =
    let found = assign_among-assigns hash32 e user_id x.id x.variants env h v made in
    let after = (assign_among hash32 e user_id x.id x.variants env h).0.1 in
    (found, assigned-repeats hash32 after user_id x.id w ws env' h' v found)
