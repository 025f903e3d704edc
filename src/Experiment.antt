-- ===== src/Experiment.antt =====
-- experiment.go: deterministicExperimentEngine. The check and the write of AssignVariant run under
-- one lock, so they are one function on the state. `hash32` stands for the first four bytes of
-- the MD5 sum of a text, as a number. A panic is `none`. Weights are Go's int, without its bound.
pub mod Pick
pub mod Sticky
pub mod Cached
pub mod CachedPick
pub mod Tests
use grnoti.Prelude.{
  ℕ, ◌+◌, ◌%◌, ◌^◌, Bool, true, false, Option, none, some, Result, ok, err, List, [], ◌∷◌, String,
  concat, ltb, eqb, if◌then◌else◌,
}
use grnoti.Prelude.Int.{ℤ, pos_part}
use grnoti.Prelude.Maps.{Map, lookup, insert}
use grnoti.Types.{Error, err_experiment_has_no_variants, AssignedPayload}
use grnoti.Calls.{Go, pure, ◌>>=◌, ◌>>◌}
use grnoti.Events.{publish_assigned}

pub record ExperimentVariant : Type 0 where
  pub id : String
  pub name : String
  pub weight : ℤ
  pub payload : Map String

pub record Experiment : Type 0 where
  pub id : String
  pub name : String
  pub variants : List ExperimentVariant
  pub enabled : Bool
  pub created_at : ℕ
  pub updated_at : ℕ

-- deterministicExperimentEngine: its assignments, and whether it has a bus.
pub record Engine : Type 0 where
  pub assignments : Map ExperimentVariant
  pub has_bus : Bool

unfoldable pub assignment_key : String → String → String
assignment_key user_id experiment_id = concat user_id (concat ":" experiment_id)

-- A weight at most 0 counts as 1.
unfoldable pub effective_weight : ExperimentVariant → ℕ
effective_weight v = if eqb (pos_part v.weight) 0 then 1 else pos_part v.weight

unfoldable pub total_weight : List ExperimentVariant → ℕ
total_weight [] = 0
total_weight (v ∷ vs) = effective_weight v + total_weight vs

-- The second loop; the last variant is the answer where no range has the bucket.
unfoldable pub pick_from : ℕ → ℕ → ExperimentVariant → List ExperimentVariant → ExperimentVariant
pick_from bucket cumulative v [] = v
pick_from bucket cumulative v (w ∷ ws) =
    if ltb bucket (cumulative + effective_weight v)
    then v
    else pick_from bucket (cumulative + effective_weight v) w ws

-- uint32(totalWeight), the divisor.
abbrev pub divisor : List ExperimentVariant → ℕ
divisor vs = total_weight vs % 2 ^ 32

unfoldable pub deterministic_pick :
    (String → ℕ)
    → String
    → String
    → ExperimentVariant
    → List ExperimentVariant
    → Option ExperimentVariant
deterministic_pick hash32 user_id experiment_id v vs =
    if eqb (divisor (v ∷ vs)) 0
    then none
    else some
        (pick_from (hash32 (concat user_id (concat ":" experiment_id)) % divisor (v ∷ vs)) 0 v vs)

unfoldable pub get_variant : Engine → String → String → Option ExperimentVariant
get_variant e user_id experiment_id = lookup (assignment_key user_id experiment_id) e.assignments

abbrev pub Assigned : Type 0
Assigned = Option (Result Error ExperimentVariant) × Engine

-- What follows the pick: the write, and the publication outside of the lock.
unfoldable pub store_pick : Engine → String → String → Option ExperimentVariant → Go Assigned
store_pick e user_id experiment_id none = pure (none, e)
store_pick e user_id experiment_id (some v) = do
  publish_assigned e.has_bus (record {
    user_id = user_id;
    experiment_id = experiment_id;
    variant_id = v.id;
    timestamp = 0;
  })
  pure (
    some (ok v),
    record e { assignments = insert (assignment_key user_id experiment_id) v e.assignments },
  )

unfoldable pub assign_new :
    (String → ℕ)
    → Engine
    → String
    → String
    → ExperimentVariant
    → List ExperimentVariant
    → Option ExperimentVariant
    → Go Assigned
assign_new hash32 e user_id experiment_id v vs (some old) = pure (some (ok old), e)
assign_new hash32 e user_id experiment_id v vs none =
    store_pick e user_id experiment_id (deterministic_pick hash32 user_id experiment_id v vs)

abbrev pub assign_among :
    (String → ℕ) → Engine → String → String → List ExperimentVariant → Go Assigned
assign_among hash32 e user_id experiment_id [] = pure (some (err err_experiment_has_no_variants), e)
assign_among hash32 e user_id experiment_id (v ∷ vs) =
    assign_new hash32 e user_id experiment_id v vs
      (lookup (assignment_key user_id experiment_id) e.assignments)

-- A nil experiment is `none`.
unfoldable pub assign_variant : (String → ℕ) → Engine → String → Option Experiment → Go Assigned
unfolding assign_new store_pick
assign_variant hash32 e user_id none = pure (some (err err_experiment_has_no_variants), e)
assign_variant hash32 e user_id (some x) = assign_among hash32 e user_id x.id x.variants
