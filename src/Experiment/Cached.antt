-- ===== src/Experiment/Cached.antt =====
-- cache.experiment.go: cacheExperimentEngine, the engine of experiment.go with its assignments in a
-- shared cache. encoding/json is a parameter, and a panic of the pick is `none`.
use grnoti.Prelude.{ℕ, Bool, Option, none, some, Result, ok, err, List, [], ◌∷◌, String}
use grnoti.Prelude.Int.{pos}
use grnoti.Types.{Error, err_experiment_has_no_variants}
use grnoti.Calls.{Go, pure, ◌>>◌}
use grnoti.Events.{publish_assigned}
use grnoti.Cache.{Cache, Read, found, missing, failed}
use grnoti.Experiment.{ExperimentVariant, Experiment, assignment_key, deterministic_pick}

-- json.Marshal and json.Unmarshal of a variant.
pub record VariantCodec (Raw : Type 0) : Type 0 where
  pub marshal : ExperimentVariant → Option Raw
  pub unmarshal : Raw → Option ExperimentVariant

-- cacheExperimentEngine, and whether it has a bus.
pub record CacheEngine (Raw C : Type 0) : Type 0 where
  pub cache : Cache Raw C
  pub codec : VariantCodec Raw
  pub has_bus : Bool

module _ {Raw C : Type 0} (e : CacheEngine Raw C) (hash32 : String → ℕ) where
  -- A nil variant without an error is `ok none`; a corrupt entry counts as no assignment.
  abbrev pub read_variant : Read Raw → Result Error (Option ExperimentVariant)
  read_variant (found raw) = ok (e.codec.unmarshal raw)
  read_variant missing = ok none
  read_variant (failed why) = err why

  unfoldable pub get_cached_variant :
      C → String → String → Result Error (Option ExperimentVariant) × C
  get_cached_variant c user_id experiment_id =
      let read = e.cache.get c (assignment_key user_id experiment_id) in
      (read_variant read.0, read.1)

  abbrev pub existing_variant : Result Error (Option ExperimentVariant) → Option ExperimentVariant
  existing_variant (ok v) = v
  existing_variant (err why) = none

  abbrev pub put_variant : C → String → String → Option Raw → C
  put_variant c user_id experiment_id none = c
  put_variant c user_id experiment_id (some raw) =
      (e.cache.set c (assignment_key user_id experiment_id) raw (pos 0) []).1

  abbrev pub CacheAssigned : Type 0
  CacheAssigned = Option (Result Error ExperimentVariant) × C

  abbrev pub cache_pick : C → String → String → Option ExperimentVariant → Go CacheAssigned
  cache_pick c user_id experiment_id none = pure (none, c)
  cache_pick c user_id experiment_id (some v) = do
    publish_assigned e.has_bus (record {
      user_id = user_id;
      experiment_id = experiment_id;
      variant_id = v.id;
      timestamp = 0;
    })
    pure (some (ok v), put_variant c user_id experiment_id (e.codec.marshal v))

  abbrev pub cache_or_pick :
      C
      → String
      → String
      → ExperimentVariant
      → List ExperimentVariant
      → Option ExperimentVariant
      → Go CacheAssigned
  cache_or_pick c user_id experiment_id v vs (some old) = pure (some (ok old), c)
  cache_or_pick c user_id experiment_id v vs none =
      cache_pick c user_id experiment_id (deterministic_pick hash32 user_id experiment_id v vs)

  abbrev pub assign_cached_among : C → String → String → List ExperimentVariant → Go CacheAssigned
  assign_cached_among c user_id experiment_id [] =
      pure (some (err err_experiment_has_no_variants), c)
  assign_cached_among c user_id experiment_id (v ∷ vs) =
      let got = get_cached_variant c user_id experiment_id in
      cache_or_pick got.1 user_id experiment_id v vs (existing_variant got.0)

  -- A nil experiment is `none`.
  unfoldable pub assign_cached : C → String → Option Experiment → Go CacheAssigned
  assign_cached c user_id none = pure (some (err err_experiment_has_no_variants), c)
  assign_cached c user_id (some x) = assign_cached_among c user_id x.id x.variants
