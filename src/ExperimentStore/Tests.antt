-- ===== src/ExperimentStore/Tests.antt =====
-- Runs of the store of experiments, and its theorem at a concrete sequence of changes.
use grnoti.Prelude.{ℕ, true, false, ok, some, ◌≡◌, refl, err, List, [], ◌∷◌}
use grnoti.Prelude.Maps.{lookup, insert}
use grnoti.Types.{err_closed, err_experiment_not_found}
use grnoti.Experiment.{Experiment, ExperimentVariant}
use grnoti.Experiment.Tests.{colours}
use grnoti.ExperimentStore.{
  no_experiments, create_experiment, update_experiment, list_experiments, insert_by_id, sort_by_id,
  Change, creates, updates, deletes, changed_all,
}
use grnoti.Database.{Fault, served, refused, unanswered}
use grnoti.Postgres.{pg_timestamptz}
use grnoti.ExperimentStore.{Change}
use grnoti.ExperimentStore.Postgres.{VariantsCodec, PostgresExperiments, new_row, calls}
use grnoti.ExperimentStore.Postgres.Creation.{created_in, creation_is_final}

abbrev sizes : Experiment
sizes = record colours { id = "sizes" }

abbrev some_changes : List Change
some_changes = creates 3 sizes ∷ creates 4 colours ∷ updates 8 sizes ∷ []

listed :
    list_experiments (changed_all no_experiments some_changes)
    ≡ record colours { created_at = 4; updated_at = 4 }
      ∷ record sizes { created_at = 3; updated_at = 8 }
      ∷ []
unfolding list_experiments create_experiment update_experiment lookup insert insert_by_id sort_by_id
listed = refl

update_of_a_missing_one :
    (update_experiment no_experiments 5 colours).0 ≡ err err_experiment_not_found
unfolding update_experiment lookup
update_of_a_missing_one = refl

-- An encoding of the variants by themselves.
abbrev plain_codec : VariantsCodec (List ExperimentVariant)
plain_codec = record { marshal = ok; unmarshal = ok; is_empty = λ raw. false }

abbrev one_row : PostgresExperiments ℕ (List ExperimentVariant)
one_row = record {
  pool = 0;
  owns_pool = true;
  closed = false;
  table = ("colours", new_row plain_codec colours colours.variants 3) ∷ [];
}

abbrev later_calls : List (Fault × Change)
later_calls =
    (served, creates 5 colours)
    ∷ (unanswered err_closed, updates 6 colours)
    ∷ (refused err_closed, deletes "sizes")
    ∷ []

creation_is_final_example :
    created_in "colours" (calls plain_codec one_row later_calls).table ≡ some (pg_timestamptz 3)
unfolding lookup
creation_is_final_example =
    creation_is_final plain_codec "colours" (pg_timestamptz 3) one_row later_calls refl refl
