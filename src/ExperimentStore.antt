-- ===== src/ExperimentStore.antt =====
-- memory.go, memoryExperimentStore: the experiments by their id. Every operation runs under one
-- lock, so it is one function on the state, and the clock's reading is an argument.
pub mod Listing
pub mod Postgres
pub mod Tests
use grnoti.Prelude.{
  ℕ, Bool, true, false, Option, none, some, Result, ok, err, List, [], ◌∷◌, String, if◌then◌else◌,
  text_lt,
}
use grnoti.Prelude.Maps.{Map, lookup, insert, delete, values}
use grnoti.Types.{Error, err_experiment_not_found}
use grnoti.Experiment.{Experiment}

-- memoryExperimentStore
pub record ExperimentStore : Type 0 where
  pub experiments : Map Experiment

-- NewMemoryExperimentStore
abbrev pub no_experiments : ExperimentStore
no_experiments = record { experiments = [] }

-- The caller's experiment gets both times as well, so it is part of the result.
unfoldable pub create_experiment : ExperimentStore → ℕ → Experiment → Experiment × ExperimentStore
create_experiment s now experiment =
    let stamped = record experiment { created_at = now; updated_at = now } in
    (stamped, record s { experiments = insert experiment.id stamped s.experiments })

abbrev pub found_experiment : Option Experiment → Result Error Experiment
found_experiment none = err err_experiment_not_found
found_experiment (some e) = ok e

unfoldable pub get_experiment : ExperimentStore → String → Result Error Experiment
get_experiment s experiment_id = found_experiment (lookup experiment_id s.experiments)

abbrev pub update_found :
    ExperimentStore → ℕ → Experiment → Option Experiment → Result Error Experiment × ExperimentStore
update_found s now experiment none = (err err_experiment_not_found, s)
update_found s now experiment (some existing) =
    let stamped = record experiment { created_at = existing.created_at; updated_at = now } in
    (ok stamped, record s { experiments = insert experiment.id stamped s.experiments })

unfoldable pub update_experiment :
    ExperimentStore → ℕ → Experiment → Result Error Experiment × ExperimentStore
update_experiment s now experiment =
    update_found s now experiment (lookup experiment.id s.experiments)

unfoldable pub delete_experiment : ExperimentStore → String → ExperimentStore
delete_experiment s experiment_id = record s { experiments = delete experiment_id s.experiments }

-- sort.Slice by the id.
unfoldable pub insert_by_id : Experiment → List Experiment → List Experiment
insert_by_id e [] = e ∷ []
insert_by_id e (first ∷ rest) =
    if text_lt first.id e.id then first ∷ insert_by_id e rest else e ∷ first ∷ rest

unfoldable pub sort_by_id : List Experiment → List Experiment
sort_by_id [] = []
sort_by_id (e ∷ es) = insert_by_id e (sort_by_id es)

unfoldable pub list_experiments : ExperimentStore → List Experiment
list_experiments s = sort_by_id (values s.experiments)

pub data Change : Type 0 where
  creates updates : ℕ → Experiment → Change
  deletes : String → Change

abbrev pub changed : ExperimentStore → Change → ExperimentStore
changed s (creates now e) = (create_experiment s now e).1
changed s (updates now e) = (update_experiment s now e).1
changed s (deletes id) = delete_experiment s id

abbrev pub changed_all : ExperimentStore → List Change → ExperimentStore
changed_all s [] = s
changed_all s (change ∷ changes) = changed_all (changed s change) changes
