-- ===== src/ExperimentStore/Postgres.antt =====
-- experimentstore.postgres.go, with the statements of internal/postgresdb/experiments.sql.go on the
-- table grnoti_experiments, by id. encoding/json is a parameter: its encoding of the variants is of
-- type Raw. A row that breaks a limit of its column is refused, as any statement may be.
pub mod Creation
use grnoti.Prelude.{
  ℕ, suc, Bool, true, false, Option, none, some, Result, ok, err, List, [], ◌∷◌, String, concat,
  if◌then◌else◌, is_some, text_lt, eqb,
}
use grnoti.Prelude.Maps.{Map, lookup, insert, delete, values}
use grnoti.Prelude.Fallible.{pure, on_err, ◌>>=◌}
use grnoti.Types.{
  Error, err_closed, err_experiment_already_exists, err_experiment_not_found, wrapped,
}
use grnoti.ExperimentStore.{Change, creates, updates, deletes}
use grnoti.Experiment.{Experiment, ExperimentVariant}
use grnoti.Database.{
  Fault, served, refused, unanswered, executed, applied, queried, unavailable_error, failed_as,
}
use grnoti.Postgres.{Timestamptz, pg_timestamptz, pg_time, PostgresStore}

pub record VariantsCodec (Raw : Type 0) : Type 0 where
  pub marshal : List ExperimentVariant → Result Error Raw
  pub unmarshal : Raw → Result Error (List ExperimentVariant)
  pub is_empty : Raw → Bool

-- GrnotiExperiment
pub record ExperimentRow (Raw : Type 0) : Type 0 where
  pub id : String
  pub name : String
  pub variants : Raw
  pub enabled : Bool
  pub created_at : Timestamptz
  pub updated_at : Timestamptz

module _ {Raw : Type 0} where
  -- INSERT without ON CONFLICT: an id that is there is a violation of the primary key.
  abbrev pub insert_unless :
      ExperimentRow Raw
      → Map (ExperimentRow Raw)
      → Option (ExperimentRow Raw)
      → Bool × Map (ExperimentRow Raw)
  insert_unless new table none = (true, insert new.id new table)
  insert_unless new table (some r) = (false, table)

  unfoldable pub insert_experiment :
      ExperimentRow Raw → Map (ExperimentRow Raw) → Bool × Map (ExperimentRow Raw)
  insert_experiment new table = insert_unless new table (lookup new.id table)

  -- UPDATE ... WHERE id = $1, with the count of changed rows.
  abbrev pub update_row :
      ExperimentRow Raw
      → Map (ExperimentRow Raw)
      → Option (ExperimentRow Raw)
      → ℕ × Map (ExperimentRow Raw)
  update_row new table none = (0, table)
  update_row new table (some r) = (
    1,
    insert new.id
        (record r {
          name = new.name;
          variants = new.variants;
          enabled = new.enabled;
          updated_at = new.updated_at;
        })
        table,
  )

  unfoldable pub update_rows :
      ExperimentRow Raw → Map (ExperimentRow Raw) → ℕ × Map (ExperimentRow Raw)
  update_rows new table = update_row new table (lookup new.id table)

  -- DELETE ... WHERE id = $1
  unfoldable pub delete_rows : String → Map (ExperimentRow Raw) → Map (ExperimentRow Raw)
  delete_rows id table = delete id table

  -- SELECT ... ORDER BY id ASC, in a database whose collation is the order of the bytes.
  unfoldable pub insert_row :
      ExperimentRow Raw → List (ExperimentRow Raw) → List (ExperimentRow Raw)
  insert_row r [] = r ∷ []
  insert_row r (first ∷ rest) =
      if text_lt first.id r.id then first ∷ insert_row r rest else r ∷ first ∷ rest

  unfoldable pub rows_by_id : List (ExperimentRow Raw) → List (ExperimentRow Raw)
  rows_by_id [] = []
  rows_by_id (r ∷ rows) = insert_row r (rows_by_id rows)

-- postgresExperimentStore
abbrev pub PostgresExperiments : Type 0 → Type 0 → Type 0
PostgresExperiments Pool Raw = PostgresStore Pool (Map (ExperimentRow Raw))

module _ {Raw : Type 0} (codec : VariantsCodec Raw) where
  abbrev pub decode_variants : ExperimentRow Raw → Result Error (List ExperimentVariant)
  decode_variants r =
      if codec.is_empty r.variants
      then ok []
      else on_err (wrapped (concat "grnoti/postgres: decode variants for " r.id))
          (codec.unmarshal r.variants)

  abbrev pub experiment_of : ExperimentRow Raw → List ExperimentVariant → Experiment
  experiment_of r variants = record {
    id = r.id;
    name = r.name;
    variants = variants;
    enabled = r.enabled;
    created_at = pg_time r.created_at;
    updated_at = pg_time r.updated_at;
  }

  unfoldable pub experiment_row_to_domain : ExperimentRow Raw → Result Error Experiment
  experiment_row_to_domain r = do variants ← decode_variants r; pure (experiment_of r variants)

  abbrev pub new_row : Experiment → Raw → ℕ → ExperimentRow Raw
  new_row e variants now = record {
    id = e.id;
    name = e.name;
    variants = variants;
    enabled = e.enabled;
    created_at = pg_timestamptz now;
    updated_at = pg_timestamptz now;
  }

  abbrev encode_error : String → Error → Error
  encode_error id e = wrapped (concat "grnoti/postgres: encode variants for " id) e

  -- The caller's experiment gets the times of a success.
  abbrev pub created_as : Experiment → ℕ → Result Error Bool → Result Error Experiment
  created_as e now (err why) =
      err (unavailable_error (concat "grnoti/postgres: create experiment " e.id) why)
  created_as e now (ok false) = err err_experiment_already_exists
  created_as e now (ok true) = ok (record e { created_at = now; updated_at = now })

  abbrev pub updated_as : Experiment → ℕ → Result Error ℕ → Result Error Experiment
  updated_as e now (err why) =
      err (unavailable_error (concat "grnoti/postgres: update experiment " e.id) why)
  updated_as e now (ok affected) =
      if eqb affected 0 then err err_experiment_not_found else ok (record e { updated_at = now })

  abbrev pub row_found :
      String → Result Error (Option (ExperimentRow Raw)) → Result Error Experiment
  row_found id (err e) = err (unavailable_error (concat "grnoti/postgres: get experiment " id) e)
  row_found id (ok none) = err err_experiment_not_found
  row_found id (ok (some r)) = experiment_row_to_domain r

  -- The loop of ListExperiments over the rows.
  unfoldable pub decode_rows : List (ExperimentRow Raw) → Result Error (List Experiment)
  decode_rows [] = pure []
  decode_rows (r ∷ rows) = do e ← experiment_row_to_domain r; es ← decode_rows rows; pure (e ∷ es)

  abbrev pub rows_listed : Result Error (List (ExperimentRow Raw)) → Result Error (List Experiment)
  rows_listed (err e) = err (unavailable_error "grnoti/postgres: list experiments" e)
  rows_listed (ok rows) = decode_rows rows

  module _ {Pool : Type 0} where
    abbrev pub create_encoded :
        Fault
        → PostgresExperiments Pool Raw
        → ℕ
        → Experiment
        → Result Error Raw
        → Result Error Experiment × PostgresExperiments Pool Raw
    create_encoded fault s now e (err why) = (err (encode_error e.id why), s)
    create_encoded fault s now e (ok variants) =
        let r = executed fault s.table (insert_experiment (new_row e variants now) s.table) in
        (created_as e now r.0, record s { table = r.1 })

    unfoldable pub create_experiment :
        Fault
        → PostgresExperiments Pool Raw
        → ℕ
        → Experiment
        → Result Error Experiment × PostgresExperiments Pool Raw
    create_experiment fault s now e =
        if s.closed
        then (err err_closed, s)
        else create_encoded fault s now e (codec.marshal e.variants)

    unfoldable pub get_experiment :
        Fault → PostgresExperiments Pool Raw → String → Result Error Experiment
    get_experiment fault s id =
        if s.closed then err err_closed else row_found id (queried fault (lookup id s.table))

    abbrev pub update_encoded :
        Fault
        → PostgresExperiments Pool Raw
        → ℕ
        → Experiment
        → Result Error Raw
        → Result Error Experiment × PostgresExperiments Pool Raw
    update_encoded fault s now e (err why) = (err (encode_error e.id why), s)
    update_encoded fault s now e (ok variants) =
        let r = executed fault s.table (update_rows (new_row e variants now) s.table) in
        (updated_as e now r.0, record s { table = r.1 })

    unfoldable pub update_experiment :
        Fault
        → PostgresExperiments Pool Raw
        → ℕ
        → Experiment
        → Result Error Experiment × PostgresExperiments Pool Raw
    update_experiment fault s now e =
        if s.closed
        then (err err_closed, s)
        else update_encoded fault s now e (codec.marshal e.variants)

    unfoldable pub delete_experiment :
        Fault → PostgresExperiments Pool Raw → String → Option Error × PostgresExperiments Pool Raw
    delete_experiment fault s id =
        if s.closed
        then (some err_closed, s)
        else let r = applied fault s.table (delete_rows id s.table) in
          (
            failed_as (concat "grnoti/postgres: delete experiment " id) r.0,
            record s { table = r.1 },
          )

    unfoldable pub list_experiments :
        Fault → PostgresExperiments Pool Raw → Result Error (List Experiment)
    list_experiments fault s =
        if s.closed
        then err err_closed
        else rows_listed (queried fault (rows_by_id (values s.table)))

    -- A call of one of the operations that change the table.
    abbrev pub call : PostgresExperiments Pool Raw → Fault × Change → PostgresExperiments Pool Raw
    call s (fault, creates now e) = (create_experiment fault s now e).1
    call s (fault, updates now e) = (update_experiment fault s now e).1
    call s (fault, deletes id) = (delete_experiment fault s id).1

    abbrev pub calls :
        PostgresExperiments Pool Raw → List (Fault × Change) → PostgresExperiments Pool Raw
    calls s [] = s
    calls s (c ∷ cs) = calls (call s c) cs
