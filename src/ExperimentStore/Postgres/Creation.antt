-- ===== src/ExperimentStore/Postgres/Creation.antt =====
-- experimentstore.postgres.go: an experiment is created once.
use grnoti.Prelude.{
  ℕ, ◌≡◌, refl, sym, ap, ◌∙◌, Bool, true, not, Option, none, some, Result, ok, err, List, [], ◌∷◌,
  String, ◌==◌, arith, all, eq_iff, Bool-cases, inl, inr,
}
use grnoti.Prelude.Maps.{Map, lookup, delete, lookup-insert, lookup-delete}
use grnoti.Types.{Error}
use grnoti.Experiment.{Experiment}
use grnoti.Database.{Fault, served, refused, unanswered, executed, applied}
use grnoti.Postgres.{Timestamptz}
use grnoti.ExperimentStore.{Change, creates, updates, deletes}
use grnoti.ExperimentStore.Postgres.{
  VariantsCodec, ExperimentRow, PostgresExperiments, insert_unless, insert_experiment, update_row,
  update_rows, delete_rows, new_row, create_encoded, create_experiment, update_encoded,
  update_experiment, delete_experiment, call, calls,
}

module _ {Raw : Type 0} where
  abbrev created_of : Option (ExperimentRow Raw) → Option Timestamptz
  created_of none = none
  created_of (some r) = some r.created_at

  -- When the experiment of an id was created, if there is one.
  abbrev pub created_in : String → Map (ExperimentRow Raw) → Option Timestamptz
  created_in id table = created_of (lookup id table)

  insert_unless-created :
      (new : ExperimentRow Raw) (table : Map (ExperimentRow Raw)) (id : String) (t : Timestamptz)
      (found : Option (ExperimentRow Raw))
      → lookup new.id table ≡ found
      → created_in id table ≡ some t
      → created_in id (insert_unless new table found).1 ≡ some t
  insert_unless-created new table id t none e created =
      ground (arith, e, created, lookup-insert new.id id new table, eq_iff new.id id)
  insert_unless-created new table id t (some r) e created = created

  update_row-created :
      (new : ExperimentRow Raw) (table : Map (ExperimentRow Raw)) (id : String) (t : Timestamptz)
      (found : Option (ExperimentRow Raw))
      → lookup new.id table ≡ found
      → created_in id table ≡ some t
      → created_in id (update_row new table found).1 ≡ some t
  update_row-created new table id t none e created = created
  update_row-created new table id t (some r) e created =
      let changed : ExperimentRow Raw = record new { id = r.id; created_at = r.created_at } in
      elim (Bool-cases (new.id == id)) [
        | inl same ↦
            rw (lookup-insert new.id id changed table, same)
              (ap created_of (sym e ∙ ap (λ k. lookup k table) ((eq_iff new.id id).0 same))
                ∙ created)
        | inr differ ↦ rw (lookup-insert new.id id changed table, differ) created
      ]

  -- A fault leaves the table, or what the statement makes of it.
  executed-created :
      {A : Type 0} (fault : Fault) (table : Map (ExperimentRow Raw))
      (r : A × Map (ExperimentRow Raw)) (id : String) (t : Timestamptz)
      → created_in id table ≡ some t
      → created_in id r.1 ≡ some t
      → created_in id (executed fault table r).1 ≡ some t
  executed-created served table r id t before after = after
  executed-created (refused e) table r id t before after = before
  executed-created (unanswered e) table r id t before after = after

  applied-created :
      (fault : Fault) (table changed : Map (ExperimentRow Raw)) (id : String) (t : Timestamptz)
      → created_in id table ≡ some t
      → created_in id changed ≡ some t
      → created_in id (applied fault table changed).1 ≡ some t
  applied-created served table changed id t before after = after
  applied-created (refused e) table changed id t before after = before
  applied-created (unanswered e) table changed id t before after = after

-- A change that does not delete the experiment of an id.
abbrev pub keeps : String → Fault × Change → Bool
keeps id (fault, deletes other) = not (other == id)
keeps id (fault, _) = true

module _ {Raw Pool : Type 0} (codec : VariantsCodec Raw) (id : String) (t : Timestamptz) where
  create_encoded-created :
      (fault : Fault) (s : PostgresExperiments Pool Raw) (now : ℕ) (e : Experiment)
      (variants : Result Error Raw)
      → created_in id s.table ≡ some t
      → created_in id (create_encoded codec fault s now e variants).1.table ≡ some t
  unfolding insert_experiment
  create_encoded-created fault s now e (err why) created = created
  create_encoded-created fault s now e (ok variants) created =
      let new = new_row codec e variants now in
      executed-created fault s.table (insert_unless new s.table (lookup e.id s.table)) id t created
        (insert_unless-created new s.table id t (lookup e.id s.table) refl created)

  update_encoded-created :
      (fault : Fault) (s : PostgresExperiments Pool Raw) (now : ℕ) (e : Experiment)
      (variants : Result Error Raw)
      → created_in id s.table ≡ some t
      → created_in id (update_encoded codec fault s now e variants).1.table ≡ some t
  unfolding update_rows
  update_encoded-created fault s now e (err why) created = created
  update_encoded-created fault s now e (ok variants) created =
      let new = new_row codec e variants now in
      executed-created fault s.table (update_row new s.table (lookup e.id s.table)) id t created
        (update_row-created new s.table id t (lookup e.id s.table) refl created)

  call-created :
      (s : PostgresExperiments Pool Raw) (c : Fault × Change)
      → keeps id c ≡ true
      → created_in id s.table ≡ some t
      → created_in id (call codec s c).table ≡ some t
  unfolding create_experiment update_experiment delete_experiment delete_rows
  call-created s (fault, creates now e) kept created =
      ground
        (arith, created, create_encoded-created fault s now e (codec.marshal e.variants) created)
  call-created s (fault, updates now e) kept created =
      ground
        (arith, created, update_encoded-created fault s now e (codec.marshal e.variants) created)
  call-created s (fault, deletes other) kept created = ground (
    arith,
    kept,
    created,
    applied-created fault s.table (delete other s.table) id t created
        (ground (arith, kept, created, lookup-delete other id s.table)),
  )

  -- An experiment that stands in the table keeps the time of its creation through any later calls
  -- that do not delete it: a creation under its id does not overwrite it, an update keeps the time,
  -- and so does a statement that the database refuses or leaves without an answer.
  pub creation_is_final :
      (s : PostgresExperiments Pool Raw) (cs : List (Fault × Change))
      → all (keeps id) cs ≡ true
      → created_in id s.table ≡ some t
      → created_in id (calls codec s cs).table ≡ some t
  creation_is_final s [] kept created = created
  creation_is_final s (c ∷ cs) kept created =
      creation_is_final (call codec s c) cs (ground (arith, kept))
        (call-created s c (ground (arith, kept)) created)
