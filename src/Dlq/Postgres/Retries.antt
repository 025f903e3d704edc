-- ===== src/Dlq/Postgres/Retries.antt =====
-- dlq.postgres.go: a MarkRetried whose second statement fails.
use grnoti.Prelude.{
  ℕ, suc, ◌≡◌, refl, ap, ◌∙◌, Bool, true, false, Option, some, Result, ok, [], ◌∷◌, String, concat,
  arith, eq_refl,
}
use grnoti.Prelude.Maps.{lookup, insert, lookup-insert}
use grnoti.Types.{Error}
use grnoti.Database.{served, refused, unavailable_error}
use grnoti.Dlq.{is_retrying}
use grnoti.Dlq.Postgres.{
  DlqCodec, DlqRow, PostgresDlq, row_is_due, row_incremented, increment_retry_count,
}
use grnoti.Dlq.Postgres.Handler.{
  with_table, retried_attempt, begin_retry, finish_retry, retried_row, mark_retried,
}
use grnoti.Dlq.Postgres.Rows.{DlqLaws}

retrying_not_due :
    {Json : Type 0} (later : ℕ) (r : DlqRow Json)
    → is_retrying r.status ≡ true
    → row_is_due later r ≡ false
retrying_not_due later r claimed = ground (arith, claimed)

module _ {Pool Json : Type 0} (codec : DlqCodec Json) (laws : DlqLaws codec) where
  begun :
      (h : PostgresDlq Pool Json) (id : String) (now : ℕ) (r : DlqRow Json)
      → h.store.closed ≡ false
      → lookup id h.store.table ≡ some r
      → is_retrying r.status ≡ true
      → begin_retry codec served served h id now ≡ (
        ok (row_incremented now r),
        with_table codec h (insert id (row_incremented now r) h.store.table),
      )
  unfolding begin_retry increment_retry_count
  begun h id now r live found claimed = simp (live, found, claimed) refl

  unfinished :
      (int63n : ℕ → ℕ) (h : PostgresDlq Pool Json) (id : String) (row : DlqRow Json)
      (success : Bool) (attempt_err : Option Error) (now : ℕ) (why : Error)
      → finish_retry codec (refused why) int63n h id row success attempt_err now ≡ (
        some (
            unavailable_error
              (concat "grnoti/postgres: mark retried " (concat id " (finalize)"))
              why),
        h,
      )
  unfolding finish_retry
  unfinished int63n h id row success attempt_err now why =
      simp ((laws.attempts_back (retried_attempt row success attempt_err now ∷ [])).1) refl

  -- A MarkRetried for a claimed event of an open handler, whose second statement the database
  -- refuses, gives the caller an error and leaves the event claimed, with one retry more on its
  -- count: the row is due at no time, and the first statement of a repeated MarkRetried, though it
  -- is for the same attempt, counts one more retry. The codec decodes the attempts that it encoded.
  pub unfinished_retry :
      (int63n : ℕ → ℕ) (h : PostgresDlq Pool Json) (id : String) (r : DlqRow Json) (success : Bool)
      (attempt_err : Option Error) (now later : ℕ) (why : Error)
      → h.store.closed ≡ false
      → lookup id h.store.table ≡ some r
      → is_retrying r.status ≡ true
      → let left =
          mark_retried codec served served (refused why) int63n h id success attempt_err now in
        (left.0
          ≡ some (
              unavailable_error
                (concat "grnoti/postgres: mark retried " (concat id " (finalize)"))
                why))
        × (lookup id left.1.store.table ≡ some (row_incremented now r))
        × (row_is_due later (row_incremented now r) ≡ false)
        × ((begin_retry codec served served left.1 id later).0
            ≡ ok (record (row_incremented later r) { retry_count = suc (suc r.retry_count) }))
  unfolding mark_retried
  unfinished_retry int63n h id r success attempt_err now later why live found claimed =
      let row = row_incremented now r in
      let next = with_table codec h (insert id row h.store.table) in
      let stands : lookup id next.store.table ≡ some row =
        lookup-insert id id row h.store.table ∙ rw (eq_refl id) refl in
      let left =
        ap (retried_row codec (refused why) int63n id success attempt_err now)
          (begun h id now r live found claimed)
        ∙ unfinished int63n next id row success attempt_err now why in
      rw left (
        refl,
        stands,
        retrying_not_due later row claimed,
        ap (λ (x : Result Error (DlqRow Json) × PostgresDlq Pool Json). x.0)
            (begun next id later row live stands claimed),
      )
