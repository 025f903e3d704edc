-- ===== src/Dlq/Postgres/Handler.antt =====
-- dlq.postgres.go: the methods of postgresDLQHandler. `int63n` is rand.Int63n, and `now` the reading
-- of the clock. A limit or a duration at most 0 is 0.
use grnoti.Prelude.{
  ℕ, ◌+◌, ◌-◌, Bool, Option, none, some, Result, ok, err, List, [], ◌∷◌, String, concat, leb,
  if◌then◌else◌,
}
use grnoti.Prelude.Int.{pos}
use grnoti.Prelude.Maps.{Map, lookup}
use grnoti.Prelude.Fallible.{pure, on_err, ◌>>=◌}
use grnoti.Types.{
  Event, Error, err_closed, err_dlq_event_not_found, err_dlq_event_not_claimed, wrapped,
}
use grnoti.Backoff.{full_jitter_backoff}
use grnoti.Database.{Fault, executed, applied, queried, unavailable_error, failed_as}
use grnoti.Postgres.{pg_timestamptz}
use grnoti.Dlq.{
  pending, exhausted, resolved, DlqRetryAttempt, DlqEvent, DlqBackoffConfig, failed_attempt,
  attempt_text,
}
use grnoti.Dlq.Postgres.{
  RowOrder, DlqCodec, DlqRow, PostgresDlq, int32_of, claim_rows, increment_retry_count,
  update_by_id, purge_rows, upsert_dlq_event, finalized_pending, finalized_terminal,
  dlq_row_to_domain,
}

abbrev pub purged_as : Result Error ℕ → Result Error ℕ
purged_as (err e) = err (unavailable_error "grnoti/postgres: purge expired events" e)
purged_as (ok n) = ok n

-- getErr == ErrDLQEventNotFound
abbrev pub refusal : Result Error DlqEvent → Error
refusal (err err_dlq_event_not_found) = err_dlq_event_not_found
refusal _ = err_dlq_event_not_claimed

abbrev pub retried_attempt :
    {Json : Type 0} → DlqRow Json → Bool → Option Error → ℕ → DlqRetryAttempt
retried_attempt r success attempt_err now = record {
  attempt_number = r.retry_count;
  attempted_at = now;
  success = success;
  error_message = attempt_text attempt_err;
}

module _ {Json : Type 0} (codec : DlqCodec Json) where
  abbrev pub first_row : DlqBackoffConfig → Event → String → ℕ → Json → Json → DlqRow Json
  first_row config event reason now event_data attempts = record {
    event_id = event.event_id;
    event_data = event_data;
    failure_reason = reason;
    retry_count = 0;
    max_retries = int32_of config.max_retries;
    first_failure_at = pg_timestamptz now;
    last_attempt_at = pg_timestamptz now;
    next_retry_at = pg_timestamptz (now + config.retry_delay);
    status = pending;
    attempt_history = attempts;
    created_at = pg_timestamptz now;
    updated_at = pg_timestamptz now;
  }

  -- The two encodings of PublishToDLQ.
  abbrev pub new_dlq_row : DlqBackoffConfig → Event → String → ℕ → Result Error (DlqRow Json)
  new_dlq_row config event reason now = do
    event_data ←
        on_err (wrapped (concat "grnoti/postgres: encode event " event.event_id))
          (codec.marshal_event event)
    attempts ←
        on_err (wrapped (concat "grnoti/postgres: encode attempt for " event.event_id))
          (codec.marshal_attempts (failed_attempt 0 now reason ∷ []))
    pure (first_row config event reason now event_data attempts)

  -- The loop of ClaimRetryableEvents over the rows: the first that does not decode ends it.
  unfoldable pub decode_claimed : List (DlqRow Json) → Result Error (List DlqEvent)
  decode_claimed [] = pure []
  decode_claimed (r ∷ rows) = do
    e ← dlq_row_to_domain codec r
    es ← decode_claimed rows
    pure (e ∷ es)

  abbrev pub rows_claimed : Result Error (List (DlqRow Json)) → Result Error (List DlqEvent)
  rows_claimed (err e) = err (unavailable_error "grnoti/postgres: claim retryable events" e)
  rows_claimed (ok rows) = decode_claimed rows

  abbrev pub event_found : String → Result Error (Option (DlqRow Json)) → Result Error DlqEvent
  event_found id (err e) = err (unavailable_error (concat "grnoti/postgres: get event " id) e)
  event_found id (ok none) = err err_dlq_event_not_found
  event_found id (ok (some r)) = dlq_row_to_domain codec r

  -- The switch on the outcome: which statement finalizes the row.
  abbrev pub finalized :
      (ℕ → ℕ) → DlqBackoffConfig → DlqRow Json → Bool → ℕ → Json → DlqRow Json → DlqRow Json
  finalized int63n config row success now attempts =
      if success
      then finalized_terminal codec resolved now attempts
      else if leb row.max_retries row.retry_count
      then finalized_terminal codec exhausted now attempts
      else finalized_pending codec
          (now
            + full_jitter_backoff int63n config.retry_delay config.max_retry_delay
                (pos row.retry_count))
          now attempts

  module _ {Pool : Type 0} where
    abbrev pub with_table : PostgresDlq Pool Json → Map (DlqRow Json) → PostgresDlq Pool Json
    with_table h table = record h { store = record h.store { table = table } }

    abbrev pub publish_row :
        Fault
        → PostgresDlq Pool Json
        → String
        → Result Error (DlqRow Json)
        → Option Error × PostgresDlq Pool Json
    publish_row fault h id (err e) = (some e, h)
    publish_row fault h id (ok new) =
        let r = applied fault h.store.table (upsert_dlq_event codec new h.store.table) in
        (failed_as (concat "grnoti/postgres: publish to dlq " id) r.0, with_table h r.1)

    unfoldable pub publish_to_dlq :
        Fault → PostgresDlq Pool Json → Event → String → ℕ → Option Error × PostgresDlq Pool Json
    publish_to_dlq fault h event reason now =
        if h.store.closed
        then (some err_closed, h)
        else publish_row fault h event.event_id (new_dlq_row h.config event reason now)

    unfoldable pub claim_retryable_events :
        Fault
        → RowOrder Json
        → PostgresDlq Pool Json
        → ℕ
        → ℕ
        → Result Error (List DlqEvent) × PostgresDlq Pool Json
    claim_retryable_events fault order h limit now =
        if h.store.closed
        then (err err_closed, h)
        else let batch = if leb limit 0 then 10 else limit in
          let r =
            executed fault h.store.table (claim_rows order (int32_of batch) now h.store.table) in
          (rows_claimed r.0, with_table h r.1)

    unfoldable pub get_event_by_id : Fault → PostgresDlq Pool Json → String → Result Error DlqEvent
    get_event_by_id fault h id =
        if h.store.closed
        then err err_closed
        else event_found id (queried fault (lookup id h.store.table))

    -- The first statement of MarkRetried, and the answers that end the call there.
    abbrev pub begun :
        Fault
        → PostgresDlq Pool Json
        → String
        → Result Error (Option (DlqRow Json))
        → Result Error (DlqRow Json)
    begun look h id (err e) = err (unavailable_error (concat "grnoti/postgres: mark retried " id) e)
    begun look h id (ok none) = err (refusal (get_event_by_id look h id))
    begun look h id (ok (some row)) = ok row

    unfoldable pub begin_retry :
        Fault
        → Fault
        → PostgresDlq Pool Json
        → String
        → ℕ
        → Result Error (DlqRow Json) × PostgresDlq Pool Json
    begin_retry fault look h id now =
        if h.store.closed
        then (err err_closed, h)
        else let r = executed fault h.store.table (increment_retry_count id now h.store.table) in
          (begun look (with_table h r.1) id r.0, with_table h r.1)

    abbrev pub finish_encoded :
        Fault
        → (ℕ → ℕ)
        → PostgresDlq Pool Json
        → String
        → DlqRow Json
        → Bool
        → ℕ
        → Result Error Json
        → Option Error × PostgresDlq Pool Json
    finish_encoded fault int63n h id row success now (err e) =
        (some (wrapped (concat "grnoti/postgres: encode attempt for " id) e), h)
    finish_encoded fault int63n h id row success now (ok attempts) =
        let change = finalized int63n h.config row success now attempts in
        let r = applied fault h.store.table (update_by_id id change h.store.table) in
        (
          failed_as (concat "grnoti/postgres: mark retried " (concat id " (finalize)")) r.0,
          with_table h r.1,
        )

    -- The rest of MarkRetried, with the row that the first statement gave.
    unfoldable pub finish_retry :
        Fault
        → (ℕ → ℕ)
        → PostgresDlq Pool Json
        → String
        → DlqRow Json
        → Bool
        → Option Error
        → ℕ
        → Option Error × PostgresDlq Pool Json
    finish_retry fault int63n h id row success attempt_err now =
        finish_encoded fault int63n h id row success now
          (codec.marshal_attempts (retried_attempt row success attempt_err now ∷ []))

    abbrev pub retried_row :
        Fault
        → (ℕ → ℕ)
        → String
        → Bool
        → Option Error
        → ℕ
        → Result Error (DlqRow Json) × PostgresDlq Pool Json
        → Option Error × PostgresDlq Pool Json
    retried_row fault int63n id success attempt_err now (err e, h) = (some e, h)
    retried_row fault int63n id success attempt_err now (ok row, h) =
        finish_retry fault int63n h id row success attempt_err now

    -- MarkRetried without a call of another between its statements. The faults are those of the
    -- increment, of the look at a row that was not incremented, and of the finalization.
    unfoldable pub mark_retried :
        Fault
        → Fault
        → Fault
        → (ℕ → ℕ)
        → PostgresDlq Pool Json
        → String
        → Bool
        → Option Error
        → ℕ
        → Option Error × PostgresDlq Pool Json
    mark_retried fault look finalize int63n h id success attempt_err now =
        retried_row finalize int63n id success attempt_err now (begin_retry fault look h id now)

    unfoldable pub purge_expired_events :
        Fault → PostgresDlq Pool Json → ℕ → ℕ → Result Error ℕ × PostgresDlq Pool Json
    purge_expired_events fault h max_age now =
        if h.store.closed
        then (err err_closed, h)
        else let r = executed fault h.store.table (purge_rows (now - max_age) h.store.table) in
          (purged_as r.0, with_table h r.1)
