-- ===== src/Dlq/Postgres.antt =====
-- dlq.postgres.go, with the statements of internal/postgresdb/dlq.sql.go on the table grnoti_dlq, by
-- event id. encoding/json is a parameter with the concatenation of two jsonb arrays: the encoded
-- values are of type Json. The column of the status holds one of the four constants. A row that
-- breaks a limit of its column is refused, as any statement may be. MarkRetried is two statements,
-- begin_retry and finish_retry, and other calls may come between them.
pub mod Handler
pub mod Rows
mod Outcomes
pub mod Tables
pub mod Retries
pub mod Refines
pub mod Agreement
pub mod Tests
use grnoti.Prelude.{
  ℕ, suc, ◌+◌, ◌-◌, Bool, true, false, ◌&&◌, ◌||◌, Option, none, some, Result, ok, err, List, [],
  ◌∷◌, ◌++◌, String, concat, ltb, leb, if◌then◌else◌, take, select,
}
use grnoti.Prelude.Int.{pos, pos_part}
use grnoti.Prelude.Maps.{Map, lookup, insert}
use grnoti.Prelude.Fallible.{pure, on_err, ◌>>=◌}
use grnoti.Types.{
  Event, Error, err_closed, err_dlq_event_not_found, err_dlq_event_not_claimed, wrapped,
}
use grnoti.Backoff.{full_jitter_backoff}
use grnoti.Database.{micros, Fault, executed, applied, queried, unavailable_error, failed_as}
use grnoti.Postgres.{Timestamptz, pg_timestamptz, pg_time, pg_int32, PostgresStore}
use grnoti.Dlq.{
  DlqStatus, pending, retrying, exhausted, resolved, is_pending, is_retrying, is_terminal,
  DlqRetryAttempt, DlqEvent, DlqBackoffConfig, failed_attempt, attempt_text,
}

pub record DlqCodec (Json : Type 0) : Type 0 where
  pub marshal_event : Event → Result Error Json
  pub unmarshal_event : Json → Result Error Event
  pub marshal_attempts : List DlqRetryAttempt → Result Error Json
  pub unmarshal_attempts : Json → Result Error (List DlqRetryAttempt)
  pub is_empty : Json → Bool
  -- jsonb || jsonb
  pub joined_arrays : Json → Json → Json

-- GrnotiDlq
pub record DlqRow (Json : Type 0) : Type 0 where
  pub event_id : String
  pub event_data : Json
  pub failure_reason : String
  pub retry_count : ℕ
  pub max_retries : ℕ
  pub first_failure_at : Timestamptz
  pub last_attempt_at : Timestamptz
  pub next_retry_at : Timestamptz
  pub status : DlqStatus
  pub attempt_history : Json
  pub created_at : Timestamptz
  pub updated_at : Timestamptz

-- The orders that PostgreSQL leaves open: that of the scan, which a sort keeps among equal times,
-- and that of RETURNING.
pub record RowOrder (Json : Type 0) : Type 0 where
  pub scanned : List (String × DlqRow Json) → List (String × DlqRow Json)
  pub returned : List (DlqRow Json) → List (DlqRow Json)

-- postgresDLQHandler
pub record PostgresDlq (Pool Json : Type 0) : Type 0 where
  pub config : DlqBackoffConfig
  pub store : PostgresStore Pool (Map (DlqRow Json))

-- The default of NewPostgresDLQHandler; the store is connected as every store is.
unfoldable pub postgres_dlq_config : ℕ → ℕ → ℕ → DlqBackoffConfig
postgres_dlq_config max_retries retry_delay max_retry_delay = record {
  max_retries = if leb max_retries 0 then 3 else max_retries;
  retry_delay = retry_delay;
  max_retry_delay = max_retry_delay;
}

-- A number that is not negative, as a parameter of a statement.
abbrev pub int32_of : ℕ → ℕ
int32_of n = pos_part (pg_int32 (pos n))

module _ {Json : Type 0} where
  -- A pending row whose time has come. A time that is sent to a test has whole microseconds.
  abbrev pub row_is_due : ℕ → DlqRow Json → Bool
  row_is_due now r = is_pending r.status && leb (pg_time r.next_retry_at) (micros now)

  abbrev pub due_rows : ℕ → Map (DlqRow Json) → List (String × DlqRow Json)
  due_rows now table = select (λ (c : String × DlqRow Json). row_is_due now c.1) table

  -- ORDER BY next_retry_at ASC. Rows with equal times keep the order in which they were scanned.
  unfoldable pub insert_due :
      String × DlqRow Json → List (String × DlqRow Json) → List (String × DlqRow Json)
  insert_due c [] = c ∷ []
  insert_due c (d ∷ ds) =
      if ltb (pg_time d.1.next_retry_at) (pg_time c.1.next_retry_at)
      then d ∷ insert_due c ds
      else c ∷ d ∷ ds

  unfoldable pub sort_due : List (String × DlqRow Json) → List (String × DlqRow Json)
  sort_due [] = []
  sort_due (c ∷ cs) = insert_due c (sort_due cs)

  abbrev pub row_claimed : ℕ → DlqRow Json → DlqRow Json
  row_claimed now r = record r { status = retrying; updated_at = pg_timestamptz now }

  -- The UPDATE of the rows that the subquery locked.
  unfoldable pub update_due :
      ℕ → List (String × DlqRow Json) → Map (DlqRow Json) → List (DlqRow Json) × Map (DlqRow Json)
  update_due now [] table = ([], table)
  update_due now ((id, r) ∷ rest) table =
      let more = update_due now rest (insert id (row_claimed now r) table) in
      (row_claimed now r ∷ more.0, more.1)

  -- UPDATE ... WHERE event_id IN (SELECT ... FOR UPDATE SKIP LOCKED) RETURNING ...
  unfoldable pub claim_rows :
      RowOrder Json → ℕ → ℕ → Map (DlqRow Json) → List (DlqRow Json) × Map (DlqRow Json)
  claim_rows order limit now table =
      let claim =
        update_due now (take limit (sort_due (order.scanned (due_rows now table)))) table in
      (order.returned claim.0, claim.1)

  abbrev pub row_incremented : ℕ → DlqRow Json → DlqRow Json
  row_incremented now r = record r {
    retry_count = suc r.retry_count;
    last_attempt_at = pg_timestamptz now;
    updated_at = pg_timestamptz now;
  }

  abbrev pub increment_found :
      String
      → ℕ
      → Map (DlqRow Json)
      → Option (DlqRow Json)
      → Option (DlqRow Json) × Map (DlqRow Json)
  increment_found id now table none = (none, table)
  increment_found id now table (some r) =
      if is_retrying r.status
      then (some (row_incremented now r), insert id (row_incremented now r) table)
      else (none, table)

  -- UPDATE ... WHERE event_id = $1 AND status = 'retrying' RETURNING ...
  unfoldable pub increment_retry_count :
      String → ℕ → Map (DlqRow Json) → Option (DlqRow Json) × Map (DlqRow Json)
  increment_retry_count id now table = increment_found id now table (lookup id table)

  abbrev pub updated_found :
      String
      → (DlqRow Json → DlqRow Json)
      → Map (DlqRow Json)
      → Option (DlqRow Json)
      → Map (DlqRow Json)
  updated_found id change table none = table
  updated_found id change table (some r) = insert id (change r) table

  -- UPDATE ... WHERE event_id = $1, whatever the status is.
  unfoldable pub update_by_id :
      String → (DlqRow Json → DlqRow Json) → Map (DlqRow Json) → Map (DlqRow Json)
  update_by_id id change table = updated_found id change table (lookup id table)

  abbrev pub row_is_expired : ℕ → DlqRow Json → Bool
  row_is_expired cutoff r = is_terminal r.status || ltb (pg_time r.created_at) (micros cutoff)

  -- DELETE ... WHERE status IN ('resolved', 'exhausted') OR created_at < $1
  unfoldable pub purge_rows : ℕ → Map (DlqRow Json) → ℕ × Map (DlqRow Json)
  purge_rows cutoff [] = (0, [])
  purge_rows cutoff ((id, r) ∷ rest) =
      let left = purge_rows cutoff rest in
      if row_is_expired cutoff r then (suc left.0, left.1) else (left.0, (id, r) ∷ left.1)

  abbrev pub dlq_event_of : DlqRow Json → Event → List DlqRetryAttempt → DlqEvent
  dlq_event_of r event history = record {
    event_id = r.event_id;
    event = event;
    failure_reason = r.failure_reason;
    retry_count = r.retry_count;
    max_retries = r.max_retries;
    first_failure_at = pg_time r.first_failure_at;
    last_attempt_at = pg_time r.last_attempt_at;
    next_retry_at = pg_time r.next_retry_at;
    status = r.status;
    attempt_history = history;
    created_at = pg_time r.created_at;
    updated_at = pg_time r.updated_at;
  }

-- var event Event
abbrev zero_event : Event
zero_event = record {
  event_id = "";
  user_id = "";
  anonymous_id = "";
  fids = [];
  type = "";
  payload = [];
  priority = "";
  timestamp = 0;
  experiment_id = "";
}

module _ {Json : Type 0} (codec : DlqCodec Json) where
  abbrev pub history_extended : DlqRow Json → Json → Json
  history_extended r attempts = codec.joined_arrays r.attempt_history attempts

  -- INSERT ... ON CONFLICT (event_id) DO UPDATE
  abbrev pub row_upserted : DlqRow Json → Option (DlqRow Json) → DlqRow Json
  row_upserted new none = new
  row_upserted new (some old) = record old {
    failure_reason = new.failure_reason;
    last_attempt_at = new.last_attempt_at;
    updated_at = new.updated_at;
    attempt_history = history_extended old new.attempt_history;
  }

  unfoldable pub upsert_dlq_event : DlqRow Json → Map (DlqRow Json) → Map (DlqRow Json)
  upsert_dlq_event new table =
      insert new.event_id (row_upserted new (lookup new.event_id table)) table

  -- FinalizeRetryPending and FinalizeRetryTerminal, on a row
  abbrev pub finalized_pending : ℕ → ℕ → Json → DlqRow Json → DlqRow Json
  finalized_pending next now attempts r = record r {
    status = pending;
    next_retry_at = pg_timestamptz next;
    updated_at = pg_timestamptz now;
    attempt_history = history_extended r attempts;
  }

  abbrev pub finalized_terminal : DlqStatus → ℕ → Json → DlqRow Json → DlqRow Json
  finalized_terminal status now attempts r = record r {
    status = status;
    updated_at = pg_timestamptz now;
    attempt_history = history_extended r attempts;
  }

  abbrev pub decode_event : DlqRow Json → Result Error Event
  decode_event r =
      if codec.is_empty r.event_data
      then ok zero_event
      else on_err (wrapped (concat "grnoti/postgres: decode event for " r.event_id))
          (codec.unmarshal_event r.event_data)

  abbrev pub decode_history : DlqRow Json → Result Error (List DlqRetryAttempt)
  decode_history r =
      if codec.is_empty r.attempt_history
      then ok []
      else on_err (wrapped (concat "grnoti/postgres: decode attempt history for " r.event_id))
          (codec.unmarshal_attempts r.attempt_history)

  unfoldable pub dlq_row_to_domain : DlqRow Json → Result Error DlqEvent
  dlq_row_to_domain r = do
    event ← decode_event r
    history ← decode_history r
    pure (dlq_event_of r event history)
