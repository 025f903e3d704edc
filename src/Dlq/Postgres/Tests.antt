-- ===== src/Dlq/Postgres/Tests.antt =====
-- The handler over PostgreSQL with an encoding that keeps the values, and its theorems at a run.
use grnoti.Prelude.{
  ℕ, suc, ◌≡◌, refl, true, false, none, some, Result, ok, err, List, [], ◌∷◌, ◌++◌, map, concat,
  arith, leb, if◌then◌else◌,
}
use grnoti.Prelude.Maps.{lookup, insert}
use grnoti.Types.{Event, Error, err_closed, err_backend_unavailable}
use grnoti.Database.{whole, served, refused, unavailable_error}
use grnoti.Dlq.{
  retrying, DlqRetryAttempt, Handler, Op, publishes, claims, marks, purges, run,
  claim_retryable_events as claim_in_memory, mark_retried as mark_in_memory,
  get_event_by_id as get_in_memory, purge_expired_events as purge_in_memory,
}
use grnoti.Dlq.Tests.{event_of, zero_delay}
use mathlib.Core.List.{Permᴰ}
use mathlib.Core.List.Permᴰ
use grnoti.Prelude.Sorting.{Untied}
use grnoti.Backoff.{full_jitter_backoff, largest_sleep, scaled}
use grnoti.Postgres.{pg_int32}
use grnoti.Dlq.Postgres.{
  RowOrder, due_rows, upsert_dlq_event, claim_rows, sort_due, insert_due, update_due,
  increment_retry_count, update_by_id, purge_rows, dlq_row_to_domain, DlqCodec, DlqRow, PostgresDlq,
  row_is_due, row_incremented,
}
use grnoti.Dlq.Postgres.Handler.{
  publish_to_dlq, finish_retry, decode_claimed, first_row, claim_retryable_events, get_event_by_id,
  mark_retried, purge_expired_events, begin_retry,
}
use grnoti.Dlq.Postgres.Tables.{Permutes, row_time}
use grnoti.Dlq.Postgres.Rows.{draws_in_micros, DlqLaws}
use grnoti.Dlq.Postgres.Refines.{Simulates}
use grnoti.Dlq.Postgres.Retries.{unfinished_retry}
use grnoti.Dlq.Postgres.Agreement.{
  UntiedRun, with_limit, postgres_run, AlikeEvents, AlikeClaims, postgres_agrees,
}

data Json : Type 0 where
  an_event : Event → Json
  attempts : List DlqRetryAttempt → Json

abbrev event_in : Json → Result Error Event
event_in (an_event e) = ok e
event_in (attempts xs) = err err_closed

abbrev attempts_in : Json → Result Error (List DlqRetryAttempt)
attempts_in (an_event e) = err err_closed
attempts_in (attempts xs) = ok xs

abbrev joined : Json → Json → Json
joined (attempts xs) (attempts ys) = attempts (xs ++ ys)
joined (attempts xs) (an_event e) = an_event e
joined (an_event e) other = an_event e

abbrev codec : DlqCodec Json
codec = record {
  marshal_event = λ e. ok (an_event e);
  unmarshal_event = event_in;
  marshal_attempts = λ xs. ok (attempts xs);
  unmarshal_attempts = attempts_in;
  is_empty = λ json. false;
  joined_arrays = joined;
}

join_back_lem :
    (a b : Json) (xs ys : List DlqRetryAttempt)
    → attempts_in a ≡ ok xs
    → attempts_in b ≡ ok ys
    → (false ≡ false) × (attempts_in (joined a b) ≡ ok (xs ++ ys))
join_back_lem (attempts us) (attempts vs) xs ys p q = (refl, ground (arith, p, q))
join_back_lem (attempts us) (an_event e) xs ys p q = ground (arith, q)
join_back_lem (an_event e) b xs ys p q = ground (arith, p)

laws : DlqLaws codec
laws = record {
  event_back = λ e. (an_event e, refl, refl, refl);
  attempts_back = λ xs. (attempts xs, refl, refl, refl);
  join_back = join_back_lem;
}

abbrev empty_handler : PostgresDlq ℕ Json
empty_handler = record {
  config = record { max_retries = 3; retry_delay = 10000; max_retry_delay = 100000 };
  store = record { pool = 0; owns_pool = true; closed = false; table = [] };
}

abbrev in_memory : Handler
in_memory = record {
  config = record { max_retries = 3; retry_delay = 10000; max_retry_delay = 100000 };
  events = [];
}

abbrev day : List Op
day =
    publishes (event_of "a") "down" 5000
    ∷ publishes (event_of "b") "down" 3000
    ∷ claims 0 20000
    ∷ publishes (event_of "a") "down again" 25000
    ∷ marks "b" false (some err_closed) 40000
    ∷ publishes (event_of "c") "down" 50000
    ∷ publishes (event_of "d") "down" 51000
    ∷ purges 55000 60000
    ∷ []

both_empty : Simulates codec empty_handler in_memory
unfolding whole
both_empty = record {
  live = refl;
  configured = refl;
  whole_delay = refl;
  small = omega arith;
  rows = tt;
}

abbrev swapped : List (DlqRow Json) → List (DlqRow Json)
swapped (first ∷ second ∷ rest) = second ∷ first ∷ rest
swapped rows = rows

swapped-Perm : (rows : List (DlqRow Json)) → Permᴰ rows (swapped rows)
swapped-Perm [] = Permᴰ.refl []
swapped-Perm (first ∷ []) = Permᴰ.refl (first ∷ [])
swapped-Perm (first ∷ second ∷ rest) = Permᴰ.swap refl refl

-- Rows are scanned in the order of the table and returned with the first two in reverse.
abbrev order : RowOrder Json
order = record { scanned = λ rows. rows; returned = swapped }

order-Permutes : Permutes order
order-Permutes = record { scanned_permutes = Permᴰ.refl; returned_permutes = swapped-Perm }

abbrev final : PostgresDlq ℕ Json
final = postgres_run codec order zero_delay empty_handler day

final-Untied : Untied row_time (due_rows 70000 final.store.table)
unfolding publish_to_dlq claim_retryable_events mark_retried begin_retry finish_retry
    purge_expired_events upsert_dlq_event claim_rows sort_due insert_due update_due decode_claimed
    increment_retry_count update_by_id purge_rows dlq_row_to_domain pg_int32 full_jitter_backoff
    largest_sleep scaled lookup insert whole
final-Untied = ((omega arith, tt), (tt, tt))

day-UntiedRun : UntiedRun codec order zero_delay empty_handler day
unfolding publish_to_dlq upsert_dlq_event pg_int32 lookup insert whole
day-UntiedRun = (((omega arith, tt), (tt, tt)), tt)

postgres_agrees_example :
    let draws = draws_in_micros zero_delay in
    let q = run draws in_memory (map with_limit day) in
    AlikeEvents (get_event_by_id codec served final "a") (get_in_memory q "a")
    × AlikeClaims
        (claim_retryable_events codec served order final 1 70000).0
        (claim_in_memory q (if leb 1 0 then 10 else 1) 70000).0
    × ((mark_retried codec served served served zero_delay final "a" true none 70000).0
        ≡ (mark_in_memory draws q "a" true none 70000).0)
    × ((purge_expired_events codec served final 5000 70000).0 ≡ ok (purge_in_memory q 5000 70000).0)
unfolding whole
postgres_agrees_example =
    postgres_agrees codec laws order order-Permutes zero_delay empty_handler in_memory day "a" 1
      5000 70000 true none both_empty
      (refl, (refl, ((refl, omega arith), (refl, (refl, (refl, (refl, ((refl, refl), tt))))))))
      day-UntiedRun refl refl (omega arith) final-Untied

-- An event that is claimed.
abbrev claimed_row : DlqRow Json
claimed_row =
    record (first_row codec empty_handler.config (event_of "a") "down" 5 (an_event (event_of "a"))
      (attempts [])) { status = retrying }

abbrev claimed_handler : PostgresDlq ℕ Json
claimed_handler = record empty_handler {
  store = record empty_handler.store { table = ("a", claimed_row) ∷ [] };
}

unfinished_retry_example :
    let left =
      mark_retried codec served served
        (refused err_backend_unavailable)
        zero_delay
        claimed_handler
        "a"
        true
        none
        30 in
    (left.0
      ≡ some (
          unavailable_error
            (concat "grnoti/postgres: mark retried " (concat "a" " (finalize)"))
            err_backend_unavailable))
    × (lookup "a" left.1.store.table ≡ some (row_incremented 30 claimed_row))
    × (row_is_due 99 (row_incremented 30 claimed_row) ≡ false)
    × ((begin_retry codec served served left.1 "a" 99).0
        ≡ ok (record (row_incremented 99 claimed_row) {
          retry_count = suc (suc claimed_row.retry_count);
        }))
unfolding lookup
unfinished_retry_example =
    unfinished_retry codec laws zero_delay claimed_handler "a" claimed_row true none 30 99
      err_backend_unavailable refl refl refl
