-- ===== src/Dlq/Mongo.antt =====
-- dlq.mongo.go: the collection of the dead-letter events, by event id. mongoDLQDoc has the fields of
-- DLQEvent and toDLQEvent copies them, so a document is a DlqEvent here; every document decodes, as
-- the ones that the handler writes do. An operation on one document is atomic. `int63n` is
-- rand.Int63n, and `now` the reading of the clock. A limit or a duration at most 0 is 0. The TTL
-- index of the collection deletes documents after seven days by itself, which is not modelled.
mod Order
pub mod Loop
pub mod Claims
pub mod Tests
use grnoti.Prelude.{
  ℕ, zero, suc, ◌+◌, ◌-◌, Bool, true, false, Option, none, some, Result, ok, err, List, [], ◌∷◌,
  ◌++◌, String, concat, ltb, leb, if◌then◌else◌, select,
}
use grnoti.Prelude.Int.{pos}
use grnoti.Prelude.Maps.{Map, lookup, insert}
use grnoti.Types.{Event, Error, err_closed, err_dlq_event_not_found, err_dlq_event_not_claimed}
use grnoti.Backoff.{full_jitter_backoff}
use grnoti.Database.{
  Fault, served, executed, applied, queried, unavailable_error, failed_as, millis,
}
use grnoti.Mongo.{MongoStore}
use grnoti.Dlq.{
  DlqStatus, pending, retrying, exhausted, resolved, is_retrying, is_terminal, is_due,
  DlqRetryAttempt, DlqEvent, DlqBackoffConfig, failed_attempt, first_failure, claimed, attempt_text,
  purge,
}

-- mongoDLQHandler
pub record MongoDlq (Client : Type 0) : Type 0 where
  pub config : DlqBackoffConfig
  pub store : MongoStore Client (Map DlqEvent)

-- The default of NewMongoDLQHandler; the store is connected as every store is.
unfoldable pub mongo_dlq_config : ℕ → ℕ → ℕ → DlqBackoffConfig
mongo_dlq_config max_retries retry_delay max_retry_delay = record {
  max_retries = if leb max_retries 0 then 3 else max_retries;
  retry_delay = retry_delay;
  max_retry_delay = max_retry_delay;
}

-- The event as BSON keeps it.
abbrev pub bson_event : Event → Event
bson_event event = record event { timestamp = millis event.timestamp }

-- The upsert of PublishToDLQ: $setOnInsert makes the new document. Times are dates of BSON.
abbrev pub doc_published : DlqBackoffConfig → Event → String → ℕ → Option DlqEvent → DlqEvent
doc_published config event reason now none =
    record (first_failure config (bson_event event) reason (millis now)) {
      next_retry_at = millis (now + config.retry_delay);
    }
doc_published config event reason now (some d) = record d {
  failure_reason = reason;
  last_attempt_at = millis now;
  updated_at = millis now;
  attempt_history = d.attempt_history ++ (failed_attempt 0 (millis now) reason ∷ []);
}

-- SetSort by next_retry_at: a first document among the earliest. MongoDB may take any of them.
unfoldable pub earliest : List (String × DlqEvent) → Option (String × DlqEvent)
earliest [] = none
earliest (c ∷ cs) = elim (earliest cs) [
  | none ↦ some c
  | some d ↦ if ltb d.1.next_retry_at c.1.next_retry_at then some d else some c
]

abbrev pub claim_found :
    ℕ → Map DlqEvent → Option (String × DlqEvent) → Option DlqEvent × Map DlqEvent
claim_found now docs none = (none, docs)
claim_found now docs (some (id, e)) = (some (claimed now e), insert id (claimed now e) docs)

-- FindOneAndUpdate of a document that is due, with the document after the update.
unfoldable pub claim_one : ℕ → Map DlqEvent → Option DlqEvent × Map DlqEvent
claim_one now docs =
    claim_found (millis now) docs
      (earliest (select (λ (c : String × DlqEvent). is_due (millis now) c.1) docs))

abbrev pub claim_error : Error → Error
claim_error e = unavailable_error "grnoti/mongo: claim retryable events" e

-- The faults of the iterations; after them every operation is served.
abbrev pub first_fault : List Fault → Fault
first_fault [] = served
first_fault (fault ∷ faults) = fault

abbrev pub later_faults : List Fault → List Fault
later_faults [] = []
later_faults (fault ∷ faults) = faults

-- The body of the loop after its operation, with the iterations that follow.
abbrev pub claimed_next :
    Result Error (Option DlqEvent)
    → (Map DlqEvent → List DlqEvent × Option Error × Map DlqEvent)
    → Map DlqEvent
    → List DlqEvent × Option Error × Map DlqEvent
claimed_next (err e) continue docs = ([], some (claim_error e), docs)
claimed_next (ok none) continue docs = ([], none, docs)
claimed_next (ok (some d)) continue docs = let rest = continue docs in (d ∷ rest.0, rest.1, rest.2)

-- The loop of ClaimRetryableEvents, on the iterations left. The events claimed so far are returned
-- next to an error.
unfoldable pub claim_loop :
    List Fault → ℕ → ℕ → Map DlqEvent → List DlqEvent × Option Error × Map DlqEvent
claim_loop faults now zero docs = ([], none, docs)
claim_loop faults now (suc n) docs =
    let r = executed (first_fault faults) docs (claim_one now docs) in
    claimed_next r.0 (claim_loop (later_faults faults) now n) r.1

-- $inc of retry_count in a claimed document.
abbrev pub doc_incremented : ℕ → DlqEvent → DlqEvent
doc_incremented now d = record d {
  retry_count = suc d.retry_count;
  last_attempt_at = millis now;
  updated_at = millis now;
}

abbrev pub increment_doc :
    String → ℕ → Map DlqEvent → Option DlqEvent → Option DlqEvent × Map DlqEvent
increment_doc id now docs none = (none, docs)
increment_doc id now docs (some d) =
    if is_retrying d.status
    then (some (doc_incremented now d), insert id (doc_incremented now d) docs)
    else (none, docs)

-- The fields that the second update sets, from the incremented document.
abbrev pub set_outcome : (ℕ → ℕ) → DlqBackoffConfig → DlqEvent → Bool → ℕ → DlqEvent → DlqEvent
set_outcome int63n config doc success now d =
    if success
    then record d { updated_at = millis now; status = resolved }
    else if leb doc.max_retries doc.retry_count
    then record d { updated_at = millis now; status = exhausted }
    else record d {
      updated_at = millis now;
      status = pending;
      next_retry_at = millis (
          now
          + full_jitter_backoff int63n config.retry_delay config.max_retry_delay
              (pos doc.retry_count));
    }

abbrev pub doc_attempt : DlqEvent → Bool → Option Error → ℕ → DlqRetryAttempt
doc_attempt doc success attempt_err now = record {
  attempt_number = doc.retry_count;
  attempted_at = millis now;
  success = success;
  error_message = attempt_text attempt_err;
}

-- $set and $push on the document of the id, whatever its status is.
abbrev pub outcome_pushed :
    (ℕ → ℕ) → DlqBackoffConfig → DlqEvent → Bool → Option Error → ℕ → DlqEvent → DlqEvent
outcome_pushed int63n config doc success attempt_err now d =
    record (set_outcome int63n config doc success now d) {
      attempt_history = d.attempt_history ++ (doc_attempt doc success attempt_err now ∷ []);
    }

abbrev pub update_doc :
    String → (DlqEvent → DlqEvent) → Map DlqEvent → Option DlqEvent → Map DlqEvent
update_doc id change docs none = docs
update_doc id change docs (some d) = insert id (change d) docs

abbrev pub doc_found : String → Result Error (Option DlqEvent) → Result Error DlqEvent
doc_found id (err e) = err (unavailable_error (concat "grnoti/mongo: get event " id) e)
doc_found id (ok none) = err err_dlq_event_not_found
doc_found id (ok (some d)) = ok d

-- getErr == ErrDLQEventNotFound
abbrev pub doc_refusal : Result Error DlqEvent → Error
doc_refusal (err err_dlq_event_not_found) = err_dlq_event_not_found
doc_refusal _ = err_dlq_event_not_claimed

abbrev pub purged_count : Result Error ℕ → Result Error ℕ
purged_count (err e) = err (unavailable_error "grnoti/mongo: purge expired events" e)
purged_count (ok n) = ok n

module _ {Client : Type 0} where
  abbrev pub with_docs : MongoDlq Client → Map DlqEvent → MongoDlq Client
  with_docs h docs = record h { store = record h.store { collection = docs } }

  unfoldable pub publish_to_dlq :
      Fault → MongoDlq Client → Event → String → ℕ → Option Error × MongoDlq Client
  publish_to_dlq fault h event reason now =
      if h.store.closed
      then (some err_closed, h)
      else let docs = h.store.collection in
        let id = event.event_id in
        let new = doc_published h.config event reason now (lookup id docs) in
        let r = applied fault docs (insert id new docs) in
        (failed_as (concat "grnoti/mongo: publish to dlq " id) r.0, with_docs h r.1)

  -- The events, the error, and the handler after.
  unfoldable pub claim_retryable_events :
      List Fault → MongoDlq Client → ℕ → ℕ → List DlqEvent × Option Error × MongoDlq Client
  claim_retryable_events faults h limit now =
      if h.store.closed
      then ([], some err_closed, h)
      else let r = claim_loop faults now (if leb limit 0 then 10 else limit) h.store.collection in
        (r.0, r.1, with_docs h r.2)

  unfoldable pub get_event_by_id : Fault → MongoDlq Client → String → Result Error DlqEvent
  get_event_by_id fault h id =
      if h.store.closed
      then err err_closed
      else doc_found id (queried fault (lookup id h.store.collection))

  -- What follows the first update of MarkRetried.
  abbrev pub mark_after :
      Fault
      → Fault
      → (ℕ → ℕ)
      → MongoDlq Client
      → String
      → Bool
      → Option Error
      → ℕ
      → Result Error (Option DlqEvent)
      → Option Error × MongoDlq Client
  mark_after look finalize int63n h id success attempt_err now (err e) =
      (some (unavailable_error (concat "grnoti/mongo: mark retried " id) e), h)
  mark_after look finalize int63n h id success attempt_err now (ok none) =
      (some (doc_refusal (get_event_by_id look h id)), h)
  mark_after look finalize int63n h id success attempt_err now (ok (some doc)) =
      let docs = h.store.collection in
      let change = outcome_pushed int63n h.config doc success attempt_err now in
      let r = applied finalize docs (update_doc id change docs (lookup id docs)) in
      (
        failed_as (concat "grnoti/mongo: mark retried " (concat id " (finalize)")) r.0,
        with_docs h r.1,
      )

  -- MarkRetried without a call of another between its updates. The faults are those of the
  -- increment, of the look at a document that was not incremented, and of the finalization.
  unfoldable pub mark_retried :
      Fault
      → Fault
      → Fault
      → (ℕ → ℕ)
      → MongoDlq Client
      → String
      → Bool
      → Option Error
      → ℕ
      → Option Error × MongoDlq Client
  mark_retried fault look finalize int63n h id success attempt_err now =
      if h.store.closed
      then (some err_closed, h)
      else let docs = h.store.collection in
        let r = executed fault docs (increment_doc id now docs (lookup id docs)) in
        mark_after look finalize int63n (with_docs h r.1) id success attempt_err now r.0

  -- The filter of DeleteMany is the condition of memory.go: resolved, exhausted, or too old.
  unfoldable pub purge_expired_events :
      Fault → MongoDlq Client → ℕ → ℕ → Result Error ℕ × MongoDlq Client
  purge_expired_events fault h max_age now =
      if h.store.closed
      then (err err_closed, h)
      else let r =
          executed fault h.store.collection (purge (millis (now - max_age)) h.store.collection) in
        (purged_count r.0, with_docs h r.1)
