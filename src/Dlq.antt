-- ===== src/Dlq.antt =====
-- memory.go: memoryDLQHandler, the in-memory dead-letter queue. Each method runs under the
-- handler's lock, so it is one function on the state; `now` is the clock's reading there. A limit
-- or a duration at most 0 is 0. The records are pointers, and a change of one is a change of the
-- map's entry under its key. `int63n` is rand.Int63n.
pub mod Invariant
pub mod Claims
pub mod Exclusion
pub mod Purge
pub mod Budget
mod Limit
pub mod Postgres
pub mod Mongo
pub mod Tests
use grnoti.Prelude.{
  ℕ, suc, ◌+◌, ◌-◌, Bool, true, false, ◌&&◌, ◌||◌, not, Option, none, some, List, [], ◌∷◌, ◌++◌,
  String, ltb, leb, if◌then◌else◌, length, take, select, Result, ok, err,
}
use grnoti.Prelude.Int.{pos}
use grnoti.Prelude.Maps.{Map, lookup, insert}
use grnoti.Types.{Event, Error, error_text, err_dlq_event_not_found, err_dlq_event_not_claimed}
use grnoti.Backoff.{full_jitter_backoff}

pub data DlqStatus : Type 0 where
  pending retrying exhausted resolved : DlqStatus

pub record DlqRetryAttempt : Type 0 where
  pub attempt_number : ℕ
  pub attempted_at : ℕ
  pub success : Bool
  pub error_message : String

pub record DlqEvent : Type 0 where
  pub event_id : String
  pub event : Event
  pub failure_reason : String
  pub retry_count : ℕ
  pub max_retries : ℕ
  pub first_failure_at : ℕ
  pub last_attempt_at : ℕ
  pub next_retry_at : ℕ
  pub status : DlqStatus
  pub attempt_history : List DlqRetryAttempt
  pub created_at : ℕ
  pub updated_at : ℕ

pub record DlqBackoffConfig : Type 0 where
  pub max_retries : ℕ
  pub retry_delay : ℕ
  pub max_retry_delay : ℕ

-- memoryDLQHandler
pub record Handler : Type 0 where
  pub config : DlqBackoffConfig
  pub events : Map DlqEvent

unfoldable pub new_memory_dlq_handler : ℕ → ℕ → ℕ → Handler
new_memory_dlq_handler max_retries retry_delay max_retry_delay = record {
  config = record {
    max_retries = if leb max_retries 0 then 3 else max_retries;
    retry_delay = retry_delay;
    max_retry_delay = max_retry_delay;
  };
  events = [];
}

abbrev pub failed_attempt : ℕ → ℕ → String → DlqRetryAttempt
failed_attempt number now reason = record {
  attempt_number = number;
  attempted_at = now;
  success = false;
  error_message = reason;
}

abbrev pub first_failure : DlqBackoffConfig → Event → String → ℕ → DlqEvent
first_failure config event reason now = record {
  event_id = event.event_id;
  event = event;
  failure_reason = reason;
  retry_count = 0;
  max_retries = config.max_retries;
  first_failure_at = now;
  last_attempt_at = now;
  next_retry_at = now + config.retry_delay;
  status = pending;
  attempt_history = failed_attempt 0 now reason ∷ [];
  created_at = now;
  updated_at = now;
}

abbrev pub failed_again : DlqEvent → String → ℕ → DlqEvent
failed_again e reason now = record e {
  failure_reason = reason;
  last_attempt_at = now;
  updated_at = now;
  attempt_history = e.attempt_history ++ (failed_attempt e.retry_count now reason ∷ []);
}

-- The record that PublishToDLQ leaves, from the one there was.
abbrev pub published : DlqBackoffConfig → Event → String → ℕ → Option DlqEvent → DlqEvent
published config event reason now none = first_failure config event reason now
published config event reason now (some e) = failed_again e reason now

unfoldable pub publish_to_dlq : Handler → Event → String → ℕ → Handler
publish_to_dlq h event reason now = record h {
  events =
      insert event.event_id (published h.config event reason now (lookup event.event_id h.events))
        h.events;
}

abbrev pub is_pending : DlqStatus → Bool
is_pending pending = true
is_pending _ = false

abbrev pub is_retrying : DlqStatus → Bool
is_retrying retrying = true
is_retrying _ = false

-- A claimable record: pending, and NextRetryAt is not after now.
abbrev pub is_due : ℕ → DlqEvent → Bool
is_due now e = is_pending e.status && leb e.next_retry_at now

-- sort.Slice by NextRetryAt. It may order equal times in any way; here they keep their order.
unfoldable pub insert_candidate :
    String × DlqEvent → List (String × DlqEvent) → List (String × DlqEvent)
insert_candidate c [] = c ∷ []
insert_candidate c (d ∷ ds) =
    if ltb d.1.next_retry_at c.1.next_retry_at then d ∷ insert_candidate c ds else c ∷ d ∷ ds

unfoldable pub sort_candidates : List (String × DlqEvent) → List (String × DlqEvent)
sort_candidates [] = []
sort_candidates (c ∷ cs) = insert_candidate c (sort_candidates cs)

abbrev pub candidates : ℕ → ℕ → Map DlqEvent → List (String × DlqEvent)
candidates limit now events =
    let sorted = sort_candidates (select (λ (c : String × DlqEvent). is_due now c.1) events) in
    if ltb 0 limit && ltb limit (length sorted) then take limit sorted else sorted

abbrev pub claimed : ℕ → DlqEvent → DlqEvent
claimed now e = record e { status = retrying; updated_at = now }

-- The loop over the candidates: the copies that are returned, and the map with their changes.
unfoldable pub claim_each :
    ℕ → List (String × DlqEvent) → Map DlqEvent → List DlqEvent × Map DlqEvent
claim_each now [] events = ([], events)
claim_each now ((id, e) ∷ cs) events =
    let rest = claim_each now cs (insert id (claimed now e) events) in
    (claimed now e ∷ rest.0, rest.1)

unfoldable pub claim_retryable_events : Handler → ℕ → ℕ → List DlqEvent × Handler
claim_retryable_events h limit now =
    let claim = claim_each now (candidates limit now h.events) h.events in
    (claim.0, record h { events = claim.1 })

abbrev pub retry_outcome : (ℕ → ℕ) → DlqBackoffConfig → DlqEvent → Bool → ℕ → ℕ → DlqEvent
retry_outcome int63n config e success count now =
    if success
    then record e { status = resolved }
    else if leb e.max_retries count
    then record e { status = exhausted }
    else record e {
      status = pending;
      next_retry_at =
          now + full_jitter_backoff int63n config.retry_delay config.max_retry_delay (pos count);
    }

abbrev pub attempt_text : Option Error → String
attempt_text none = ""
attempt_text (some e) = error_text e

abbrev pub retry_attempt : DlqEvent → Bool → Option Error → ℕ → DlqRetryAttempt
retry_attempt e success attempt_err now = record {
  attempt_number = suc e.retry_count;
  attempted_at = now;
  success = success;
  error_message = attempt_text attempt_err;
}

abbrev pub retried : (ℕ → ℕ) → DlqBackoffConfig → DlqEvent → Bool → Option Error → ℕ → DlqEvent
retried int63n config e success attempt_err now =
    record (retry_outcome int63n config e success (suc e.retry_count) now) {
      retry_count = suc e.retry_count;
      last_attempt_at = now;
      updated_at = now;
      attempt_history = e.attempt_history ++ (retry_attempt e success attempt_err now ∷ []);
    }

abbrev pub mark_found :
    (ℕ → ℕ) → Handler → String → Bool → Option Error → ℕ → Option DlqEvent → Option Error × Handler
mark_found int63n h id success attempt_err now none = (some err_dlq_event_not_found, h)
mark_found int63n h id success attempt_err now (some e) =
    if is_retrying e.status
    then (
      none,
      record h { events = insert id (retried int63n h.config e success attempt_err now) h.events },
    )
    else (some err_dlq_event_not_claimed, h)

unfoldable pub mark_retried :
    (ℕ → ℕ) → Handler → String → Bool → Option Error → ℕ → Option Error × Handler
mark_retried int63n h id success attempt_err now =
    mark_found int63n h id success attempt_err now (lookup id h.events)

unfoldable pub get_event_by_id : Handler → String → Result Error DlqEvent
get_event_by_id h id = elim (lookup id h.events) [
  | none ↦ err err_dlq_event_not_found
  | some e ↦ ok e
]

abbrev pub is_terminal : DlqStatus → Bool
is_terminal resolved = true
is_terminal exhausted = true
is_terminal _ = false

abbrev pub is_expired : ℕ → DlqEvent → Bool
is_expired cutoff e = is_terminal e.status || ltb e.created_at cutoff

-- The count of deleted records, and the map that is left.
unfoldable pub purge : ℕ → Map DlqEvent → ℕ × Map DlqEvent
purge cutoff [] = (0, [])
purge cutoff ((id, e) ∷ rest) =
    let left = purge cutoff rest in
    if is_expired cutoff e then (suc left.0, left.1) else (left.0, (id, e) ∷ left.1)

unfoldable pub purge_expired_events : Handler → ℕ → ℕ → ℕ × Handler
purge_expired_events h max_age now =
    let purged = purge (now - max_age) h.events in (purged.0, record h { events = purged.1 })

-- A call of the handler by any of its users, at a time.
pub data Op : Type 0 where
  publishes : Event → String → ℕ → Op
  claims : ℕ → ℕ → Op
  marks : String → Bool → Option Error → ℕ → Op
  purges : ℕ → ℕ → Op

unfoldable pub step : (ℕ → ℕ) → Handler → Op → Handler
step int63n h (publishes event reason now) = publish_to_dlq h event reason now
step int63n h (claims limit now) = (claim_retryable_events h limit now).1
step int63n h (marks id success attempt_err now) =
    (mark_retried int63n h id success attempt_err now).1
step int63n h (purges max_age now) = (purge_expired_events h max_age now).1

unfoldable pub run : (ℕ → ℕ) → Handler → List Op → Handler
run int63n h [] = h
run int63n h (op ∷ ops) = run int63n (step int63n h op) ops
