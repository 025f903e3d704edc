-- ===== src/Dlq/Tests.antt =====
-- Runs of the dead-letter queue, and its theorems at concrete handlers.
use grnoti.Prelude.{
  ℕ, ◌+◌, ◌≡◌, ◌≢◌, refl, true, false, none, some, List, [], ◌∷◌, String, length, map, All,
}
use grnoti.Prelude.Maps.{lookup, insert}
use grnoti.Types.{Event, err_closed}
use grnoti.Dlq.{
  retrying, resolved, DlqEvent, Handler, new_memory_dlq_handler, publish_to_dlq, insert_candidate,
  sort_candidates, claim_each, claim_retryable_events, mark_retried, Op, publishes, claims, marks,
  step, run,
}
use grnoti.Dlq.Invariant.{Inv, run-Inv, new-Inv, handler_run-Inv}
use grnoti.Dlq.Claims.{status_of, Claimed, due_count, quota, claim_contract}
use grnoti.Dlq.Exclusion.{handed_out, claim_excludes, terminal_stays}
use grnoti.Dlq.Budget.{budget_of, retries_of, retries_bounded}

abbrev pub event_of : String → Event
event_of id = record {
  event_id = id;
  user_id = "u";
  anonymous_id = "";
  fids = [];
  type = "order_shipped";
  payload = [];
  priority = "high";
  timestamp = 0;
  experiment_id = "";
}

-- A source that always draws zero.
abbrev pub zero_delay : ℕ → ℕ
zero_delay n = 0

abbrev failures : List Op
failures = publishes (event_of "a") "down" 5 ∷ publishes (event_of "b") "down" 3 ∷ []

abbrev fresh : Handler
fresh = new_memory_dlq_handler 2 10 100

abbrev filled : Handler
filled = run zero_delay fresh failures

filled-Inv : Inv filled
filled-Inv = run-Inv zero_delay fresh failures (new-Inv 2 10 100)

-- The earlier of two due records is claimed first.
claimed_first : map (λ (e : DlqEvent). e.event_id) (claim_retryable_events filled 1 20).0 ≡ "b" ∷ []
unfolding run step new_memory_dlq_handler publish_to_dlq claim_retryable_events lookup insert
    sort_candidates insert_candidate claim_each
claimed_first = refl

abbrev holding : Handler
holding = run zero_delay filled (claims 1 20 ∷ [])

holding-Inv : Inv holding
holding-Inv = run-Inv zero_delay filled (claims 1 20 ∷ []) filled-Inv

abbrev others : List Op
others =
    claims 0 30
    ∷ marks "a" false (some err_closed) 40
    ∷ publishes (event_of "b") "again" 50
    ∷ claims 0 60
    ∷ []

abbrev ended : Handler
ended = run zero_delay holding (marks "b" true none 30 ∷ [])

handler_run-Inv_example : Inv (run zero_delay fresh (claims 5 9 ∷ failures))
handler_run-Inv_example = handler_run-Inv zero_delay 2 10 100 (claims 5 9 ∷ failures)

claim_contract_example :
    (length (claim_retryable_events filled 1 20).0 ≡ quota 1 (due_count filled 20))
    × All (Claimed filled 20) (claim_retryable_events filled 1 20).0
    × All
        (λ (e : DlqEvent).
          status_of e.event_id (claim_retryable_events filled 1 20).1.events ≡ some retrying)
        (claim_retryable_events filled 1 20).0
claim_contract_example = claim_contract filled 1 20 filled-Inv

claim_excludes_example :
    (status_of "b" (run zero_delay holding others).events ≡ some retrying)
    × All (λ (e : DlqEvent). e.event_id ≢ "b") (handed_out zero_delay holding others)
unfolding run step new_memory_dlq_handler publish_to_dlq claim_retryable_events lookup insert
    sort_candidates insert_candidate claim_each
claim_excludes_example = claim_excludes zero_delay holding others "b" holding-Inv refl refl

terminal_stays_example :
    (status_of "b" (run zero_delay ended others).events ≡ some resolved)
    × All (λ (e : DlqEvent). e.event_id ≢ "b") (handed_out zero_delay ended others)
unfolding run step new_memory_dlq_handler publish_to_dlq claim_retryable_events mark_retried lookup
    insert sort_candidates insert_candidate claim_each
terminal_stays_example =
    terminal_stays zero_delay ended others "b" resolved
      (run-Inv zero_delay holding (marks "b" true none 30 ∷ []) holding-Inv) refl refl refl

retries_bounded_example :
    retries_of zero_delay "a" holding others
      + budget_of holding.config.max_retries "a" (run zero_delay holding others).events
    ≡ budget_of holding.config.max_retries "a" holding.events
retries_bounded_example = retries_bounded zero_delay "a" holding others holding-Inv refl
