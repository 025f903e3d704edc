-- ===== src/Dlq/Mongo/Tests.antt =====
-- The claims over MongoDB at a collection of two due documents.
use grnoti.Prelude.{ℕ, ◌≡◌, refl, false, none, some, [], ◌∷◌, take, length, arith}
use mathlib.Core.List.{Permᴰ}
use grnoti.Database.{whole, millis}
use grnoti.Prelude.Maps.{Map, lookup}
use grnoti.Prelude.Keys.{Unique}
use grnoti.Types.{err_backend_unavailable}
use grnoti.Dlq.{
  DlqBackoffConfig, DlqEvent, first_failure, insert_candidate, sort_candidates, claim_each,
  claim_retryable_events as claim_in_memory,
}
use grnoti.Dlq.Tests.{event_of}
use grnoti.Dlq.Mongo.{MongoDlq, claim_error, claim_retryable_events, with_docs}
use grnoti.Dlq.Mongo.Loop.{due, refused_after}
use grnoti.Dlq.Mongo.Claims.{mongo_claims, interrupted_claim}

abbrev config : DlqBackoffConfig
config = record { max_retries = 3; retry_delay = 10000000; max_retry_delay = 100000000 }

abbrev handler : MongoDlq ℕ
handler = record {
  config = config;
  store = record {
    client = 0;
    closed = false;
    collection =
        ("a", first_failure config (event_of "a") "down" 5000000)
        ∷ ("b", first_failure config (event_of "b") "down" 3000000)
        ∷ [];
  };
}

handler-Unique : Unique handler.store.collection
unfolding lookup
handler-Unique = (refl, (refl, tt))

-- The reading of the clock, 20 ms and a bit.
abbrev reading : ℕ
reading = 20000123

at_20 : millis reading ≡ 20000000
unfolding whole
at_20 = refl

two_due : length (sort_candidates (due (millis reading) handler.store.collection)) ≡ 2
unfolding sort_candidates insert_candidate whole
two_due = refl

-- The same records in memory, in the other order.
abbrev in_memory : Map DlqEvent
in_memory =
    ("b", first_failure config (event_of "b") "down" 3000000)
    ∷ ("a", first_failure config (event_of "a") "down" 5000000)
    ∷ []

mongo_claims_example :
    let claim = claim_retryable_events [] handler 1 reading in
    let expected =
      claim_in_memory (record { config = config; events = in_memory }) 1 (millis reading) in
    (claim.0 ≡ expected.0)
    × (claim.1 ≡ none)
    × (lookup "b" claim.2.store.collection ≡ lookup "b" expected.1.events)
unfolding whole
mongo_claims_example =
    mongo_claims handler refl 1 reading config in_memory "b" handler-Unique (Permᴰ.swap refl refl)
      ((omega arith, tt), (tt, tt))

interrupted_claim_example :
    let sorted = sort_candidates (due (millis reading) handler.store.collection) in
    let first = claim_each (millis reading) (take 1 sorted) handler.store.collection in
    claim_retryable_events (refused_after 1 err_backend_unavailable) handler 0 reading
    ≡ (first.0, some (claim_error err_backend_unavailable), with_docs handler first.1)
interrupted_claim_example =
    interrupted_claim handler refl 1 0 reading err_backend_unavailable handler-Unique (omega arith)
      (omega (arith, two_due))
