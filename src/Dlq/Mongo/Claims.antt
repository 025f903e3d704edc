-- ===== src/Dlq/Mongo/Claims.antt =====
-- ClaimRetryableEvents of dlq.mongo.go, one document at a time, against the claim of memory.go.
use grnoti.Prelude.{
  ◌&&◌, ℕ, ◌≡◌, refl, ap, false, none, some, List, [], ◌∷◌, String, arith, ltb, leb, if◌then◌else◌,
  take, length, ◌<◌, ◌≤◌,
}
use mathlib.Core.List.{Permᴰ}
use grnoti.Prelude.Orders.{permuted-select}
use grnoti.Prelude.Sorting.{Untied, sort-permuted}
use grnoti.Prelude.Maps.{lookup-insert, Map, lookup, insert}
use grnoti.Prelude.Keys.{lookup-permuted, Unique}
use grnoti.Types.{Error}
use grnoti.Database.{millis}
use grnoti.Dlq.{
  candidates, DlqBackoffConfig, DlqEvent, Handler, is_due, claimed, insert_candidate,
  sort_candidates, claim_each, claim_retryable_events as claim_in_memory,
}
use grnoti.Dlq.Limit.{limited}
use grnoti.Dlq.Mongo.{MongoDlq, claim_error, claim_retryable_events, with_docs}
use grnoti.Dlq.Mongo.Order.{Entry}
use grnoti.Dlq.Mongo.Loop.{due, refused_after, loop_claims, loop_interrupted}

-- The claims depend on the values of the map alone.
claim_each-same :
    (now : ℕ) (cs : List Entry) (docs events : Map DlqEvent)
    → ((id : String) → lookup id docs ≡ lookup id events)
    → ((claim_each now cs docs).0 ≡ (claim_each now cs events).0)
      × ((id : String)
          → lookup id (claim_each now cs docs).1 ≡ lookup id (claim_each now cs events).1)
unfolding claim_each
claim_each-same now [] docs events same = (refl, same)
claim_each-same now ((key, e) ∷ cs) docs events same =
    let rest =
      claim_each-same now cs (insert key (claimed now e) docs) (insert key (claimed now e) events)
        (λ id.
          rw
            (lookup-insert key id (claimed now e) docs, lookup-insert key id (claimed now e) events)
            (rw (same id) refl)) in
    (ap (λ es. claimed now e ∷ es) rest.0, rest.1)

-- The time that the claims are sorted by.
abbrev pub retry_time : Entry → ℕ
retry_time c = c.1.next_retry_at

candidates-permuted :
    (limit now : ℕ) {docs events : Map DlqEvent}
    → Permᴰ docs events
    → Untied retry_time (due now docs)
    → candidates limit now docs ≡ candidates limit now events
unfolding insert_candidate sort_candidates
candidates-permuted limit now {docs} {events} p u =
    ap (λ cs. if ltb 0 limit && ltb limit (length cs) then take limit cs else cs)
      (sort-permuted retry_time insert_candidate sort_candidates (λ c. refl) (λ c d ds. refl)
        (λ c cs. refl) (permuted-select (λ (c : Entry). is_due now c.1) p) u).0

module _ {Client : Type 0} (h : MongoDlq Client) (live : h.store.closed ≡ false) where
  claims_sorted :
      (limit now : ℕ)
      → Unique h.store.collection
      → let batch = if leb limit 0 then 10 else limit in
        let sorted = candidates batch (millis now) h.store.collection in
        let claim = claim_each (millis now) sorted h.store.collection in
        claim_retryable_events [] h limit now ≡ (claim.0, none, with_docs h claim.1)
  unfolding claim_retryable_events
  claims_sorted limit now u =
      let batch = if leb limit 0 then 10 else limit in
      let docs = h.store.collection in
      let sorted = sort_candidates (due (millis now) docs) in
      let loop = loop_claims batch now docs sorted u refl in
      let cut = limited batch sorted (ground arith) in simp (live, cut, loop) refl

  -- While the database serves every operation, ClaimRetryableEvents of an open handler over MongoDB,
  -- which claims one document at a time, gives the same events in the same order and leaves the same
  -- record under every id as the claim of a queue in memory, which sorts and cuts the candidates at
  -- once: a queue with the records of the collection, dates in whole milliseconds as they are there,
  -- in any order, at the reading of the clock in whole milliseconds. A limit at most 0 stands for
  -- 10, the event ids of the collection are distinct, and no two due documents have the same time
  -- of the next retry, which either side would order as it likes.
  pub mongo_claims :
      (limit now : ℕ) (config : DlqBackoffConfig) (events : Map DlqEvent) (id : String)
      → Unique h.store.collection
      → Permᴰ h.store.collection events
      → Untied retry_time (due (millis now) h.store.collection)
      → let memory : Handler = record { config = config; events = events } in
        let batch = if leb limit 0 then 10 else limit in
        let claim = claim_retryable_events [] h limit now in
        let expected = claim_in_memory memory batch (millis now) in
        (claim.0 ≡ expected.0)
        × (claim.1 ≡ none)
        × (lookup id claim.2.store.collection ≡ lookup id expected.1.events)
  unfolding claim_in_memory
  mongo_claims limit now config events id u p untied =
      let batch = if leb limit 0 then 10 else limit in
      let same =
        claim_each-same (millis now) (candidates batch (millis now) events) h.store.collection
          events (lookup-permuted p u).0 in
      rw (claims_sorted limit now u, candidates-permuted batch (millis now) p untied)
        (same.0, refl, same.1 id)

  -- When the database refuses an operation of ClaimRetryableEvents of an open handler after k
  -- documents are claimed, with k below the limit and at most the number of due documents, the call
  -- gives an error and these k events next to it: they are the k earliest of the due documents, in
  -- order, and no other document has changed. The event ids of the collection are distinct.
  pub interrupted_claim :
      (k limit now : ℕ) (why : Error)
      → Unique h.store.collection
      → k < (if leb limit 0 then 10 else limit)
      → k ≤ length (sort_candidates (due (millis now) h.store.collection))
      → let sorted = sort_candidates (due (millis now) h.store.collection) in
        let first = claim_each (millis now) (take k sorted) h.store.collection in
        claim_retryable_events (refused_after k why) h limit now
        ≡ (first.0, some (claim_error why), with_docs h first.1)
  unfolding claim_retryable_events
  interrupted_claim k limit now why u less few =
      let docs = h.store.collection in
      simp
        (
          live,
          loop_interrupted k (if leb limit 0 then 10 else limit) now docs
              (sort_candidates (due (millis now) docs)) why u refl less few,
        )
        refl
