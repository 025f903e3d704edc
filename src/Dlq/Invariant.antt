-- ===== src/Dlq/Invariant.antt =====
-- What holds of every record of the dead-letter queue of memory.go, after any interleaving.
use grnoti.Prelude.{
  ℕ, ◌-◌, ◌≡◌, ◌≤◌, ◌<◌, refl, Bool, true, ◌&&◌, Option, none, some, List, [], ◌∷◌, String, arith,
  ltb, length, length-append_one, take, select, if◌then◌else◌, All, All-take, All-select,
  Bool-cases, inl, inr, if_both,
}
use grnoti.Prelude.Maps.{Map, lookup, insert}
use grnoti.Prelude.Keys.{Unique, insert-Unique, All-insert, All-lookup}
use grnoti.Types.{Event, Error}
use grnoti.Dlq.{
  failed_attempt, retry_attempt, DlqStatus, pending, retrying, exhausted, resolved, DlqEvent,
  DlqBackoffConfig, Handler, new_memory_dlq_handler, published, publish_to_dlq, is_due,
  insert_candidate, sort_candidates, candidates, claimed, claim_each, claim_retryable_events,
  retried, mark_found, mark_retried, is_retrying, is_expired, purge, purge_expired_events, Op,
  publishes, claims, marks, purges, step, run,
}

-- What each status promises of the number of retries.
abbrev pub CountInv : DlqStatus → ℕ → ℕ → Type 0
CountInv pending count most = count < most
CountInv retrying count most = count < most
CountInv exhausted count most = count ≡ most
CountInv resolved count most = (1 ≤ count) × (count ≤ most)

pub record EntryInv (entry : String × DlqEvent) : Type 0 where
  pub keyed : entry.1.event_id ≡ entry.0
  pub counted : CountInv entry.1.status entry.1.retry_count entry.1.max_retries
  -- One attempt is recorded for the first failure, and one for each retry.
  pub recorded : entry.1.retry_count < length entry.1.attempt_history

pub record Inv (h : Handler) : Type 0 where
  pub retries : 1 ≤ h.config.max_retries
  pub unique : Unique h.events
  pub entries : All EntryInv h.events

pub new-Inv :
    (max_retries delay max_delay : ℕ) → Inv (new_memory_dlq_handler max_retries delay max_delay)
unfolding new_memory_dlq_handler
new-Inv max_retries delay max_delay = record { retries = ground arith; unique = tt; entries = tt }

first-EntryInv :
    (h : Handler) (event : Event) (reason : String) (now : ℕ)
    → 1 ≤ h.config.max_retries
    → EntryInv (event.event_id, published h.config event reason now none)
first-EntryInv h event reason now v = record {
  keyed = refl;
  counted = omega arith;
  recorded = omega arith;
}

again-EntryInv :
    (h : Handler) (event : Event) (reason : String) (now : ℕ) (id : String) (e : DlqEvent)
    → EntryInv (id, e)
    → EntryInv (id, published h.config event reason now (some e))
again-EntryInv h event reason now id e v = record {
  keyed = v.keyed;
  counted = v.counted;
  recorded = ground (
    arith,
    v.recorded,
    length-append_one e.attempt_history (failed_attempt e.retry_count now reason),
  );
}

claimed-EntryInv :
    (now : ℕ) (id : String) (e : DlqEvent)
    → EntryInv (id, e)
    → is_due now e ≡ true
    → EntryInv (id, claimed now e)
claimed-EntryInv now id e v due = record {
  keyed = v.keyed;
  counted = ground (arith, v.counted, due);
  recorded = v.recorded;
}

retried-EntryInv :
    (int63n : ℕ → ℕ) (config : DlqBackoffConfig) (id : String) (e : DlqEvent) (success : Bool)
    (attempt_err : Option Error) (now : ℕ)
    → EntryInv (id, e)
    → e.status ≡ retrying
    → EntryInv (id, retried int63n config e success attempt_err now)
retried-EntryInv int63n config id e success attempt_err now v held = record {
  keyed = ground (arith, v.keyed);
  counted = ground (arith, v.counted, held);
  recorded = ground (
    arith,
    v.recorded,
    length-append_one e.attempt_history (retry_attempt e success attempt_err now),
  );
}

module _ {κ} (P : String × DlqEvent → Type κ) where
  pub All-insert_candidate :
      (c : String × DlqEvent) (cs : List (String × DlqEvent))
      → P c
      → All P cs
      → All P (insert_candidate c cs)
  unfolding insert_candidate
  All-insert_candidate c [] p ps = (p, tt)
  All-insert_candidate c (d ∷ ds) p ps =
      if_both (All P) (ltb d.1.next_retry_at c.1.next_retry_at) _ _
        (ps.0, All-insert_candidate c ds p ps.1) (p, ps)

  pub All-sort_candidates : (cs : List (String × DlqEvent)) → All P cs → All P (sort_candidates cs)
  unfolding sort_candidates
  All-sort_candidates [] ps = tt
  All-sort_candidates (c ∷ cs) ps =
      All-insert_candidate c (sort_candidates cs) ps.0 (All-sort_candidates cs ps.1)

  pub All-limited :
      (limit : ℕ) (cs : List (String × DlqEvent))
      → All P cs
      → All P (if ltb 0 limit && ltb limit (length cs) then take limit cs else cs)
  All-limited limit cs ps =
      if_both (All P) (ltb 0 limit && ltb limit (length cs)) _ _ (All-take P limit cs ps) ps

-- What holds of every entry holds of every candidate, and each candidate is due.
pub All-candidates {κ} :
    (P : String × DlqEvent → Type κ) (limit now : ℕ) (events : Map DlqEvent)
    → All P events
    → All (λ c. P c × (is_due now c.1 ≡ true)) (candidates limit now events)
All-candidates P limit now events ps =
    let due : String × DlqEvent → Bool = λ c. is_due now c.1 in
    let Q = (λ (c : String × DlqEvent). P c × (due c ≡ true)) in
    All-limited Q limit (sort_candidates (select due events))
      (All-sort_candidates Q (select due events) (All-select P due events ps))

published-EntryInv :
    (h : Handler) (event : Event) (reason : String) (now : ℕ) (found : Option DlqEvent)
    → Inv h
    → lookup event.event_id h.events ≡ found
    → EntryInv (event.event_id, published h.config event reason now found)
published-EntryInv h event reason now none v e = first-EntryInv h event reason now v.retries
published-EntryInv h event reason now (some old) v e =
    again-EntryInv h event reason now event.event_id old
      (All-lookup EntryInv event.event_id old h.events v.entries e)

publish-Inv :
    (h : Handler) (event : Event) (reason : String) (now : ℕ)
    → Inv h
    → Inv (publish_to_dlq h event reason now)
unfolding publish_to_dlq
publish-Inv h event reason now v =
    let new = published h.config event reason now (lookup event.event_id h.events) in
    record {
      retries = v.retries;
      unique = insert-Unique event.event_id new h.events v.unique;
      entries =
          All-insert EntryInv event.event_id new h.events
            (published-EntryInv h event reason now (lookup event.event_id h.events) v refl)
            v.entries;
    }

claim_each-EntryInv :
    (now : ℕ) (cs : List (String × DlqEvent)) (events : Map DlqEvent)
    → All (λ c. EntryInv c × (is_due now c.1 ≡ true)) cs
    → Unique events
    → All EntryInv events
    → Unique (claim_each now cs events).1 × All EntryInv (claim_each now cs events).1
unfolding claim_each
claim_each-EntryInv now [] events ps u vs = (u, vs)
claim_each-EntryInv now ((id, e) ∷ cs) events ps u vs =
    claim_each-EntryInv now cs (insert id (claimed now e) events) ps.1
      (insert-Unique id (claimed now e) events u)
      (All-insert EntryInv id (claimed now e) events (claimed-EntryInv now id e ps.0.0 ps.0.1) vs)

pub claim-Inv : (h : Handler) (limit now : ℕ) → Inv h → Inv (claim_retryable_events h limit now).1
unfolding claim_retryable_events
claim-Inv h limit now v =
    let after =
      claim_each-EntryInv now (candidates limit now h.events) h.events
        (All-candidates EntryInv limit now h.events v.entries) v.unique v.entries in
    record { retries = v.retries; unique = after.0; entries = after.1 }

pub is_retrying→eq : (status : DlqStatus) → is_retrying status ≡ true → status ≡ retrying
is_retrying→eq status held = ground (arith, held)

mark_found-Inv :
    (int63n : ℕ → ℕ) (h : Handler) (id : String) (success : Bool) (attempt_err : Option Error)
    (now : ℕ) (found : Option DlqEvent)
    → Inv h
    → lookup id h.events ≡ found
    → Inv (mark_found int63n h id success attempt_err now found).1
mark_found-Inv int63n h id success attempt_err now none v e = v
mark_found-Inv int63n h id success attempt_err now (some old) v e =
    elim (Bool-cases (is_retrying old.status)) [
      | inl held ↦
          let new = retried int63n h.config old success attempt_err now in
          rw held (record {
            retries = v.retries;
            unique = insert-Unique id new h.events v.unique;
            entries =
                All-insert EntryInv id new h.events
                  (retried-EntryInv int63n h.config id old success attempt_err now
                    (All-lookup EntryInv id old h.events v.entries e)
                    (is_retrying→eq old.status held))
                  v.entries;
          })
      | inr free ↦ rw free v
    ]

pub expired-lookup :
    (cutoff : ℕ) (key : String) (events : Map DlqEvent)
    → lookup key events ≡ none
    → lookup key (purge cutoff events).1 ≡ none
unfolding purge lookup
expired-lookup cutoff key [] absent = refl
expired-lookup cutoff key ((id, e) ∷ rest) absent =
    ground (arith, absent, expired-lookup cutoff key rest)

purge-EntryInv :
    (cutoff : ℕ) (events : Map DlqEvent)
    → Unique events
    → All EntryInv events
    → Unique (purge cutoff events).1 × All EntryInv (purge cutoff events).1
unfolding purge
purge-EntryInv cutoff [] u vs = (tt, tt)
purge-EntryInv cutoff ((id, e) ∷ rest) u vs =
    let left = purge-EntryInv cutoff rest u.1 vs.1 in
    elim (Bool-cases (is_expired cutoff e)) [
      | inl old ↦ rw old left
      | inr kept ↦ rw kept ((expired-lookup cutoff id rest u.0, left.0), (vs.0, left.1))
    ]

pub step-Inv : (int63n : ℕ → ℕ) (h : Handler) (op : Op) → Inv h → Inv (step int63n h op)
unfolding step mark_retried purge_expired_events
step-Inv int63n h (publishes event reason now) v = publish-Inv h event reason now v
step-Inv int63n h (claims limit now) v = claim-Inv h limit now v
step-Inv int63n h (marks id success attempt_err now) v =
    mark_found-Inv int63n h id success attempt_err now (lookup id h.events) v refl
step-Inv int63n h (purges max_age now) v =
    let left = purge-EntryInv (now - max_age) h.events v.unique v.entries in
    record { retries = v.retries; unique = left.0; entries = left.1 }

pub run-Inv : (int63n : ℕ → ℕ) (h : Handler) (ops : List Op) → Inv h → Inv (run int63n h ops)
unfolding run
run-Inv int63n h [] v = v
run-Inv int63n h (op ∷ ops) v = run-Inv int63n (step int63n h op) ops (step-Inv int63n h op v)

-- A new handler keeps its invariant through any calls at any times: its records stand under their
-- event ids, once each; a pending or claimed record has retries left, an exhausted one has used
-- all of them, a resolved one at least one; and the history holds more attempts than retries.
pub handler_run-Inv :
    (int63n : ℕ → ℕ) (max_retries delay max_delay : ℕ) (ops : List Op)
    → Inv (run int63n (new_memory_dlq_handler max_retries delay max_delay) ops)
handler_run-Inv int63n max_retries delay max_delay ops =
    run-Inv int63n (new_memory_dlq_handler max_retries delay max_delay) ops
      (new-Inv max_retries delay max_delay)
