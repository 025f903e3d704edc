-- ===== src/Dlq/Exclusion.antt =====
-- Who may claim a record of the dead-letter queue of memory.go: the records that no claim returns,
-- whatever calls interleave.
use grnoti.Prelude.{
  ℕ, ◌≡◌, ◌≢◌, refl, sym, ap, ◌∙◌, Bool, true, false, ◌||◌, not, Option, none, some, List, [], ◌∷◌,
  ◌++◌, String, arith, eq_iff, ◌==◌, all, All, All-weaken, All-append, Bool-cases, inl, inr,
}
use grnoti.Prelude.Maps.{Map, lookup, insert}
use grnoti.Prelude.Keys.{lookup-entries}
use grnoti.Types.{Event, Error}
use grnoti.Dlq.{
  DlqStatus, retrying, DlqEvent, Handler, published, publish_to_dlq, is_due, is_pending,
  is_retrying, is_terminal, candidates, claimed, claim_each, claim_retryable_events, retried,
  mark_found, mark_retried, Op, publishes, claims, marks, purges, step, run,
}
use grnoti.Dlq.Invariant.{Inv, All-candidates, step-Inv, claim-Inv}
use grnoti.Dlq.Claims.{status_in, status_of, status_of-insert, Claimed, claim_contract}

-- The calls that leave a record with a status alone: all but a purge, and a mark of its own id
-- unless the record is resolved or exhausted, where MarkRetried refuses.
abbrev pub spares : String → DlqStatus → Op → Bool
spares id s (publishes event reason now) = true
spares id s (claims limit now) = true
spares id s (marks other success attempt_err now) = not (other == id) || is_terminal s
spares id s (purges max_age now) = false

-- What the claims of a run return, to all the callers.
unfoldable pub handed_out : (ℕ → ℕ) → Handler → List Op → List DlqEvent
handed_out int63n h [] = []
handed_out int63n h (publishes event reason now ∷ ops) =
    handed_out int63n (step int63n h (publishes event reason now)) ops
handed_out int63n h (claims limit now ∷ ops) =
    (claim_retryable_events h limit now).0
    ++ handed_out int63n (step int63n h (claims limit now)) ops
handed_out int63n h (marks other success attempt_err now ∷ ops) =
    handed_out int63n (step int63n h (marks other success attempt_err now)) ops
handed_out int63n h (purges max_age now ∷ ops) =
    handed_out int63n (step int63n h (purges max_age now)) ops

claim_each-spares :
    (now : ℕ) (id : String) (cs : List (String × DlqEvent)) (events : Map DlqEvent)
    → All (λ (c : String × DlqEvent). (c.0 == id) ≡ false) cs
    → status_of id (claim_each now cs events).1 ≡ status_of id events
unfolding claim_each
claim_each-spares now id [] events others = refl
claim_each-spares now id ((k, e) ∷ cs) events others =
    claim_each-spares now id cs (insert k (claimed now e) events) others.1
    ∙ (status_of-insert k id (claimed now e) events ∙ rw others.0 refl)

due_differs :
    (id : String) (s : DlqStatus) (now : ℕ) (events : Map DlqEvent) (c : String × DlqEvent)
    → is_pending s ≡ false
    → status_of id events ≡ some s
    → (lookup c.0 events ≡ some c.1) × (is_due now c.1 ≡ true)
    → (c.0 == id) ≡ false
due_differs id s now events (k, e) busy held p = ground (arith, eq_iff k id, p, held, busy)

published-status :
    (h : Handler) (event : Event) (reason : String) (now : ℕ) (found : Option DlqEvent)
    (s : DlqStatus)
    → status_in found ≡ some s
    → some (published h.config event reason now found).status ≡ some s
published-status h event reason now none s held = ground (arith, held)
published-status h event reason now (some e) s held = held

publish-spares :
    (h : Handler) (event : Event) (reason : String) (now : ℕ) (id : String) (s : DlqStatus)
    → status_of id h.events ≡ some s
    → status_of id (publish_to_dlq h event reason now).events ≡ some s
unfolding publish_to_dlq
publish-spares h event reason now id s held =
    let new = published h.config event reason now (lookup event.event_id h.events) in
    status_of-insert event.event_id id new h.events ∙ elim (Bool-cases (event.event_id == id)) [
      | inl e ↦ rw e (
          published-status h event reason now (lookup event.event_id h.events) s
            (ap (λ k. status_of k h.events) ((eq_iff event.event_id id).0 e) ∙ held))
      | inr e ↦ rw e held
    ]

mark_found-spares :
    (int63n : ℕ → ℕ) (h : Handler) (other : String) (success : Bool) (attempt_err : Option Error)
    (now : ℕ) (id : String) (s : DlqStatus) (found : Option DlqEvent)
    → lookup other h.events ≡ found
    → status_of id h.events ≡ some s
    → (not (other == id) || is_terminal s) ≡ true
    → status_of id (mark_found int63n h other success attempt_err now found).1.events ≡ some s
mark_found-spares int63n h other success attempt_err now id s none e held spared = held
mark_found-spares int63n h other success attempt_err now id s (some old) e held spared =
    elim (Bool-cases (is_retrying old.status)) [
      | inl r ↦
          let new = retried int63n h.config old success attempt_err now in
          rw r (
            ground
              (arith, held, spared, e, r, eq_iff other id, status_of-insert other id new h.events))
      | inr r ↦ rw r held
    ]

mark-spares :
    (int63n : ℕ → ℕ) (h : Handler) (other : String) (success : Bool) (attempt_err : Option Error)
    (now : ℕ) (id : String) (s : DlqStatus)
    → status_of id h.events ≡ some s
    → (not (other == id) || is_terminal s) ≡ true
    → status_of id (mark_retried int63n h other success attempt_err now).1.events ≡ some s
unfolding mark_retried
mark-spares int63n h other success attempt_err now id s held spared =
    mark_found-spares int63n h other success attempt_err now id s (lookup other h.events) refl held
      spared

claim-spares :
    (h : Handler) (limit now : ℕ) (id : String) (s : DlqStatus)
    → Inv h
    → is_pending s ≡ false
    → status_of id h.events ≡ some s
    → status_of id (claim_retryable_events h limit now).1.events ≡ some s
unfolding claim_retryable_events
claim-spares h limit now id s v busy held =
    let cs = candidates limit now h.events in
    let Found : String × DlqEvent → Type 0 = λ c. lookup c.0 h.events ≡ some c.1 in
    claim_each-spares now id cs h.events (
      All-weaken (λ c. Found c × (is_due now c.1 ≡ true)) (λ c. (c.0 == id) ≡ false) cs
        (λ c p. due_differs id s now h.events c busy held p)
        (All-candidates Found limit now h.events (lookup-entries h.events v.unique)))
    ∙ held

step-spares :
    (int63n : ℕ → ℕ) (h : Handler) (op : Op) (id : String) (s : DlqStatus)
    → Inv h
    → is_pending s ≡ false
    → status_of id h.events ≡ some s
    → spares id s op ≡ true
    → status_of id (step int63n h op).events ≡ some s
unfolding step
step-spares int63n h (publishes event reason now) id s v busy held spared =
    publish-spares h event reason now id s held
step-spares int63n h (claims limit now) id s v busy held spared =
    claim-spares h limit now id s v busy held
step-spares int63n h (marks other success attempt_err now) id s v busy held spared =
    mark-spares int63n h other success attempt_err now id s held spared
step-spares int63n h (purges max_age now) id s v busy held spared = ground (arith, spared)

Claimed-differs :
    (h : Handler) (now : ℕ) (id : String) (s : DlqStatus) (e : DlqEvent)
    → is_pending s ≡ false
    → status_of id h.events ≡ some s
    → Claimed h now e
    → e.event_id ≢ id
Claimed-differs h now id s e busy held c same =
    let found : lookup id h.events ≡ some c.old =
      ap (λ k. lookup k h.events) (sym same) ∙ c.found in
    ground (arith, held, busy, found, c.was_pending)

-- What is left of a run from one status to the next.
abbrev Undisturbed : (ℕ → ℕ) → Handler → List Op → String → DlqStatus → Type 0
Undisturbed int63n h ops id s =
    (status_of id (run int63n h ops).events ≡ some s)
    × All (λ (e : DlqEvent). e.event_id ≢ id) (handed_out int63n h ops)

handed_out-cons :
    (int63n : ℕ → ℕ) (h : Handler) (op : Op) (ops : List Op) (id : String) (s : DlqStatus)
    → Inv h
    → is_pending s ≡ false
    → status_of id h.events ≡ some s
    → All (λ (e : DlqEvent). e.event_id ≢ id) (handed_out int63n (step int63n h op) ops)
    → All (λ (e : DlqEvent). e.event_id ≢ id) (handed_out int63n h (op ∷ ops))
unfolding handed_out
handed_out-cons int63n h (claims limit now) ops id s v busy held rest =
    let claim = claim_retryable_events h limit now in
    All-append (λ e. e.event_id ≢ id) claim.0 _
      (All-weaken (Claimed h now) (λ e. e.event_id ≢ id) claim.0
        (λ e c. Claimed-differs h now id s e busy held c) (claim_contract h limit now v).1)
      rest
handed_out-cons int63n h (publishes event reason now) ops id s v busy held rest = rest
handed_out-cons int63n h (marks other success attempt_err now) ops id s v busy held rest = rest
handed_out-cons int63n h (purges max_age now) ops id s v busy held rest = rest

run-spares :
    (int63n : ℕ → ℕ) (h : Handler) (ops : List Op) (id : String) (s : DlqStatus)
    → Inv h
    → is_pending s ≡ false
    → status_of id h.events ≡ some s
    → all (spares id s) ops ≡ true
    → Undisturbed int63n h ops id s
unfolding run handed_out
run-spares int63n h [] id s v busy held spared = (held, tt)
run-spares int63n h (op ∷ ops) id s v busy held spared =
    let op_spares : spares id s op ≡ true = ground (arith, spared) in
    let ops_spare : all (spares id s) ops ≡ true = ground (arith, spared) in
    let rest =
      run-spares int63n (step int63n h op) ops id s (step-Inv int63n h op v) busy
        (step-spares int63n h op id s v busy held op_spares) ops_spare in
    (rest.0, handed_out-cons int63n h op ops id s v busy held rest.1)

-- A claimed record has one holder: until a call marks it or a purge runs, it stays claimed and no
-- claim returns it, whatever else is published, claimed and marked, by whom and at what times.
pub claim_excludes :
    (int63n : ℕ → ℕ) (h : Handler) (ops : List Op) (id : String)
    → Inv h
    → status_of id h.events ≡ some retrying
    → all (spares id retrying) ops ≡ true
    → (status_of id (run int63n h ops).events ≡ some retrying)
      × All (λ (e : DlqEvent). e.event_id ≢ id) (handed_out int63n h ops)
claim_excludes int63n h ops id v held spared =
    run-spares int63n h ops id retrying v refl held spared

-- Two claims with no call between them return records of different events, at any times.
claims_disjoint :
    (h : Handler) (limit now limit' now' : ℕ)
    → Inv h
    → let first = claim_retryable_events h limit now in
      All
        (λ (e : DlqEvent).
          All
            (λ (f : DlqEvent). f.event_id ≢ e.event_id)
            (claim_retryable_events first.1 limit' now').0)
        first.0
claims_disjoint h limit now limit' now' v =
    let first = claim_retryable_events h limit now in
    let second = claim_contract first.1 limit' now' (claim-Inv h limit now v) in
    All-weaken (λ e. status_of e.event_id first.1.events ≡ some retrying) _ first.0
      (λ e held.
        All-weaken (Claimed first.1 now') (λ f. f.event_id ≢ e.event_id)
          (claim_retryable_events first.1 limit' now').0
          (λ f c. Claimed-differs first.1 now' e.event_id retrying f refl held c) second.1)
      (claim_contract h limit now v).2

-- A resolved or exhausted record is final until a purge: its status stays, and no claim returns
-- it, even where a new failure of the same event is published.
pub terminal_stays :
    (int63n : ℕ → ℕ) (h : Handler) (ops : List Op) (id : String) (s : DlqStatus)
    → Inv h
    → is_terminal s ≡ true
    → status_of id h.events ≡ some s
    → all (spares id s) ops ≡ true
    → (status_of id (run int63n h ops).events ≡ some s)
      × All (λ (e : DlqEvent). e.event_id ≢ id) (handed_out int63n h ops)
terminal_stays int63n h ops id s v final held spared =
    run-spares int63n h ops id s v (ground (arith, final)) held spared
