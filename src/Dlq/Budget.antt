-- ===== src/Dlq/Budget.antt =====
-- How often a record of the dead-letter queue of memory.go is retried.
use mathlib.Core.Path.{subst}
use grnoti.Prelude.{
  ℕ, suc, ◌+◌, ◌-◌, ◌≡◌, refl, ap, ◌∙◌, Bool, true, false, ◌&&◌, not, Option, none, some, List, [],
  ◌∷◌, String, arith, eq_iff, ◌==◌, if◌then◌else◌, is_some, all, All, All-weaken, Bool-cases, inl,
  inr,
}
use grnoti.Prelude.Maps.{Map, lookup, insert, lookup-insert}
use grnoti.Prelude.Keys.{lookup-entries, All-lookup}
use grnoti.Types.{Event, Error}
use grnoti.Dlq.{
  DlqEvent, Handler, DlqBackoffConfig, published, publish_to_dlq, is_due, is_retrying, candidates,
  claimed, claim_each, claim_retryable_events, retried, mark_found, mark_retried, Op, publishes,
  claims, marks, purges, step, run,
}
use grnoti.Dlq.Invariant.{EntryInv, Inv, All-candidates, step-Inv}

-- The retries that a record has left; an event with no record has them all.
abbrev budget_in : ℕ → Option DlqEvent → ℕ
budget_in most none = most
budget_in most (some e) = e.max_retries - e.retry_count

abbrev pub budget_of : ℕ → String → Map DlqEvent → ℕ
budget_of most id events = budget_in most (lookup id events)

budget_of-insert :
    (most : ℕ) (id other : String) (e : DlqEvent) (events : Map DlqEvent)
    → budget_of most other (insert id e events)
      ≡ (if id == other then e.max_retries - e.retry_count else budget_of most other events)
budget_of-insert most id other e events = rw (lookup-insert id other e events) (ground arith)

-- Whether a call is a mark of the event that MarkRetried accepts.
abbrev pub accepts : (ℕ → ℕ) → String → Handler → Op → Bool
accepts int63n id h (marks other success attempt_err now) =
    other == id && not (is_some (mark_retried int63n h other success attempt_err now).0)
accepts int63n id h _ = false

-- How many retries of the event a run records.
unfoldable pub retries_of : (ℕ → ℕ) → String → Handler → List Op → ℕ
retries_of int63n id h [] = 0
retries_of int63n id h (op ∷ ops) =
    let later = retries_of int63n id (step int63n h op) ops in
    if accepts int63n id h op then suc later else later

abbrev pub is_purge : Op → Bool
is_purge (purges max_age now) = true
is_purge _ = false

published-budget :
    (h : Handler) (event : Event) (reason : String) (now : ℕ) (found : Option DlqEvent)
    → (published h.config event reason now found).max_retries
        - (published h.config event reason now found).retry_count
      ≡ budget_in h.config.max_retries found
published-budget h event reason now none = omega arith
published-budget h event reason now (some e) = refl

publish-budget :
    (h : Handler) (event : Event) (reason : String) (now : ℕ) (id : String)
    → budget_of h.config.max_retries id (publish_to_dlq h event reason now).events
      ≡ budget_of h.config.max_retries id h.events
unfolding publish_to_dlq
publish-budget h event reason now id =
    let found = lookup event.event_id h.events in
    let new = published h.config event reason now found in
    budget_of-insert h.config.max_retries event.event_id id new h.events
    ∙ elim (Bool-cases (event.event_id == id)) [
      | inl e ↦ rw e (
          published-budget h event reason now found
          ∙ ap (λ k. budget_of h.config.max_retries k h.events) ((eq_iff event.event_id id).0 e))
      | inr e ↦ rw e refl
    ]

claim_each-budget :
    (most now : ℕ) (id : String) (cs : List (String × DlqEvent)) (events : Map DlqEvent)
    → All
        (λ (c : String × DlqEvent). budget_of most c.0 events ≡ c.1.max_retries - c.1.retry_count)
        cs
    → budget_of most id (claim_each now cs events).1 ≡ budget_of most id events
unfolding claim_each
claim_each-budget most now id [] events same = refl
claim_each-budget most now id ((k, e) ∷ cs) events same =
    let at = λ (j : String). budget_of-insert most k j (claimed now e) events in
    let keeps : (j : String)
        → budget_of most j (insert k (claimed now e) events) ≡ budget_of most j events =
      λ j. ground (arith, same.0, at j, eq_iff k j) in
    claim_each-budget most now id cs (insert k (claimed now e) events)
      (All-weaken _ _ cs (λ c p. keeps c.0 ∙ p) same.1)
    ∙ keeps id

claim-budget :
    (h : Handler) (limit now : ℕ) (id : String)
    → Inv h
    → budget_of h.config.max_retries id (claim_retryable_events h limit now).1.events
      ≡ budget_of h.config.max_retries id h.events
unfolding claim_retryable_events
claim-budget h limit now id v =
    let most = h.config.max_retries in
    let Found : String × DlqEvent → Type 0 = λ c. lookup c.0 h.events ≡ some c.1 in
    claim_each-budget most now id (candidates limit now h.events) h.events (
      All-weaken (λ c. Found c × (is_due now c.1 ≡ true)) _ (candidates limit now h.events)
        (λ c p. ap (budget_in most) p.0)
        (All-candidates Found limit now h.events (lookup-entries h.events v.unique)))

-- A mark that is accepted uses up one retry of its event; no mark changes another's.
mark_found-budget :
    (int63n : ℕ → ℕ) (h : Handler) (other : String) (success : Bool) (attempt_err : Option Error)
    (now : ℕ) (id : String) (found : Option DlqEvent)
    → Inv h
    → lookup other h.events ≡ found
    → let x = mark_found int63n h other success attempt_err now found in
      (x.1.config ≡ h.config)
      × (budget_of h.config.max_retries id h.events
          ≡ (if other == id && not (is_some x.0) then 1 else 0)
            + budget_of h.config.max_retries id x.1.events)
mark_found-budget int63n h other success attempt_err now id none v e = (refl, ground arith)
mark_found-budget int63n h other success attempt_err now id (some old) v e =
    elim (Bool-cases (is_retrying old.status)) [
      | inl r ↦
          let new = retried int63n h.config old success attempt_err now in
          let counted = (All-lookup EntryInv other old h.events v.entries e).counted in
          rw r (
            refl,
            ground (
              arith,
              counted,
              e,
              r,
              eq_iff other id,
              budget_of-insert h.config.max_retries other id new h.events,
            ),
          )
      | inr r ↦ rw r (refl, ground arith)
    ]

-- A step other than a purge keeps the configuration, and spends what it accepts.
abbrev Spends : (ℕ → ℕ) → String → Handler → Op → Type 0
Spends int63n id h op =
    ((step int63n h op).config ≡ h.config)
    × (budget_of h.config.max_retries id h.events
        ≡ (if accepts int63n id h op then 1 else 0)
          + budget_of h.config.max_retries id (step int63n h op).events)

step-Spends :
    (int63n : ℕ → ℕ) (id : String) (h : Handler) (op : Op)
    → Inv h
    → is_purge op ≡ false
    → Spends int63n id h op
unfolding step mark_retried publish_to_dlq claim_retryable_events
step-Spends int63n id h (publishes event reason now) v p =
    (refl, omega (arith, publish-budget h event reason now id))
step-Spends int63n id h (claims limit now) v p = (refl, omega (arith, claim-budget h limit now id))
step-Spends int63n id h (marks other success attempt_err now) v p =
    mark_found-budget int63n h other success attempt_err now id (lookup other h.events) v refl
step-Spends int63n id h (purges max_age now) v p = ground (arith, p)

-- In a handler with its invariant, a run without a purge lowers the retries that an event's record
-- has left (MaxRetries less its count, or all of the configured MaxRetries where there is no
-- record) by exactly the number of retries of the event that the run records. So no event is
-- retried more than MaxRetries times, however often it is published and claimed.
pub retries_bounded :
    (int63n : ℕ → ℕ) (id : String) (h : Handler) (ops : List Op)
    → Inv h
    → all (λ op. not (is_purge op)) ops ≡ true
    → retries_of int63n id h ops + budget_of h.config.max_retries id (run int63n h ops).events
      ≡ budget_of h.config.max_retries id h.events
unfolding retries_of run
retries_bounded int63n id h [] v p = omega arith
retries_bounded int63n id h (op ∷ ops) v p =
    let next = step int63n h op in
    let spent = step-Spends int63n id h op v (ground (arith, p)) in
    let most = ap (λ (c : DlqBackoffConfig). c.max_retries) spent.0 in
    let rest = retries_bounded int63n id next ops (step-Inv int63n h op v) (ground (arith, p)) in
    let here : retries_of int63n id next ops
          + budget_of h.config.max_retries id (run int63n next ops).events
        ≡ budget_of h.config.max_retries id next.events =
      subst
        (λ m.
          retries_of int63n id next ops + budget_of m id (run int63n next ops).events
          ≡ budget_of m id next.events)
        most rest in
    ground (arith, here, spent.1)
