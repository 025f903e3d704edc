-- ===== src/Dlq/Claims.antt =====
-- What ClaimRetryableEvents of memory.go returns, and what it leaves.
use Prim.Native.Nat.{min}
use grnoti.Prelude.{
  ℕ, suc, ◌≡◌, ◌≤◌, refl, ap, ◌∙◌, true, ◌&&◌, Option, none, some, List, [], ◌∷◌, String, arith,
  ltb, eq_iff, ◌==◌, length, length-take, take, select, if◌then◌else◌, All, All-weaken, All-both,
}
use grnoti.Prelude.Maps.{Map, lookup, insert, lookup-insert}
use grnoti.Prelude.Keys.{lookup-entries}
use grnoti.Dlq.{
  DlqStatus, pending, retrying, DlqEvent, Handler, is_due, insert_candidate, sort_candidates,
  candidates, claimed, claim_each, claim_retryable_events,
}
use grnoti.Dlq.Invariant.{EntryInv, Inv, All-candidates}

abbrev pub status_in : Option DlqEvent → Option DlqStatus
status_in none = none
status_in (some e) = some e.status

-- The status of the record of an event id, if it has one.
abbrev pub status_of : String → Map DlqEvent → Option DlqStatus
status_of id events = status_in (lookup id events)

pub status_of-insert :
    (id other : String) (e : DlqEvent) (events : Map DlqEvent)
    → status_of other (insert id e events)
      ≡ (if id == other then some e.status else status_of other events)
status_of-insert id other e events = rw (lookup-insert id other e events) (ground arith)

-- A record that is claimed stays so while others are.
pub claim_each-keeps :
    (now : ℕ) (id : String) (cs : List (String × DlqEvent)) (events : Map DlqEvent)
    → status_of id events ≡ some retrying
    → status_of id (claim_each now cs events).1 ≡ some retrying
unfolding claim_each
claim_each-keeps now id [] events held = held
claim_each-keeps now id ((k, e) ∷ cs) events held =
    claim_each-keeps now id cs (insert k (claimed now e) events)
      (ground (arith, held, status_of-insert k id (claimed now e) events))

claim_each-claims :
    (now : ℕ) (cs : List (String × DlqEvent)) (events : Map DlqEvent)
    → All EntryInv cs
    → All
        (λ (e : DlqEvent). status_of e.event_id (claim_each now cs events).1 ≡ some retrying)
        (claim_each now cs events).0
unfolding claim_each
claim_each-claims now [] events vs = tt
claim_each-claims now ((id, e) ∷ cs) events vs = (
  claim_each-keeps now e.event_id cs (insert id (claimed now e) events) (
      ground
        (arith, vs.0, status_of-insert id e.event_id (claimed now e) events, eq_iff id e.event_id)),
  claim_each-claims now cs (insert id (claimed now e) events) vs.1,
)

-- What a claim returns for the record `old` that it found: the same record, now claimed.
pub record Claimed (h : Handler) (now : ℕ) (e : DlqEvent) : Type 0 where
  pub old : DlqEvent
  pub found : lookup e.event_id h.events ≡ some old
  pub was_pending : old.status ≡ pending
  pub was_due : old.next_retry_at ≤ now
  pub copy : e ≡ claimed now old

claimed-Claimed :
    (h : Handler) (now : ℕ) (c : String × DlqEvent)
    → (EntryInv c × (lookup c.0 h.events ≡ some c.1)) × (is_due now c.1 ≡ true)
    → Claimed h now (claimed now c.1)
claimed-Claimed h now (id, e) p = record {
  old = e;
  found = ap (λ k. lookup k h.events) p.0.0.keyed ∙ p.0.1;
  was_pending = ground (arith, p.1);
  was_due = ground (arith, p.1);
  copy = refl;
}

claim_each-Claimed :
    (h : Handler) (now : ℕ) (cs : List (String × DlqEvent)) (events : Map DlqEvent)
    → All (λ c. (EntryInv c × (lookup c.0 h.events ≡ some c.1)) × (is_due now c.1 ≡ true)) cs
    → All (Claimed h now) (claim_each now cs events).0
unfolding claim_each
claim_each-Claimed h now [] events ps = tt
claim_each-Claimed h now ((id, e) ∷ cs) events ps = (
  claimed-Claimed h now (id, e) ps.0,
  claim_each-Claimed h now cs (insert id (claimed now e) events) ps.1,
)

length-claim_each :
    (now : ℕ) (cs : List (String × DlqEvent)) (events : Map DlqEvent)
    → length (claim_each now cs events).0 ≡ length cs
unfolding claim_each
length-claim_each now [] events = refl
length-claim_each now ((id, e) ∷ cs) events =
    omega (arith, length-claim_each now cs (insert id (claimed now e) events))

length-insert_candidate :
    (c : String × DlqEvent) (cs : List (String × DlqEvent))
    → length (insert_candidate c cs) ≡ suc (length cs)
unfolding insert_candidate
length-insert_candidate c [] = refl
length-insert_candidate c (d ∷ ds) = ground (arith, length-insert_candidate c ds)

length-sort_candidates : (cs : List (String × DlqEvent)) → length (sort_candidates cs) ≡ length cs
unfolding sort_candidates
length-sort_candidates [] = refl
length-sort_candidates (c ∷ cs) =
    omega (arith, length-insert_candidate c (sort_candidates cs), length-sort_candidates cs)

abbrev pub due_count : Handler → ℕ → ℕ
due_count h now = length (select (λ (c : String × DlqEvent). is_due now c.1) h.events)

-- How many records a claim returns: the limit, where there is one, or all that are due.
abbrev pub quota : ℕ → ℕ → ℕ
quota limit due = if ltb 0 limit then min limit due else due

length-limited :
    (limit : ℕ) (cs : List (String × DlqEvent))
    → length (if ltb 0 limit && ltb limit (length cs) then take limit cs else cs)
      ≡ quota limit (length cs)
length-limited limit cs = ground (arith, length-take limit cs)

length-claim :
    (h : Handler) (limit now : ℕ)
    → length (claim_retryable_events h limit now).0 ≡ quota limit (due_count h now)
unfolding claim_retryable_events
length-claim h limit now =
    let due = select (λ (c : String × DlqEvent). is_due now c.1) h.events in
    length-claim_each now (candidates limit now h.events) h.events
    ∙ length-limited limit (sort_candidates due)
    ∙ ap (quota limit) (length-sort_candidates due)

-- In a handler with its invariant, a claim returns as many records as are due, or the limit if
-- that is positive and smaller. Each was pending and due under its event id, is returned as it was
-- but for the claim, and stands as claimed in the handler that is left.
pub claim_contract :
    (h : Handler) (limit now : ℕ)
    → Inv h
    → let x = claim_retryable_events h limit now in
      (length x.0 ≡ quota limit (due_count h now))
      × All (Claimed h now) x.0
      × All (λ (e : DlqEvent). status_of e.event_id x.1.events ≡ some retrying) x.0
unfolding claim_retryable_events
claim_contract h limit now v =
    let cs = candidates limit now h.events in
    let Found : String × DlqEvent → Type 0 = λ c. lookup c.0 h.events ≡ some c.1 in
    let P : String × DlqEvent → Type 0 = λ c. EntryInv c × Found c in
    let good =
      All-candidates P limit now h.events
        (All-both EntryInv Found h.events v.entries (lookup-entries h.events v.unique)) in
    (
      length-claim h limit now,
      claim_each-Claimed h now cs h.events good,
      claim_each-claims now cs h.events
          (All-weaken (λ c. P c × (is_due now c.1 ≡ true)) EntryInv cs (λ c p. p.0.0) good),
    )
