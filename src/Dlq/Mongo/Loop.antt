-- ===== src/Dlq/Mongo/Loop.antt =====
-- The loop of ClaimRetryableEvents of dlq.mongo.go, which claims the documents in the order of their
-- times.
use grnoti.Prelude.{
  ℕ, zero, suc, ◌≡◌, refl, sym, ap, ◌∙◌, true, false, Option, none, some, List, [], ◌∷◌, String,
  ◌==◌, arith, ltb, take, select, length, ◌<◌, ◌≤◌, eq_iff, eq_refl, Bool-cases, inl, inr, All,
  All-select,
}
use mathlib.Core.Path.{subst}
use grnoti.Prelude.Maps.{Map, lookup, insert, delete}
use grnoti.Prelude.Keys.{Unique, insert-Unique, lookup-entries}
use grnoti.Types.{Error}
use grnoti.Database.{millis, Fault, served, refused}
use grnoti.Dlq.{DlqEvent, is_due, claimed, insert_candidate, sort_candidates, claim_each}
use grnoti.Dlq.Invariant.{All-sort_candidates}
use grnoti.Dlq.Mongo.{earliest, claim_one, claim_loop, claim_error}
use grnoti.Dlq.Mongo.Order.{
  Entry, sort_candidates-delete, first_of, earliest-sort_candidates, delete_absent,
}

abbrev pub due : ℕ → Map DlqEvent → List Entry
due now docs = select (λ (c : String × DlqEvent). is_due now c.1) docs

lookup-due :
    (now : ℕ) (id : String) (docs : Map DlqEvent)
    → lookup id docs ≡ none
    → lookup id (due now docs) ≡ none
unfolding lookup
lookup-due now id [] absent = refl
lookup-due now id ((k, v) ∷ rest) absent = ground (arith, absent, lookup-due now id rest)

due-Unique : (now : ℕ) (docs : Map DlqEvent) → Unique docs → Unique (due now docs)
due-Unique now [] u = tt
due-Unique now ((k, v) ∷ rest) u = elim (Bool-cases (is_due now v)) [
  | inl p ↦ rw p (lookup-due now k rest u.0, due-Unique now rest u.1)
  | inr p ↦ rw p (due-Unique now rest u.1)
]

lookup-inserted :
    (id : String) (c : Entry) (ds : List Entry)
    → (c.0 == id) ≡ false
    → lookup id ds ≡ none
    → lookup id (insert_candidate c ds) ≡ none
unfolding lookup insert_candidate
lookup-inserted id c [] other absent = ground (arith, other)
lookup-inserted id c (d ∷ ds) other absent =
    ground (arith, other, absent, lookup-inserted id c ds other)

lookup-sorted :
    (id : String) (cs : List Entry) → lookup id cs ≡ none → lookup id (sort_candidates cs) ≡ none
unfolding lookup sort_candidates
lookup-sorted id [] absent = refl
lookup-sorted id (c ∷ cs) absent =
    lookup-inserted id c (sort_candidates cs) (ground (arith, absent))
      (lookup-sorted id cs (ground (arith, absent)))

inserted-Unique :
    (c : Entry) (ds : List Entry)
    → Unique ds
    → lookup c.0 ds ≡ none
    → Unique (insert_candidate c ds)
unfolding lookup insert_candidate
inserted-Unique c [] u absent = (refl, tt)
inserted-Unique c (d ∷ ds) u absent = elim (Bool-cases (ltb d.1.next_retry_at c.1.next_retry_at)) [
  | inl p ↦ rw p (
    lookup-inserted d.0 c ds (ground (arith, absent, eq_iff d.0 c.0, eq_iff c.0 d.0)) u.0,
    inserted-Unique c ds u.1 (ground (arith, absent)),
  )
  | inr p ↦ rw p (absent, u)
]

sorted-Unique : (cs : List Entry) → Unique cs → Unique (sort_candidates cs)
unfolding sort_candidates
sorted-Unique [] u = tt
sorted-Unique (c ∷ cs) u =
    inserted-Unique c (sort_candidates cs) (sorted-Unique cs u.1) (lookup-sorted c.0 cs u.0)

-- A claimed document leaves the due ones, and nothing else changes among them.
due-claimed :
    (now : ℕ) (id : String) (e : DlqEvent) (docs : Map DlqEvent)
    → Unique docs
    → lookup id docs ≡ some e
    → due now (insert id (claimed now e) docs) ≡ delete id (due now docs)
unfolding lookup insert delete
due-claimed now id e [] u found = ground (arith, found)
due-claimed now id e ((k, v) ∷ rest) u found = elim (Bool-cases (k == id)) [
  | inl p ↦
      let absent : lookup id rest ≡ none =
        ap (λ x. lookup x rest) (sym ((eq_iff k id).0 p)) ∙ u.0 in
      ground (arith, p, delete_absent id (due now rest) (lookup-due now id rest absent))
  | inr p ↦ ground (arith, p, due-claimed now id e rest u.1 (ground (arith, p, found)))
]

-- Every due document is one of the collection.
first-found :
    (now : ℕ) (docs : Map DlqEvent) (id : String) (e : DlqEvent) (tail : List Entry)
    → Unique docs
    → sort_candidates (due now docs) ≡ (id, e) ∷ tail
    → lookup id docs ≡ some e
first-found now docs id e tail u sorted =
    let Found : Entry → Type 0 = λ c. lookup c.0 docs ≡ some c.1 in
    let Due : Entry → Type 0 = λ c. Found c × (is_due now c.1 ≡ true) in
    let all_due =
      All-sort_candidates Due (due now docs)
        (All-select Found (λ c. is_due now c.1) docs (lookup-entries docs u)) in
    (subst (All Due) sorted all_due).0.0

tail_left :
    (id : String) (d : DlqEvent) (tail : List Entry)
    → Unique ((id, d) ∷ tail)
    → delete id ((id, d) ∷ tail) ≡ tail
unfolding delete
tail_left id d tail u = ground (arith, eq_refl id, delete_absent id tail u.0)

-- The result of the loop for the sorted due documents.
abbrev pub claimed_each :
    ℕ → ℕ → Map DlqEvent → List Entry → Option Error → List DlqEvent × Option Error × Map DlqEvent
claimed_each n now docs sorted failure =
    let claim = claim_each now (take n sorted) docs in (claim.0, failure, claim.1)

-- The claim of the first of the sorted due documents, and what it leaves of them.
module _ (now : ℕ) (docs : Map DlqEvent) (id : String) (d : DlqEvent) (tail : List Entry)
    (u : Unique docs) (e : sort_candidates (due now docs) ≡ (id, d) ∷ tail) where
  first_earliest : earliest (due now docs) ≡ some (id, d)
  first_earliest = earliest-sort_candidates (due now docs) ∙ ap first_of e

  left_sorted : sort_candidates (due now (insert id (claimed now d) docs)) ≡ tail
  left_sorted =
      ap sort_candidates (due-claimed now id d docs u (first-found now docs id d tail u e))
      ∙ sort_candidates-delete id (due now docs)
      ∙ ap (delete id) e
      ∙ tail_left id d tail (subst Unique e (sorted-Unique (due now docs) (due-Unique now docs u)))

  left_Unique : Unique (insert id (claimed now d) docs)
  left_Unique = insert-Unique id (claimed now d) docs u

pub loop_claims :
    (n now : ℕ) (docs : Map DlqEvent) (sorted : List Entry)
    → Unique docs
    → sort_candidates (due (millis now) docs) ≡ sorted
    → claim_loop [] now n docs ≡ claimed_each n (millis now) docs sorted none
unfolding claim_loop claim_one claim_each
loop_claims zero now docs sorted u e = refl
loop_claims (suc n) now docs [] u e =
    let nothing : earliest (due (millis now) docs) ≡ none =
      earliest-sort_candidates (due (millis now) docs) ∙ ap first_of e in
    simp nothing refl
loop_claims (suc n) now docs ((id, d) ∷ tail) u e =
    let left = insert id (claimed (millis now) d) docs in
    let next =
      loop_claims n now left tail (left_Unique (millis now) docs id d tail u e)
        (left_sorted (millis now) docs id d tail u e) in
    simp (first_earliest (millis now) docs id d tail u e, next) refl

-- Some served operations, and one that the database refuses.
abbrev pub refused_after : ℕ → Error → List Fault
refused_after zero why = refused why ∷ []
refused_after (suc k) why = served ∷ refused_after k why

pub loop_interrupted :
    (k n now : ℕ) (docs : Map DlqEvent) (sorted : List Entry) (why : Error)
    → Unique docs
    → sort_candidates (due (millis now) docs) ≡ sorted
    → k < n
    → k ≤ length sorted
    → claim_loop (refused_after k why) now n docs
      ≡ claimed_each k (millis now) docs sorted (some (claim_error why))
unfolding claim_loop claim_one claim_each
loop_interrupted zero zero now docs sorted why u e less few = ground (arith, less)
loop_interrupted zero (suc n) now docs sorted why u e less few = refl
loop_interrupted (suc k) zero now docs sorted why u e less few = ground (arith, less)
loop_interrupted (suc k) (suc n) now docs [] why u e less few = ground (arith, few)
loop_interrupted (suc k) (suc n) now docs ((id, d) ∷ tail) why u e less few =
    let left = insert id (claimed (millis now) d) docs in
    let next =
      loop_interrupted k n now left tail why (left_Unique (millis now) docs id d tail u e)
        (left_sorted (millis now) docs id d tail u e) (omega (arith, less)) (omega (arith, few)) in
    simp (first_earliest (millis now) docs id d tail u e, next) refl
