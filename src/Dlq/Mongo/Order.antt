-- ===== src/Dlq/Mongo/Order.antt =====
-- The order of the claims of dlq.mongo.go and of memory.go: an entry that leaves a sorted list
-- leaves the rest sorted as it was, and the first of the sorted list is the earliest of the list.
use grnoti.Prelude.{
  ◌≡◌, ◌≤◌, refl, sym, ap, ◌∙◌, true, false, Option, none, some, List, [], ◌∷◌, String, ◌==◌, arith,
  ltb, if◌then◌else◌, All, All-weaken, Bool-cases, inl, inr,
}
use grnoti.Prelude.Maps.{Map, lookup, delete}
use grnoti.Prelude.Keys.{All-delete}
use grnoti.Dlq.{DlqEvent, insert_candidate, sort_candidates}
use grnoti.Dlq.Invariant.{All-insert_candidate}
use grnoti.Dlq.Mongo.{earliest}

abbrev pub Entry : Type 0
Entry = String × DlqEvent

-- No later than.
abbrev Before : Entry → Entry → Type 0
Before c d = c.1.next_retry_at ≤ d.1.next_retry_at

abbrev Sorted : List Entry → Type 0
Sorted [] = Unit
Sorted (c ∷ cs) = All (Before c) cs × Sorted cs

insert_candidate-Sorted : (c : Entry) (ds : List Entry) → Sorted ds → Sorted (insert_candidate c ds)
unfolding insert_candidate
insert_candidate-Sorted c [] s = (tt, tt)
insert_candidate-Sorted c (d ∷ ds) s = elim (Bool-cases (ltb d.1.next_retry_at c.1.next_retry_at)) [
  | inl p ↦ rw p (
    All-insert_candidate (Before d) c ds (ground (arith, p)) (s.0),
    insert_candidate-Sorted c ds s.1,
  )
  | inr p ↦ rw p (
    (ground (arith, p), All-weaken (Before d) (Before c) ds (λ e q. ground (arith, p, q)) s.0),
    s,
  )
]

sort_candidates-Sorted : (cs : List Entry) → Sorted (sort_candidates cs)
unfolding sort_candidates
sort_candidates-Sorted [] = tt
sort_candidates-Sorted (c ∷ cs) =
    insert_candidate-Sorted c (sort_candidates cs) (sort_candidates-Sorted cs)

-- An entry before all others is inserted at the front.
insert_candidate-front :
    (c : Entry) (ds : List Entry) → All (Before c) ds → insert_candidate c ds ≡ c ∷ ds
unfolding insert_candidate
insert_candidate-front c [] b = refl
insert_candidate-front c (d ∷ ds) b = ground (arith, b)

delete-insert_candidate :
    (id : String) (c : Entry) (ds : List Entry)
    → Sorted ds
    → (c.0 == id) ≡ false
    → insert_candidate c (delete id ds) ≡ delete id (insert_candidate c ds)
unfolding insert_candidate delete
delete-insert_candidate id c [] s other = ground (arith, other)
delete-insert_candidate id c (d ∷ ds) s other =
    elim (Bool-cases (ltb d.1.next_retry_at c.1.next_retry_at)) [
      | inl p ↦ ground (arith, p, other, delete-insert_candidate id c ds s.1 other)
      | inr p ↦
          let least : All (Before c) ds =
            All-weaken (Before d) (Before c) ds (λ e q. ground (arith, p, q)) s.0 in
          ground (
            arith,
            p,
            other,
            insert_candidate-front c (delete id ds) (All-delete (Before c) id ds least),
          )
    ]

delete_inserted :
    (id : String) (c : Entry) (ds : List Entry)
    → (c.0 == id) ≡ true
    → delete id (insert_candidate c ds) ≡ delete id ds
unfolding insert_candidate delete
delete_inserted id c [] same = ground (arith, same)
delete_inserted id c (d ∷ ds) same = ground (arith, same, delete_inserted id c ds same)

pub sort_candidates-delete :
    (id : String) (cs : List Entry)
    → sort_candidates (delete id cs) ≡ delete id (sort_candidates cs)
unfolding sort_candidates delete
sort_candidates-delete id [] = refl
sort_candidates-delete id (c ∷ cs) = elim (Bool-cases (c.0 == id)) [
  | inl p ↦ rw p (sort_candidates-delete id cs ∙ sym (delete_inserted id c (sort_candidates cs) p))
  | inr p ↦ rw p (
      ap (insert_candidate c) (sort_candidates-delete id cs)
      ∙ delete-insert_candidate id c (sort_candidates cs) (sort_candidates-Sorted cs) p)
]

abbrev pub first_of : List Entry → Option Entry
first_of [] = none
first_of (c ∷ cs) = some c

abbrev earlier : Entry → Option Entry → Option Entry
earlier c none = some c
earlier c (some d) = if ltb d.1.next_retry_at c.1.next_retry_at then some d else some c

first_of-insert_candidate :
    (c : Entry) (ds : List Entry) → first_of (insert_candidate c ds) ≡ earlier c (first_of ds)
unfolding insert_candidate
first_of-insert_candidate c [] = refl
first_of-insert_candidate c (d ∷ ds) = ground arith

earliest_cons : (c : Entry) (cs : List Entry) → earliest (c ∷ cs) ≡ earlier c (earliest cs)
unfolding earliest
earliest_cons c cs = ground arith

pub earliest-sort_candidates : (cs : List Entry) → earliest cs ≡ first_of (sort_candidates cs)
unfolding earliest sort_candidates
earliest-sort_candidates [] = refl
earliest-sort_candidates (c ∷ cs) =
    earliest_cons c cs
    ∙ ap (earlier c) (earliest-sort_candidates cs)
    ∙ sym (first_of-insert_candidate c (sort_candidates cs))

pub delete_absent : (id : String) (m : Map DlqEvent) → lookup id m ≡ none → delete id m ≡ m
unfolding lookup delete
delete_absent id [] absent = refl
delete_absent id ((k, v) ∷ rest) absent = ground (arith, absent, delete_absent id rest)
