-- ===== src/ExperimentStore/Listing.antt =====
-- The list of the experiments in memory.go: sorted, and with just what GetExperiment gives.
use text.Mathlib.TextPositions.{compare_refl}
use Prim.Native.Nat.{Ordering}
use grnoti.Prelude.{
  ℕ, ◌≡◌, refl, sym, ap, ◌∙◌, true, false, Option, none, some, List, [], ◌∷◌, String, ◌==◌, arith,
  if◌then◌else◌, if_cases, text_lt, All, eq_iff, Bool-cases, inl, inr,
}
use grnoti.Prelude.Maps.{Map, lookup, values}
use grnoti.Prelude.Keys.{All-insert, All-delete}
use grnoti.Experiment.{Experiment}
use grnoti.ExperimentStore.{
  ExperimentStore, no_experiments, create_experiment, found_experiment, get_experiment,
  update_found, update_experiment, delete_experiment, insert_by_id, sort_by_id, list_experiments,
  Change, creates, updates, deletes, changed, changed_all,
}

-- A list of experiments as a map again.
abbrev pub index : List Experiment → Map Experiment
index [] = []
index (e ∷ es) = (e.id, e) ∷ index es

lt_irrefl : (a : String) → text_lt a a ≡ false
lt_irrefl a = ap (λ o. elim o [ Ordering.lt ↦ true | _ ↦ false ]) (compare_refl a)

lt_differ : (a b id : String) → text_lt a b ≡ true → (a == id) ≡ true → (b == id) ≡ false
lt_differ a b id smaller same = elim (Bool-cases (b == id)) [
  | inl equal ↦
      let joined = (eq_iff b id).0 equal ∙ sym ((eq_iff a id).0 same) in
      ground (arith, sym (ap (text_lt a) joined) ∙ smaller, lt_irrefl a)
  | inr differ ↦ differ
]

lookup-insert_by_id :
    (id : String) (e : Experiment) (es : List Experiment)
    → lookup id (index (insert_by_id e es)) ≡ (if e.id == id then some e else lookup id (index es))
unfolding insert_by_id lookup
lookup-insert_by_id id e [] = refl
lookup-insert_by_id id e (first ∷ rest) =
    if_cases
      (λ x. lookup id (index x) ≡ (if e.id == id then some e else lookup id (index (first ∷ rest))))
      (text_lt first.id e.id) _ _
      (λ smaller. ground (arith, lt_differ first.id e.id id smaller, lookup-insert_by_id id e rest))
      (λ larger. refl)

lookup-sort_by_id :
    (id : String) (es : List Experiment) → lookup id (index (sort_by_id es)) ≡ lookup id (index es)
unfolding sort_by_id lookup
lookup-sort_by_id id [] = refl
lookup-sort_by_id id (e ∷ es) =
    lookup-insert_by_id id e (sort_by_id es)
    ∙ ap (λ x. if e.id == id then some e else x) (lookup-sort_by_id id es)

-- Every experiment stands under its own id.
Keyed : Map Experiment → Type 0
Keyed = All (λ (entry : String × Experiment). entry.0 ≡ entry.1.id)

index-values :
    (id : String) (m : Map Experiment) → Keyed m → lookup id (index (values m)) ≡ lookup id m
unfolding Keyed lookup
index-values id [] k = refl
index-values id ((key, e) ∷ rest) k =
    rw (k.0) (ap (λ x. if e.id == id then some e else x) (index-values id rest k.1))

update_found-Keyed :
    (s : ExperimentStore) (now : ℕ) (e : Experiment) (existing : Option Experiment)
    → Keyed s.experiments
    → Keyed (update_found s now e existing).1.experiments
unfolding Keyed
update_found-Keyed s now e none k = k
update_found-Keyed s now e (some existing) k = All-insert _ e.id _ s.experiments refl k

changed-Keyed :
    (s : ExperimentStore) (change : Change)
    → Keyed s.experiments
    → Keyed (changed s change).experiments
unfolding Keyed create_experiment update_experiment delete_experiment
changed-Keyed s (creates now e) k = All-insert _ e.id _ s.experiments refl k
changed-Keyed s (updates now e) k = update_found-Keyed s now e (lookup e.id s.experiments) k
changed-Keyed s (deletes id) k = All-delete _ id s.experiments k

changed_all-Keyed :
    (s : ExperimentStore) (changes : List Change)
    → Keyed s.experiments
    → Keyed (changed_all s changes).experiments
changed_all-Keyed s [] k = k
changed_all-Keyed s (change ∷ changes) k =
    changed_all-Keyed (changed s change) changes (changed-Keyed s change k)

-- After any changes of a new store, its list of experiments is complete and exact: a store made of
-- the list alone gives for every id what the store itself gives.
pub list_round_trip :
    (changes : List Change) (id : String)
    → let s = changed_all no_experiments changes in
      get_experiment (record { experiments = index (list_experiments s) }) id ≡ get_experiment s id
unfolding Keyed get_experiment list_experiments
list_round_trip changes id =
    let s = changed_all no_experiments changes in
    ap found_experiment (
      lookup-sort_by_id id (values s.experiments)
      ∙ index-values id s.experiments (changed_all-Keyed no_experiments changes tt))
