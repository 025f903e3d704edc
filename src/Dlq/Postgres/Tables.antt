-- ===== src/Dlq/Postgres/Tables.antt =====
-- The queue of dlq.postgres.go against that of memory.go, as tables.
use grnoti.Prelude.{
  ℕ, zero, suc, ◌≡◌, refl, sym, ap, true, false, Option, none, some, List, [], ◌∷◌, String, ◌==◌,
  arith, ltb, take, select, ◌<◌, Bool-cases, inl, inr,
}
use mathlib.Core.Path.{subst}
use grnoti.Prelude.Maps.{Map, lookup, insert}
use grnoti.Postgres.{pg_time}
use grnoti.Dlq.{
  DlqEvent, is_due, insert_candidate, sort_candidates, claimed, claim_each, is_expired, purge,
  candidates,
}
use grnoti.Dlq.Limit.{limited}
use mathlib.Core.List.{Permᴰ}
use grnoti.Prelude.Sorting.{Untied, sort-permuted}
use grnoti.Database.{IsMicros}
use grnoti.Dlq.Postgres.{
  RowOrder, due_rows, DlqCodec, DlqRow, claim_rows, row_is_due, insert_due, sort_due, row_claimed,
  update_due, row_is_expired, purge_rows,
}
use grnoti.Dlq.Postgres.Rows.{Holds, Holds-claimed}

-- The time that the rows are sorted by.
abbrev pub row_time : {Json : Type 0} → String × DlqRow Json → ℕ
row_time c = pg_time c.1.next_retry_at

-- Each order has all the rows, each as often.
pub record Permutes {Json : Type 0} (order : RowOrder Json) : Type 0 where
  pub scanned_permutes : (rows : List (String × DlqRow Json)) → Permᴰ rows (order.scanned rows)
  pub returned_permutes : (rows : List (DlqRow Json)) → Permᴰ rows (order.returned rows)

module _ {Json : Type 0} (codec : DlqCodec Json) where
  -- The table holds the records, under the same keys and in the same order.
  abbrev pub HoldsAll : Map (DlqRow Json) → Map DlqEvent → Type 0
  HoldsAll [] [] = Unit
  HoldsAll ((id, r) ∷ rows) ((key, e) ∷ events) =
      (id ≡ key) × Holds codec r e × HoldsAll rows events
  HoldsAll _ _ = true ≡ false

  abbrev pub HoldsSome : Option (DlqRow Json) → Option DlqEvent → Type 0
  HoldsSome none none = Unit
  HoldsSome (some r) (some e) = Holds codec r e
  HoldsSome _ _ = true ≡ false

  pub lookup-HoldsSome :
      (id : String) (rows : Map (DlqRow Json)) (events : Map DlqEvent)
      → HoldsAll rows events
      → HoldsSome (lookup id rows) (lookup id events)
  unfolding lookup
  lookup-HoldsSome id [] [] h = tt
  lookup-HoldsSome id ((k, r) ∷ rows) ((key, e) ∷ events) h = elim (Bool-cases (key == id)) [
    | inl p ↦ rw (h.0, p) (h.1)
    | inr p ↦ rw (h.0, p) (lookup-HoldsSome id rows events h.2)
  ]
  lookup-HoldsSome id [] (c ∷ events) h = ground (arith, h)
  lookup-HoldsSome id (c ∷ rows) [] h = ground (arith, h)

  pub insert-HoldsAll :
      (id : String) (r : DlqRow Json) (e : DlqEvent) (rows : Map (DlqRow Json))
      (events : Map DlqEvent)
      → Holds codec r e
      → HoldsAll rows events
      → HoldsAll (insert id r rows) (insert id e events)
  unfolding insert
  insert-HoldsAll id r e [] [] one h = (refl, one, tt)
  insert-HoldsAll id r e ((k, s) ∷ rows) ((key, f) ∷ events) one h = elim (Bool-cases (key == id)) [
    | inl p ↦ rw (h.0, p) (refl, one, h.2)
    | inr p ↦ rw (h.0, p) (refl, h.1, insert-HoldsAll id r e rows events one h.2)
  ]
  insert-HoldsAll id r e [] (c ∷ events) one h = ground (arith, h)
  insert-HoldsAll id r e (c ∷ rows) [] one h = ground (arith, h)

  due_alike :
      (now : ℕ) (r : DlqRow Json) (e : DlqEvent)
      → IsMicros now
      → Holds codec r e
      → row_is_due now r ≡ is_due now e
  due_alike now r e w h = rw w (ap (λ x. is_due now x) h.fields)

  select-HoldsAll :
      (now : ℕ) (rows : Map (DlqRow Json)) (events : Map DlqEvent)
      → IsMicros now
      → HoldsAll rows events
      → HoldsAll (due_rows now rows) (select (λ (c : String × DlqEvent). is_due now c.1) events)
  select-HoldsAll now [] [] w h = tt
  select-HoldsAll now ((k, r) ∷ rows) ((key, e) ∷ events) w h = elim (Bool-cases (is_due now e)) [
    | inl p ↦ rw (due_alike now r e w h.1, p) (h.0, h.1, select-HoldsAll now rows events w h.2)
    | inr p ↦ rw (due_alike now r e w h.1, p) (select-HoldsAll now rows events w h.2)
  ]
  select-HoldsAll now [] (c ∷ events) w h = ground (arith, h)
  select-HoldsAll now (c ∷ rows) [] w h = ground (arith, h)

  insert_due-HoldsAll :
      (id key : String) (r : DlqRow Json) (e : DlqEvent) (rows : Map (DlqRow Json))
      (events : Map DlqEvent)
      → id ≡ key
      → Holds codec r e
      → HoldsAll rows events
      → HoldsAll (insert_due (id, r) rows) (insert_candidate (key, e) events)
  unfolding insert_due insert_candidate
  insert_due-HoldsAll id key r e [] [] same one h = (same, one, tt)
  insert_due-HoldsAll id key r e ((k, s) ∷ rows) ((l, f) ∷ events) same one h =
      let time_s : pg_time s.next_retry_at ≡ f.next_retry_at =
        ap (λ x. x.next_retry_at) h.1.fields in
      let time_r : pg_time r.next_retry_at ≡ e.next_retry_at =
        ap (λ x. x.next_retry_at) one.fields in
      elim (Bool-cases (ltb f.next_retry_at e.next_retry_at)) [
        | inl p ↦
            simp (time_s, time_r, p)
              (h.0, h.1, insert_due-HoldsAll id key r e rows events same one h.2)
        | inr p ↦ simp (time_s, time_r, p) (same, one, h)
      ]
  insert_due-HoldsAll id key r e [] (c ∷ events) same one h = ground (arith, h)
  insert_due-HoldsAll id key r e (c ∷ rows) [] same one h = ground (arith, h)

  sort_due-HoldsAll :
      (rows : Map (DlqRow Json)) (events : Map DlqEvent)
      → HoldsAll rows events
      → HoldsAll (sort_due rows) (sort_candidates events)
  unfolding sort_due sort_candidates
  sort_due-HoldsAll [] [] h = tt
  sort_due-HoldsAll ((k, r) ∷ rows) ((key, e) ∷ events) h =
      insert_due-HoldsAll k key r e (sort_due rows) (sort_candidates events) h.0 h.1
        (sort_due-HoldsAll rows events h.2)
  sort_due-HoldsAll [] (c ∷ events) h = ground (arith, h)
  sort_due-HoldsAll (c ∷ rows) [] h = ground (arith, h)

  take-HoldsAll :
      (n : ℕ) (rows : Map (DlqRow Json)) (events : Map DlqEvent)
      → HoldsAll rows events
      → HoldsAll (take n rows) (take n events)
  take-HoldsAll zero rows events h = tt
  take-HoldsAll (suc n) [] [] h = tt
  take-HoldsAll (suc n) ((k, r) ∷ rows) ((key, e) ∷ events) h =
      (h.0, h.1, take-HoldsAll n rows events h.2)
  take-HoldsAll (suc n) [] (c ∷ events) h = ground (arith, h)
  take-HoldsAll (suc n) (c ∷ rows) [] h = ground (arith, h)

  -- What a claim returns.
  abbrev pub HoldsEach : List (DlqRow Json) → List DlqEvent → Type 0
  HoldsEach [] [] = Unit
  HoldsEach (r ∷ rows) (e ∷ events) = Holds codec r e × HoldsEach rows events
  HoldsEach _ _ = true ≡ false

  update_due-Holds :
      (now : ℕ) (chosen : List (String × DlqRow Json)) (picked : List (String × DlqEvent))
      (rows : Map (DlqRow Json)) (events : Map DlqEvent)
      → IsMicros now
      → HoldsAll chosen picked
      → HoldsAll rows events
      → HoldsEach (update_due now chosen rows).0 (claim_each now picked events).0
        × HoldsAll (update_due now chosen rows).1 (claim_each now picked events).1
  unfolding update_due claim_each
  update_due-Holds now [] [] rows events w c h = (tt, h)
  update_due-Holds now ((k, r) ∷ chosen) ((key, e) ∷ picked) rows events w c h =
      let one = Holds-claimed codec now r e w c.1 in
      let rest =
        update_due-Holds now chosen picked (insert k (row_claimed now r) rows)
          (insert key (claimed now e) events) w c.2
          (rw (c.0) (insert-HoldsAll key (row_claimed now r) (claimed now e) rows events one h)) in
      ((one, rest.0), rest.1)
  update_due-Holds now [] (p ∷ picked) rows events w c h = ground (arith, c)
  update_due-Holds now (p ∷ chosen) [] rows events w c h = ground (arith, c)

  -- Without ties the order of the scan does not matter.
  sort_due-scanned :
      (order : RowOrder Json) (rows : List (String × DlqRow Json))
      → Permutes order
      → Untied row_time rows
      → sort_due (order.scanned rows) ≡ sort_due rows
  unfolding insert_due sort_due
  sort_due-scanned order rows permutes untied =
      sym
        (sort-permuted row_time insert_due sort_due (λ c. refl) (λ c d ds. refl) (λ c cs. refl)
          (permutes.scanned_permutes rows) untied).0

  -- A claim with a limit, and its rows before they are returned.
  pub claim_rows-Holds :
      (order : RowOrder Json) (limit now : ℕ) (rows : Map (DlqRow Json)) (events : Map DlqEvent)
      → Permutes order
      → Untied row_time (due_rows now rows)
      → 0 < limit
      → IsMicros now
      → HoldsAll rows events
      → let claim = claim_each now (candidates limit now events) events in
        ((found : List (DlqRow Json)) × ((claim_rows order limit now rows).0 ≡ order.returned found)
          × HoldsEach found claim.0)
        × HoldsAll (claim_rows order limit now rows).1 claim.1
  unfolding claim_rows
  claim_rows-Holds order limit now rows events permutes untied positive w h =
      let due_events = select (λ (c : String × DlqEvent). is_due now c.1) events in
      let sorted =
        sort_due-HoldsAll (due_rows now rows) due_events (select-HoldsAll now rows events w h) in
      let chosen = take limit (sort_due (due_rows now rows)) in
      let held =
        subst
          (λ picked.
            HoldsEach (update_due now chosen rows).0 (claim_each now picked events).0
            × HoldsAll (update_due now chosen rows).1 (claim_each now picked events).1)
          (sym (limited limit (sort_candidates due_events) positive))
          (update_due-Holds now chosen (take limit (sort_candidates due_events)) rows events w
            (take-HoldsAll limit (sort_due (due_rows now rows)) (sort_candidates due_events) sorted)
            h) in
      rw (sort_due-scanned order (due_rows now rows) permutes untied)
        (((update_due now chosen rows).0, refl, held.0), held.1)

  expired_alike :
      (cutoff : ℕ) (r : DlqRow Json) (e : DlqEvent)
      → IsMicros cutoff
      → Holds codec r e
      → row_is_expired cutoff r ≡ is_expired cutoff e
  expired_alike cutoff r e w h = rw w (ap (is_expired cutoff) h.fields)

  pub purge_rows-Holds :
      (cutoff : ℕ) (rows : Map (DlqRow Json)) (events : Map DlqEvent)
      → IsMicros cutoff
      → HoldsAll rows events
      → ((purge_rows cutoff rows).0 ≡ (purge cutoff events).0)
        × HoldsAll (purge_rows cutoff rows).1 (purge cutoff events).1
  unfolding purge_rows purge
  purge_rows-Holds cutoff [] [] w h = (refl, tt)
  purge_rows-Holds cutoff ((k, r) ∷ rows) ((key, e) ∷ events) w h =
      let rest = purge_rows-Holds cutoff rows events w h.2 in
      elim (Bool-cases (is_expired cutoff e)) [
        | inl p ↦ rw (expired_alike cutoff r e w h.1, p) (ap suc rest.0, rest.1)
        | inr p ↦ rw (expired_alike cutoff r e w h.1, p) (rest.0, (h.0, h.1, rest.1))
      ]
  purge_rows-Holds cutoff [] (c ∷ events) w h = ground (arith, h)
  purge_rows-Holds cutoff (c ∷ rows) [] w h = ground (arith, h)
