-- ===== src/Dlq/Postgres/Agreement.antt =====
-- The handler of dlq.postgres.go and the one of memory.go, given the same calls.
use grnoti.Prelude.{
  ℕ, ◌-◌, Bool, ◌^◌, ◌<◌, ◌≡◌, refl, sym, ap, ◌∙◌, true, false, Option, none, some, Result, ok, err,
  List, [], ◌∷◌, map, String, arith, leb, if◌then◌else◌, All,
}
use grnoti.Prelude.Maps.{lookup}
use grnoti.Types.{Error, err_dlq_event_not_found}
use grnoti.Database.{served, IsMicros, IsMicros-sub}
use grnoti.Dlq.{
  Handler, DlqEvent, Op, publishes, claims, marks, purges, step, run, claim_each, candidates,
  claim_retryable_events as claim_in_memory, mark_retried as mark_in_memory,
  get_event_by_id as get_in_memory, purge_expired_events as purge_in_memory,
}
use mathlib.Core.List.{Permᴰ}
use grnoti.Prelude.Sorting.{Untied}
use grnoti.Dlq.Postgres.{RowOrder, due_rows, dlq_row_to_domain, DlqCodec, DlqRow, PostgresDlq}
use grnoti.Dlq.Postgres.Handler.{
  decode_claimed, publish_to_dlq, claim_retryable_events, get_event_by_id, mark_retried,
  purge_expired_events, event_found,
}
use grnoti.Dlq.Postgres.Rows.{draws_in_micros, Alike, DlqLaws, Holds-decoded}
use grnoti.Dlq.Postgres.Tables.{
  Permutes, row_time, HoldsSome, HoldsEach, lookup-HoldsSome, claim_rows-Holds, purge_rows-Holds,
}
use grnoti.Dlq.Postgres.Refines.{
  Simulates, int32_of-small, publish-simulates, claim-simulates, purge-simulates, mark-simulates,
  mark_error,
}

-- The calls that both handlers are given: a limit at most 0 is 10 for PostgreSQL, and no limit in
-- memory.
abbrev pub with_limit : Op → Op
with_limit (claims limit now) = claims (if leb limit 0 then 10 else limit) now
with_limit op = op

-- The clock gives whole microseconds, and so is the age of a purge; the limit of a claim is an int32.
abbrev pub Fits : Op → Type 0
Fits (publishes event reason now) = IsMicros now
Fits (claims limit now) = IsMicros now × (limit < 2 ^ 31)
Fits (marks id success attempt_err now) = IsMicros now
Fits (purges max_age now) = IsMicros now × IsMicros max_age

module _ {Pool Json : Type 0} (codec : DlqCodec Json) (order : RowOrder Json) (int63n : ℕ → ℕ) where
  -- The same calls of the handler over PostgreSQL, served and without others in between.
  abbrev pub postgres_step : PostgresDlq Pool Json → Op → PostgresDlq Pool Json
  postgres_step h (publishes event reason now) = (publish_to_dlq codec served h event reason now).1
  postgres_step h (claims limit now) = (claim_retryable_events codec served order h limit now).1
  postgres_step h (marks id success attempt_err now) =
      (mark_retried codec served served served int63n h id success attempt_err now).1
  postgres_step h (purges max_age now) = (purge_expired_events codec served h max_age now).1

  abbrev pub postgres_run : PostgresDlq Pool Json → List Op → PostgresDlq Pool Json
  postgres_run h [] = h
  postgres_run h (op ∷ ops) = postgres_run (postgres_step h op) ops

  -- No two due rows have the same time at a claim of the run.
  abbrev pub UntiedRun : PostgresDlq Pool Json → List Op → Type 0
  UntiedRun h [] = Unit
  UntiedRun h (claims limit now ∷ ops) =
      Untied row_time (due_rows now h.store.table)
      × UntiedRun (postgres_step h (claims limit now)) ops
  UntiedRun h (op ∷ ops) = UntiedRun (postgres_step h op) ops

-- What the two handlers answer.
abbrev pub AlikeEvents : Result Error DlqEvent → Result Error DlqEvent → Type 0
AlikeEvents (ok f) (ok e) = Alike f e
AlikeEvents (err a) (err b) = a ≡ b
AlikeEvents _ _ = true ≡ false

abbrev pub AlikeEach : List DlqEvent → List DlqEvent → Type 0
AlikeEach [] [] = Unit
AlikeEach (f ∷ fs) (e ∷ es) = Alike f e × AlikeEach fs es
AlikeEach _ _ = true ≡ false

-- In any order.
abbrev pub AlikeClaims : Result Error (List DlqEvent) → List DlqEvent → Type 0
AlikeClaims (ok fs) es = (gs : List DlqEvent) × Permᴰ gs fs × AlikeEach gs es
AlikeClaims (err a) es = true ≡ false

module _ {Json : Type 0} (codec : DlqCodec Json) where
  found-alike :
      (id : String) (r : Option (DlqRow Json)) (e : Option DlqEvent)
      → HoldsSome codec r e
      → AlikeEvents
          (event_found codec id (ok r))
          (elim e [ none ↦ err err_dlq_event_not_found | some x ↦ ok x ])
  found-alike id none none h = refl
  found-alike id (some r) (some e) h = let f = Holds-decoded codec r e h in rw (f.1) (f.2)
  found-alike id none (some e) h = ground (arith, h)
  found-alike id (some r) none h = ground (arith, h)

  -- The rows decode to these events, one by one.
  abbrev EachDecodes : List (DlqRow Json) → List DlqEvent → Type 0
  EachDecodes [] [] = Unit
  EachDecodes (r ∷ rows) (f ∷ fs) = (dlq_row_to_domain codec r ≡ ok f) × EachDecodes rows fs
  EachDecodes _ _ = true ≡ false

  each-alike :
      (rows : List (DlqRow Json)) (es : List DlqEvent)
      → HoldsEach codec rows es
      → (fs : List DlqEvent) × EachDecodes rows fs × AlikeEach fs es
  each-alike [] [] h = ([], tt, tt)
  each-alike (r ∷ rows) (e ∷ es) h =
      let f = Holds-decoded codec r e h.0 in
      let fs = each-alike rows es h.1 in (f.0 ∷ fs.0, (f.1, fs.1), (f.2, fs.2))
  each-alike [] (e ∷ es) h = ground (arith, h)
  each-alike (r ∷ rows) [] h = ground (arith, h)

  each-permuted :
      {rows others : List (DlqRow Json)} (fs : List DlqEvent)
      → Permᴰ rows others
      → EachDecodes rows fs
      → (gs : List DlqEvent) × EachDecodes others gs × Permᴰ fs gs
  each-permuted [] Permᴰ.nil d = ([], tt, Permᴰ.nil)
  each-permuted (f ∷ fs) Permᴰ.nil d = ground (arith, d)
  each-permuted (f ∷ fs) (Permᴰ.cons e p) d =
      let rest = each-permuted fs p d.1 in
      (f ∷ rest.0, (ap (dlq_row_to_domain codec) (sym e) ∙ d.0, rest.1), Permᴰ.cons refl rest.2)
  each-permuted [] (Permᴰ.cons e p) d = ground (arith, d)
  each-permuted (f ∷ g ∷ fs) (Permᴰ.swap e e') d = (
    g ∷ f ∷ fs,
    (
      ap (dlq_row_to_domain codec) (sym e') ∙ d.1.0,
      (ap (dlq_row_to_domain codec) (sym e) ∙ d.0, d.1.1),
    ),
    Permᴰ.swap refl refl,
  )
  each-permuted (f ∷ []) (Permᴰ.swap e e') d = ground (arith, d)
  each-permuted [] (Permᴰ.swap e e') d = ground (arith, d)
  each-permuted fs (Permᴰ.trans p q) d =
      let first = each-permuted fs p d in
      let second = each-permuted first.0 q first.1 in
      (second.0, second.1, Permᴰ.trans first.2 second.2)

  decode_claimed-each :
      (rows : List (DlqRow Json)) (fs : List DlqEvent)
      → EachDecodes rows fs
      → decode_claimed codec rows ≡ ok fs
  unfolding decode_claimed
  decode_claimed-each [] [] d = refl
  decode_claimed-each (r ∷ rows) (f ∷ fs) d = rw (d.0, decode_claimed-each rows fs d.1) refl
  decode_claimed-each [] (f ∷ fs) d = ground (arith, d)
  decode_claimed-each (r ∷ rows) [] d = ground (arith, d)

  -- Claimed rows in another order.
  claimed-alike :
      (rows others : List (DlqRow Json)) (es : List DlqEvent)
      → HoldsEach codec rows es
      → Permᴰ rows others
      → AlikeClaims (decode_claimed codec others) es
  claimed-alike rows others es h p =
      let fs = each-alike rows es h in
      let gs = each-permuted fs.0 p fs.1 in
      rw (decode_claimed-each others gs.0 gs.1) (fs.0, gs.2, fs.2)

module _ {Pool Json : Type 0} (codec : DlqCodec Json) (laws : DlqLaws codec) (order : RowOrder Json)
    (permutes : Permutes order) (int63n : ℕ → ℕ) where
  step-simulated :
      (h : PostgresDlq Pool Json) (m : Handler) (op : Op) (ops : List Op)
      → Fits op
      → UntiedRun codec order int63n h (op ∷ ops)
      → Simulates codec h m
      → Simulates codec
          (postgres_step codec order int63n h op)
          (step (draws_in_micros int63n) m (with_limit op))
        × UntiedRun codec order int63n (postgres_step codec order int63n h op) ops
  unfolding step
  step-simulated h m (publishes event reason now) ops fits untied s =
      (publish-simulates codec laws h m s event reason now fits, untied)
  step-simulated h m (claims limit now) ops fits untied s =
      (claim-simulates codec laws h m s order limit now permutes untied.0 fits.0 fits.1, untied.1)
  step-simulated h m (marks id success attempt_err now) ops fits untied s =
      (mark-simulates codec laws h m s int63n id success attempt_err now fits, untied)
  step-simulated h m (purges max_age now) ops fits untied s = (
    purge-simulates codec laws h m s max_age now (IsMicros-sub now max_age fits.0 fits.1),
    untied,
  )

  run-simulated :
      (h : PostgresDlq Pool Json) (m : Handler) (ops : List Op)
      → All Fits ops
      → UntiedRun codec order int63n h ops
      → Simulates codec h m
      → Simulates codec
          (postgres_run codec order int63n h ops)
          (run (draws_in_micros int63n) m (map with_limit ops))
  unfolding run
  run-simulated h m [] fits untied s = s
  run-simulated h m (op ∷ ops) fits untied s =
      let next = step-simulated h m op ops fits.0 untied s in
      run-simulated (postgres_step codec order int63n h op)
        (step (draws_in_micros int63n) m (with_limit op)) ops fits.1 next.1 next.0

  get-alike :
      (h : PostgresDlq Pool Json) (m : Handler) (id : String)
      → Simulates codec h m
      → AlikeEvents (get_event_by_id codec served h id) (get_in_memory m id)
  unfolding get_event_by_id get_in_memory
  get-alike h m id s = simp (s.live) (
      found-alike codec id (lookup id h.store.table) (lookup id m.events)
        (lookup-HoldsSome codec id h.store.table m.events s.rows))

  claims-alike :
      (h : PostgresDlq Pool Json) (m : Handler) (limit now : ℕ)
      → IsMicros now
      → limit < 2 ^ 31
      → Untied row_time (due_rows now h.store.table)
      → Simulates codec h m
      → let batch = if leb limit 0 then 10 else limit in
        AlikeClaims
          (claim_retryable_events codec served order h limit now).0
          (claim_in_memory m batch now).0
  unfolding claim_retryable_events claim_in_memory
  claims-alike h m limit now w fits untied s =
      let batch = if leb limit 0 then 10 else limit in
      let held =
        (claim_rows-Holds codec order batch now h.store.table m.events permutes untied
          (ground arith) w s.rows).0 in
      let es = claim_each now (candidates batch now m.events) m.events in
      simp (s.live, int32_of-small batch (ground (arith, fits)), held.1)
        (claimed-alike codec held.0 (order.returned held.0) es.0 held.2
          (permutes.returned_permutes held.0))

  purged-alike :
      (h : PostgresDlq Pool Json) (m : Handler) (max_age now : ℕ)
      → IsMicros (now - max_age)
      → Simulates codec h m
      → (purge_expired_events codec served h max_age now).0 ≡ ok (purge_in_memory m max_age now).0
  unfolding purge_expired_events purge_in_memory
  purged-alike h m max_age now w s =
      simp (s.live)
        (ap ok (purge_rows-Holds codec (now - max_age) h.store.table m.events w s.rows).0)

  -- After any calls, served by the database and with no call of another between the two statements
  -- of a MarkRetried, the handler over PostgreSQL answers as the handler in memory does after the
  -- same calls, where a limit at most 0 claims 10 events instead of all: GetEventByID gives the
  -- same event and ClaimRetryableEvents the same events in some order, up to the numbers of
  -- attempts, MarkRetried the same error and PurgeExpiredEvents the same count. The conditions: the
  -- clock, the retry delay and the ages of purges are in whole microseconds, as columns are, and
  -- the handler in memory draws the same jitter rounded down to them, where a draw depends on its
  -- bound alone; no two due rows have the same time of the next retry when a claim is made; the
  -- limits and MaxRetries are below 2^31; the handlers agree at the start; and decoded values are
  -- the encoded ones.
  pub postgres_agrees :
      (h : PostgresDlq Pool Json) (m : Handler) (ops : List Op) (id : String)
      (limit max_age now : ℕ) (success : Bool) (attempt_err : Option Error)
      → Simulates codec h m
      → All Fits ops
      → UntiedRun codec order int63n h ops
      → IsMicros now
      → IsMicros max_age
      → limit < 2 ^ 31
      → Untied row_time (due_rows now (postgres_run codec order int63n h ops).store.table)
      → let p = postgres_run codec order int63n h ops in
        let draws = draws_in_micros int63n in
        let q = run draws m (map with_limit ops) in
        AlikeEvents (get_event_by_id codec served p id) (get_in_memory q id)
        × AlikeClaims
            (claim_retryable_events codec served order p limit now).0
            (claim_in_memory q (if leb limit 0 then 10 else limit) now).0
        × ((mark_retried codec served served served int63n p id success attempt_err now).0
            ≡ (mark_in_memory draws q id success attempt_err now).0)
        × ((purge_expired_events codec served p max_age now).0
            ≡ ok (purge_in_memory q max_age now).0)
  postgres_agrees h m ops id limit max_age now success attempt_err s fits untied w aged small
        untied_now =
      let p = postgres_run codec order int63n h ops in
      let q = run (draws_in_micros int63n) m (map with_limit ops) in
      let r = run-simulated h m ops fits untied s in
      (
        get-alike p q id r,
        claims-alike p q limit now w small untied_now r,
        mark_error codec laws p q r int63n id success attempt_err now w,
        purged-alike p q max_age now (IsMicros-sub now max_age w aged) r,
      )
