-- ===== src/Dlq/Postgres/Refines.antt =====
-- The handler of dlq.postgres.go against the one of memory.go.
use grnoti.Prelude.{
  ℕ, ◌-◌, ◌^◌, ◌<◌, ◌≡◌, refl, sym, ap, ◌∙◌, Bool, true, false, Option, none, some, ok, [], ◌∷◌,
  String, arith, leb, if◌then◌else◌, Bool-cases, inl, inr, eq_refl,
}
use mathlib.Core.Path.{subst}
use grnoti.Prelude.Maps.{Map, lookup, insert, lookup-insert, insert-insert}
use grnoti.Types.{Event, Error}
use grnoti.Database.{served}
use grnoti.Postgres.{pg_int32}
use grnoti.Dlq.{
  Handler, DlqEvent, DlqBackoffConfig, failed_attempt, published, is_retrying, retried, mark_found,
  publish_to_dlq as publish_in_memory, claim_retryable_events as claim_in_memory,
  mark_retried as mark_in_memory, purge_expired_events as purge_in_memory,
}
use grnoti.Dlq.Postgres.{
  DlqCodec, DlqRow, PostgresDlq, increment_found, increment_retry_count, update_by_id,
  row_incremented, claim_rows, purge_rows, int32_of, row_upserted, upsert_dlq_event,
}
use grnoti.Dlq.Postgres.Handler.{
  retried_row, begin_retry, finish_retry, refusal, retried_attempt, finalized, decode_claimed,
  first_row, publish_to_dlq, claim_retryable_events, get_event_by_id, mark_retried,
  purge_expired_events, with_table,
}
use grnoti.Prelude.Sorting.{Untied}
use grnoti.Database.{IsMicros}
use grnoti.Dlq.Postgres.{RowOrder, due_rows}
use grnoti.Dlq.Postgres.Rows.{
  draws_in_micros, DlqLaws, Holds, Holds-decoded, Holds-first_row, Holds-row_upserted,
}
use grnoti.Dlq.Postgres.Outcomes.{Holds-finalized}
use grnoti.Dlq.Postgres.Tables.{
  Permutes, row_time, HoldsAll, HoldsSome, lookup-HoldsSome, insert-HoldsAll, claim_rows-Holds,
  purge_rows-Holds,
}

pub int32_of-small : (n : ℕ) → n < 2 ^ 31 → int32_of n ≡ n
unfolding pg_int32
int32_of-small n small = ground (arith, small)

module _ {Json : Type 0} (codec : DlqCodec Json) (laws : DlqLaws codec) where
  row-published :
      (config : DlqBackoffConfig) (event : Event) (reason : String) (now : ℕ) (body history : Json)
      (old : Option (DlqRow Json)) (e : Option DlqEvent)
      → IsMicros now
      → IsMicros config.retry_delay
      → config.max_retries < 2 ^ 31
      → codec.is_empty body ≡ false
      → codec.unmarshal_event body ≡ ok event
      → codec.is_empty history ≡ false
      → codec.unmarshal_attempts history ≡ ok (failed_attempt 0 now reason ∷ [])
      → HoldsSome codec old e
      → Holds codec
          (row_upserted codec (first_row codec config event reason now body history) old)
          (published config event reason now e)
  row-published config event reason now body history none none w v small f b fh bh h =
      Holds-first_row codec laws config event reason now body history w v
        (int32_of-small config.max_retries small) f b fh bh
  row-published config event reason now body history (some old) (some e) w v small f b fh bh h =
      Holds-row_upserted codec laws config event reason now body history old e w h bh
  row-published config event reason now body history none (some e) w v small f b fh bh h =
      ground (arith, h)
  row-published config event reason now body history (some old) none w v small f b fh bh h =
      ground (arith, h)

module _ {Pool Json : Type 0} (codec : DlqCodec Json) where
  -- A handler that is not closed, with the configuration and the records of one in memory.
  pub record Simulates (h : PostgresDlq Pool Json) (m : Handler) : Type 0 where
    pub live : h.store.closed ≡ false
    pub configured : h.config ≡ m.config
    pub whole_delay : IsMicros m.config.retry_delay
    pub small : m.config.max_retries < 2 ^ 31
    pub rows : HoldsAll codec h.store.table m.events

  -- A step that leaves the table with these rows.
  step-simulates :
      {A : Type 0} (h : PostgresDlq Pool Json) (m : Handler) (r : A × PostgresDlq Pool Json) (a : A)
      (table : Map (DlqRow Json)) (events : Map DlqEvent)
      → r ≡ (a, with_table codec h table)
      → Simulates h m
      → HoldsAll codec table events
      → Simulates r.1 (record m { events = events })
  step-simulates h m r a table events done_as s rows =
      subst (λ (x : _ × PostgresDlq Pool Json). Simulates x.1 (record m { events = events }))
        (sym done_as)
        (record {
          live = s.live;
          configured = s.configured;
          whole_delay = s.whole_delay;
          small = s.small;
          rows = rows;
        })

  module _ (laws : DlqLaws codec) (h : PostgresDlq Pool Json) (m : Handler)
      (s : Simulates h m) where
    pub publish-simulates :
        (event : Event) (reason : String) (now : ℕ)
        → IsMicros now
        → Simulates
            (publish_to_dlq codec served h event reason now).1
            (publish_in_memory m event reason now)
    unfolding publish_to_dlq publish_in_memory upsert_dlq_event
    publish-simulates event reason now w =
        let body = laws.event_back event in
        let history = laws.attempts_back (failed_attempt 0 now reason ∷ []) in
        let new = first_row codec h.config event reason now body.0 history.0 in
        let id = event.event_id in
        let old = lookup id h.store.table in
        let e = lookup id m.events in
        let small : h.config.max_retries < 2 ^ 31 =
          subst (λ (c : DlqBackoffConfig). c.max_retries < 2 ^ 31) (sym s.configured) s.small in
        let delay : IsMicros h.config.retry_delay =
          subst (λ (c : DlqBackoffConfig). IsMicros c.retry_delay) (sym s.configured)
            s.whole_delay in
        let held =
          subst
            (λ (c : DlqBackoffConfig).
              Holds codec (row_upserted codec new old) (published c event reason now e))
            s.configured
            (row-published codec laws h.config event reason now body.0 history.0 old e w delay small
              body.2 body.3 history.2 history.3
              (lookup-HoldsSome codec id h.store.table m.events s.rows)) in
        step-simulates h m (publish_to_dlq codec served h event reason now) none
          (insert id (row_upserted codec new old) h.store.table) _
          (simp (s.live, body.1, history.1) refl) s
          (insert-HoldsAll codec id (row_upserted codec new old) _ h.store.table m.events held
            s.rows)

    pub claim-simulates :
        (order : RowOrder Json) (limit now : ℕ)
        → Permutes order
        → Untied row_time (due_rows now h.store.table)
        → IsMicros now
        → limit < 2 ^ 31
        → let batch = if leb limit 0 then 10 else limit in
          Simulates
            (claim_retryable_events codec served order h limit now).1
            (claim_in_memory m batch now).1
    unfolding claim_retryable_events claim_in_memory
    claim-simulates order limit now permutes untied w fits =
        let batch = if leb limit 0 then 10 else limit in
        step-simulates h m (claim_retryable_events codec served order h limit now)
          (decode_claimed codec (claim_rows order batch now h.store.table).0)
          (claim_rows order batch now h.store.table).1 _
          (simp (s.live, int32_of-small batch (ground (arith, fits))) refl) s
          (claim_rows-Holds codec order batch now h.store.table m.events permutes untied
            (ground arith) w s.rows).1

    pub purge-simulates :
        (max_age now : ℕ)
        → IsMicros (now - max_age)
        → Simulates
            (purge_expired_events codec served h max_age now).1
            (purge_in_memory m max_age now).1
    unfolding purge_expired_events purge_in_memory
    purge-simulates max_age now w =
        step-simulates h m (purge_expired_events codec served h max_age now)
          (ok (purge_rows (now - max_age) h.store.table).0)
          (purge_rows (now - max_age) h.store.table).1 _ (simp (s.live) refl) s
          (purge_rows-Holds codec (now - max_age) h.store.table m.events w s.rows).1

    module _ (int63n : ℕ → ℕ) (id : String) (success : Bool) (attempt_err : Option Error) (now : ℕ)
        (w : IsMicros now) where
      abbrev marked : Option Error × PostgresDlq Pool Json
      marked = mark_retried codec served served served int63n h id success attempt_err now

      -- A row that is not claimed stays, whatever the answer is.
      unclaimed-simulates :
          (found : Option (DlqRow Json))
          → lookup id h.store.table ≡ found
          → increment_found id now h.store.table found ≡ (none, h.store.table)
          → Simulates marked.1 m
      unfolding mark_retried begin_retry increment_retry_count get_event_by_id
      unclaimed-simulates found e kept =
          step-simulates h m marked (some (refusal (get_event_by_id codec served h id)))
            h.store.table m.events (simp (s.live, e, kept) refl) s s.rows

      begun-claimed :
          (r : DlqRow Json)
          → lookup id h.store.table ≡ some r
          → is_retrying r.status ≡ true
          → begin_retry codec served served h id now ≡ (
            ok (row_incremented now r),
            with_table codec h (insert id (row_incremented now r) h.store.table),
          )
      unfolding begin_retry increment_retry_count
      begun-claimed r found claimed = simp (s.live, found, claimed) refl

      finished :
          (row : DlqRow Json) (json : Json)
          → codec.marshal_attempts (retried_attempt row success attempt_err now ∷ []) ≡ ok json
          → let table = insert id row h.store.table in
            let final = finalized codec int63n h.config row success now json row in
            finish_retry codec served int63n
              (with_table codec h table)
              id
              row
              success
              attempt_err
              now
            ≡ (none, with_table codec h (insert id final table))
      unfolding finish_retry update_by_id
      finished row json encoded =
          simp (encoded, lookup-insert id id row h.store.table, eq_refl id) refl

      marked-claimed :
          (r : DlqRow Json) (json : Json)
          → lookup id h.store.table ≡ some r
          → is_retrying r.status ≡ true
          → codec.marshal_attempts
              (retried_attempt (row_incremented now r) success attempt_err now ∷ [])
            ≡ ok json
          → let row = row_incremented now r in
            let final = finalized codec int63n h.config row success now json row in
            marked ≡ (none, with_table codec h (insert id final (insert id row h.store.table)))
      unfolding mark_retried
      marked-claimed r json found claimed encoded =
          ap (retried_row codec served int63n id success attempt_err now)
            (begun-claimed r found claimed)
          ∙ finished (row_incremented now r) json encoded

      claimed-simulates :
          (r : DlqRow Json) (e : DlqEvent)
          → lookup id h.store.table ≡ some r
          → Holds codec r e
          → is_retrying r.status ≡ true
          → Simulates marked.1 (record m {
            events =
                insert id
                  (retried (draws_in_micros int63n) m.config e success attempt_err now)
                  m.events;
          })
      claimed-simulates r e found held claimed =
          let row = row_incremented now r in
          let attempts = laws.attempts_back (retried_attempt row success attempt_err now ∷ []) in
          let final = finalized codec int63n h.config row success now attempts.0 row in
          let held_final =
            subst
              (λ (c : DlqBackoffConfig).
                Holds codec final (retried (draws_in_micros int63n) c e success attempt_err now))
              s.configured
              (Holds-finalized codec laws int63n h.config r e attempt_err now attempts.0 w held
                success attempts.3) in
          step-simulates h m marked none (insert id final (insert id row h.store.table)) _
            (marked-claimed r attempts.0 found claimed attempts.1) s
            (rw (insert-insert id final row h.store.table)
              (insert-HoldsAll codec id final _ h.store.table m.events held_final s.rows))

      found-simulates :
          (found : Option (DlqRow Json)) (e : Option DlqEvent)
          → lookup id h.store.table ≡ found
          → HoldsSome codec found e
          → Simulates marked.1
              (mark_found (draws_in_micros int63n) m id success attempt_err now e).1
      found-simulates none none same held = unclaimed-simulates none same refl
      found-simulates (some r) (some e) same held =
          let status : r.status ≡ e.status = ap (λ x. x.status) held.fields in
          elim (Bool-cases (is_retrying e.status)) [
            | inl p ↦ rw p (claimed-simulates r e same held (ap is_retrying status ∙ p))
            | inr p ↦ rw p (unclaimed-simulates (some r) same (rw (ap is_retrying status ∙ p) refl))
          ]
      found-simulates none (some e) same held = ground (arith, held)
      found-simulates (some r) none same held = ground (arith, held)

      pub mark-simulates :
          Simulates marked.1
            (mark_in_memory (draws_in_micros int63n) m id success attempt_err now).1
      unfolding mark_in_memory
      mark-simulates =
          found-simulates (lookup id h.store.table) (lookup id m.events) refl
            (lookup-HoldsSome codec id h.store.table m.events s.rows)

      -- The error of MarkRetried.
      mark_error_of :
          (found : Option (DlqRow Json)) (e : Option DlqEvent)
          → lookup id h.store.table ≡ found
          → HoldsSome codec found e
          → marked.0 ≡ (mark_found (draws_in_micros int63n) m id success attempt_err now e).0
      unfolding mark_retried begin_retry increment_retry_count get_event_by_id
      mark_error_of none none same held = simp (s.live, same) refl
      mark_error_of (some r) (some e) same held =
          let status : r.status ≡ e.status = ap (λ x. x.status) held.fields in
          elim (Bool-cases (is_retrying e.status)) [
            | inl p ↦
                let row = row_incremented now r in
                let attempts =
                  laws.attempts_back (retried_attempt row success attempt_err now ∷ []) in
                rw p (
                  ap (λ (x : Option Error × PostgresDlq Pool Json). x.0)
                    (marked-claimed r attempts.0 same (ap is_retrying status ∙ p) attempts.1))
            | inr p ↦
                simp (p, s.live, same, ap is_retrying status ∙ p, (Holds-decoded codec r e held).1)
                  refl
          ]
      mark_error_of none (some e) same held = ground (arith, held)
      mark_error_of (some r) none same held = ground (arith, held)

      pub mark_error :
          marked.0 ≡ (mark_in_memory (draws_in_micros int63n) m id success attempt_err now).0
      unfolding mark_in_memory
      mark_error =
          mark_error_of (lookup id h.store.table) (lookup id m.events) refl
            (lookup-HoldsSome codec id h.store.table m.events s.rows)
