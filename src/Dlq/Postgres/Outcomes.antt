-- ===== src/Dlq/Postgres/Outcomes.antt =====
-- The rows that MarkRetried of dlq.postgres.go leaves against the records that memory.go keeps.
use grnoti.Prelude.{
  ℕ, suc, ◌+◌, ◌≡◌, refl, sym, ap, ◌∙◌, Bool, true, false, Option, ok, [], ◌∷◌, ◌++◌, leb,
  if◌then◌else◌, Bool-cases, inl, inr,
}
use grnoti.Database.{micros, IsMicros, IsMicros-add}
use grnoti.Prelude.Int.{pos}
use mathlib.Core.Path.{subst}
use grnoti.Types.{Error}
use grnoti.Backoff.{full_jitter_backoff}
use grnoti.Postgres.{pg_time-pg_timestamptz}
use grnoti.Dlq.{
  DlqStatus, exhausted, resolved, DlqRetryAttempt, DlqEvent, DlqBackoffConfig, retried,
  retry_attempt,
}
use grnoti.Dlq.Postgres.{DlqCodec, DlqRow, row_incremented, finalized_pending, finalized_terminal}
use grnoti.Dlq.Postgres.Handler.{finalized, retried_attempt}
use grnoti.Dlq.Postgres.Rows.{
  DlqLaws, Holds, extended, ended, renewed, draws_in_micros, full_jitter_backoff-micros, if_at,
}

module _ {Json : Type 0} (codec : DlqCodec Json) (laws : DlqLaws codec) where
  -- The row that the two statements of MarkRetried leave, by the outcome.
  module _ (int63n : ℕ → ℕ) (config : DlqBackoffConfig) (r : DlqRow Json) (e : DlqEvent)
      (attempt_err : Option Error) (now : ℕ) (json : Json) (w : IsMicros now)
      (h : Holds codec r e) where
    abbrev new_attempt : Bool → DlqRetryAttempt
    new_attempt success = retried_attempt (row_incremented now r) success attempt_err now

    Holds-terminal :
        (status : DlqStatus) (success : Bool)
        → codec.unmarshal_attempts json ≡ ok (new_attempt success ∷ [])
        → Holds codec
            (finalized_terminal codec status now json (row_incremented now r))
            (record (ended status now e) {
              attempt_history = e.attempt_history ++ (retry_attempt e success attempt_err now ∷ []);
            })
    Holds-terminal status success decoded =
        extended codec laws r (finalized_terminal codec status now json (row_incremented now r)) e
          (record (ended status now e) {
            attempt_history = e.attempt_history ++ (retry_attempt e success attempt_err now ∷ []);
          })
          (new_attempt success) (retry_attempt e success attempt_err now) json h refl refl decoded
          refl refl refl (rw (pg_time-pg_timestamptz now, w) (ap (ended status now) h.fields))

    Holds-pending :
        (next : ℕ)
        → codec.unmarshal_attempts json ≡ ok (new_attempt false ∷ [])
        → Holds codec
            (finalized_pending codec next now json (row_incremented now r))
            (record (renewed (micros next) now e) {
              attempt_history = e.attempt_history ++ (retry_attempt e false attempt_err now ∷ []);
            })
    Holds-pending next decoded =
        extended codec laws r (finalized_pending codec next now json (row_incremented now r)) e
          (record (renewed (micros next) now e) {
            attempt_history = e.attempt_history ++ (retry_attempt e false attempt_err now ∷ []);
          })
          (new_attempt false) (retry_attempt e false attempt_err now) json h refl refl decoded refl
          refl refl
          (rw (pg_time-pg_timestamptz now, pg_time-pg_timestamptz next, w)
            (ap (renewed (micros next) now) h.fields))

    next_time : ℕ → ℕ
    next_time count =
        now + full_jitter_backoff int63n config.retry_delay config.max_retry_delay (pos count)

    -- The rounded time is the one of the rounded draw.
    next_time-micros :
        (count : ℕ)
        → micros (next_time count)
          ≡ now
            + full_jitter_backoff
                (draws_in_micros int63n)
                config.retry_delay
                config.max_retry_delay
                (pos count)
    unfolding next_time
    next_time-micros count =
        IsMicros-add now
          (full_jitter_backoff int63n config.retry_delay config.max_retry_delay (pos count)) w
        ∙ ap (λ d. now + d)
            (full_jitter_backoff-micros int63n config.retry_delay config.max_retry_delay
              (pos count))

    -- The end of a failed attempt, by the most retries and their count.
    abbrev unresolved : ℕ → ℕ → DlqRow Json
    unresolved most count =
        if leb most count
        then finalized_terminal codec exhausted now json (row_incremented now r)
        else finalized_pending codec (next_time count) now json (row_incremented now r)

    Holds-unresolved :
        codec.unmarshal_attempts json ≡ ok (new_attempt false ∷ [])
        → Holds codec
            (unresolved e.max_retries (suc e.retry_count))
            (retried (draws_in_micros int63n) config e false attempt_err now)
    unfolding next_time
    Holds-unresolved decoded = elim (Bool-cases (leb e.max_retries (suc e.retry_count))) [
      | inl p ↦ rw p (Holds-terminal exhausted false decoded)
      | inr p ↦
          rw (p, sym (next_time-micros (suc e.retry_count)))
            (Holds-pending (next_time (suc e.retry_count)) decoded)
    ]

    pub Holds-finalized :
        (success : Bool)
        → codec.unmarshal_attempts json ≡ ok (new_attempt success ∷ [])
        → Holds codec
            (finalized codec int63n config
              (row_incremented now r)
              success
              now
              json
              (row_incremented now r))
            (retried (draws_in_micros int63n) config e success attempt_err now)
    unfolding next_time
    Holds-finalized true decoded = Holds-terminal resolved true decoded
    Holds-finalized false decoded =
        let most : r.max_retries ≡ e.max_retries = ap (λ x. x.max_retries) h.fields in
        let counts : r.retry_count ≡ e.retry_count = ap (λ x. x.retry_count) h.fields in
        let by_record : finalized codec int63n config (row_incremented now r) false now json
              (row_incremented now r)
            ≡ unresolved e.max_retries (suc e.retry_count) =
          if_at (leb r.max_retries (suc r.retry_count))
            (finalized_terminal codec exhausted now json)
            (finalized_pending codec (next_time (suc r.retry_count)) now json)
            (row_incremented now r)
          ∙ ap (λ m. unresolved m (suc r.retry_count)) most
          ∙ ap (λ c. unresolved e.max_retries (suc c)) counts in
        subst (λ x. Holds codec x (retried (draws_in_micros int63n) config e false attempt_err now))
          (sym by_record) (Holds-unresolved decoded)
