-- ===== src/Dlq/Postgres/Rows.antt =====
-- The rows of dlq.postgres.go against the records of memory.go. Only the number of an attempt may
-- differ: for a failure of an event that is in the queue, PublishToDLQ of memory.go writes the
-- retry count, and that of dlq.postgres.go writes 0.
use grnoti.Prelude.{
  ℕ, suc, ◌+◌, ◌≡◌, refl, sym, ap, ◌∙◌, Bool, true, false, some, ok, List, [], ◌∷◌, ◌++◌, map,
  String, leb, if◌then◌else◌, Bool-cases, inl, inr,
}
use grnoti.Database.{whole, micros, IsMicros, IsMicros-add}
use grnoti.Prelude.Int.{ℤ}
use grnoti.Types.{Event}
use grnoti.Backoff.{full_jitter_backoff}
use grnoti.Postgres.{pg_time-pg_timestamptz}
use grnoti.Dlq.{
  DlqStatus, pending, DlqRetryAttempt, DlqEvent, DlqBackoffConfig, failed_attempt, first_failure,
  failed_again, claimed,
}
use grnoti.Dlq.Postgres.{
  DlqCodec, DlqRow, int32_of, row_upserted, row_claimed, decode_event, dlq_event_of,
  dlq_row_to_domain,
}
use grnoti.Dlq.Postgres.Handler.{first_row}

-- What the handler relies on in encoding/json and in the concatenation of jsonb arrays.
pub record DlqLaws {Json : Type 0} (codec : DlqCodec Json) : Type 0 where
  pub event_back :
      (event : Event)
      → (json : Json) × (codec.marshal_event event ≡ ok json)
        × (codec.is_empty json ≡ false)
        × (codec.unmarshal_event json ≡ ok event)
  pub attempts_back :
      (attempts : List DlqRetryAttempt)
      → (json : Json) × (codec.marshal_attempts attempts ≡ ok json)
        × (codec.is_empty json ≡ false)
        × (codec.unmarshal_attempts json ≡ ok attempts)
  pub join_back :
      (a b : Json) (xs ys : List DlqRetryAttempt)
      → codec.unmarshal_attempts a ≡ ok xs
      → codec.unmarshal_attempts b ≡ ok ys
      → (codec.is_empty (codec.joined_arrays a b) ≡ false)
        × (codec.unmarshal_attempts (codec.joined_arrays a b) ≡ ok (xs ++ ys))

abbrev pub unnumbered : DlqRetryAttempt → DlqRetryAttempt
unnumbered a = record a { attempt_number = 0 }

abbrev pub bare : DlqEvent → DlqEvent
bare e = record e { attempt_history = [] }

-- Two records that differ in the numbers of attempts at most.
abbrev pub Alike : DlqEvent → DlqEvent → Type 0
Alike e f =
    (bare e ≡ bare f) × (map unnumbered e.attempt_history ≡ map unnumbered f.attempt_history)

map-unnumbered :
    (xs ys : List DlqRetryAttempt)
    → map unnumbered (xs ++ ys) ≡ map unnumbered xs ++ map unnumbered ys
map-unnumbered [] ys = refl
map-unnumbered (x ∷ xs) ys = ap (λ zs. unnumbered x ∷ zs) (map-unnumbered xs ys)

unnumbered_extended :
    (xs ys : List DlqRetryAttempt) (a b : DlqRetryAttempt)
    → map unnumbered xs ≡ map unnumbered ys
    → unnumbered a ≡ unnumbered b
    → map unnumbered (xs ++ (a ∷ [])) ≡ map unnumbered (ys ++ (b ∷ []))
unnumbered_extended xs ys a b same one =
    map-unnumbered xs (a ∷ [])
    ∙ ap (λ zs. zs ++ (unnumbered a ∷ [])) same
    ∙ ap (λ c. map unnumbered ys ++ (c ∷ [])) one
    ∙ sym (map-unnumbered ys (b ∷ []))

-- A source of random numbers that are rounded down to whole microseconds.
abbrev pub draws_in_micros : (ℕ → ℕ) → ℕ → ℕ
draws_in_micros int63n n = micros (int63n n)

pub full_jitter_backoff-micros :
    (int63n : ℕ → ℕ) (base max_backoff : ℕ) (attempt : ℤ)
    → micros (full_jitter_backoff int63n base max_backoff attempt)
      ≡ full_jitter_backoff (draws_in_micros int63n) base max_backoff attempt
unfolding full_jitter_backoff whole
full_jitter_backoff-micros int63n base max_backoff attempt = elim (Bool-cases (leb base 0)) [
  | inl p ↦ rw p refl
  | inr p ↦ rw p refl
]

pub if_at :
    {A : Type 0} (b : Bool) (f g : A → A) (a : A)
    → (if b then f else g) a ≡ (if b then f a else g a)
if_at true f g a = refl
if_at false f g a = refl

-- What the operations do to the fields of a record but its history.
abbrev failed_at : String → ℕ → DlqEvent → DlqEvent
failed_at reason now e = record e {
  failure_reason = reason;
  last_attempt_at = now;
  updated_at = now;
}

abbrev pub ended : DlqStatus → ℕ → DlqEvent → DlqEvent
ended status now e = record e {
  status = status;
  retry_count = suc e.retry_count;
  last_attempt_at = now;
  updated_at = now;
}

abbrev pub renewed : ℕ → ℕ → DlqEvent → DlqEvent
renewed next now e = record (ended pending now e) { next_retry_at = next }

module _ {Json : Type 0} (codec : DlqCodec Json) where
  -- The row holds the record. Its history is not an empty text, and decodes.
  pub record Holds (r : DlqRow Json) (e : DlqEvent) : Type 0 where
    pub attempts : List DlqRetryAttempt
    pub event_decoded : decode_event codec r ≡ ok e.event
    pub filled : codec.is_empty r.attempt_history ≡ false
    pub history_decoded : codec.unmarshal_attempts r.attempt_history ≡ ok attempts
    pub numbered : map unnumbered attempts ≡ map unnumbered e.attempt_history
    pub fields : dlq_event_of r e.event [] ≡ bare e

  pub Holds-decoded :
      (r : DlqRow Json) (e : DlqEvent)
      → Holds r e
      → (f : DlqEvent) × (dlq_row_to_domain codec r ≡ ok f) × Alike f e
  unfolding dlq_row_to_domain
  Holds-decoded r e h = (
    dlq_event_of r e.event h.attempts,
    rw (h.event_decoded, h.filled, h.history_decoded) refl,
    (h.fields, h.numbered),
  )

  pub Holds-claimed :
      (now : ℕ) (r : DlqRow Json) (e : DlqEvent)
      → IsMicros now
      → Holds r e
      → Holds (row_claimed now r) (claimed now e)
  Holds-claimed now r e w h = record {
    attempts = h.attempts;
    event_decoded = h.event_decoded;
    filled = h.filled;
    history_decoded = h.history_decoded;
    numbered = h.numbered;
    fields = rw (pg_time-pg_timestamptz now, w) (ap (claimed now) h.fields);
  }

  module _ (laws : DlqLaws codec) where
    -- A row whose history is extended, and the record whose history is.
    pub extended :
        (r s : DlqRow Json) (e f : DlqEvent) (a b : DlqRetryAttempt) (json : Json)
        → Holds r e
        → decode_event codec s ≡ decode_event codec r
        → s.attempt_history ≡ codec.joined_arrays r.attempt_history json
        → codec.unmarshal_attempts json ≡ ok (a ∷ [])
        → unnumbered a ≡ unnumbered b
        → f.event ≡ e.event
        → f.attempt_history ≡ e.attempt_history ++ (b ∷ [])
        → dlq_event_of s f.event [] ≡ bare f
        → Holds s f
    extended r s e f a b json h decode_same joined decoded same event_same history_same fields =
        let back =
          laws.join_back r.attempt_history json h.attempts (a ∷ []) h.history_decoded decoded in
        record {
          attempts = h.attempts ++ (a ∷ []);
          event_decoded = decode_same ∙ h.event_decoded ∙ ap ok (sym event_same);
          filled = ap codec.is_empty joined ∙ back.0;
          history_decoded = ap codec.unmarshal_attempts joined ∙ back.1;
          numbered =
              unnumbered_extended h.attempts e.attempt_history a b h.numbered same
              ∙ ap (map unnumbered) (sym history_same);
          fields = fields;
        }

    -- The row of a first failure.
    pub Holds-first_row :
        (config : DlqBackoffConfig) (event : Event) (reason : String) (now : ℕ)
        (body history : Json)
        → IsMicros now
        → IsMicros config.retry_delay
        → int32_of config.max_retries ≡ config.max_retries
        → codec.is_empty body ≡ false
        → codec.unmarshal_event body ≡ ok event
        → codec.is_empty history ≡ false
        → codec.unmarshal_attempts history ≡ ok (failed_attempt 0 now reason ∷ [])
        → Holds
            (first_row codec config event reason now body history)
            (first_failure config event reason now)
    Holds-first_row config event reason now body history w v small filled back has_history
          back_history =
        record {
          attempts = failed_attempt 0 now reason ∷ [];
          event_decoded = rw (filled, back) refl;
          filled = has_history;
          history_decoded = back_history;
          numbered = refl;
          fields =
              rw
                (
                  small,
                  pg_time-pg_timestamptz now,
                  pg_time-pg_timestamptz (now + config.retry_delay),
                  IsMicros-add now config.retry_delay w,
                  w,
                  v,
                )
                refl;
        }

    -- The row of one more failure.
    pub Holds-row_upserted :
        (config : DlqBackoffConfig) (event : Event) (reason : String) (now : ℕ)
        (body history : Json) (old : DlqRow Json) (e : DlqEvent)
        → IsMicros now
        → Holds old e
        → codec.unmarshal_attempts history ≡ ok (failed_attempt 0 now reason ∷ [])
        → Holds
            (row_upserted codec (first_row codec config event reason now body history) (some old))
            (failed_again e reason now)
    Holds-row_upserted config event reason now body history old e w h decoded =
        extended old
          (row_upserted codec (first_row codec config event reason now body history) (some old)) e
          (failed_again e reason now) (failed_attempt 0 now reason)
          (failed_attempt e.retry_count now reason) history h refl refl decoded refl refl refl
          (rw (pg_time-pg_timestamptz now, w) (ap (failed_at reason now) h.fields))
