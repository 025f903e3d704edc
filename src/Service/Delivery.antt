-- ===== src/Service/Delivery.antt =====
-- What processEvent of service.go promises over one run and over redeliveries of an event.
use grnoti.Prelude.{
  ℕ, ◌≡◌, ap, ◌∙◌, ◌≢◌, inl, inr, Bool, true, false, ◌||◌, List, [], ◌∷◌, Option, none, some,
  String, ◌==◌, eq_refl, ok, arith, if◌then◌else◌,
}
use grnoti.Types.{Error, Event, validate, ProcessingResult}
use grnoti.Calls.{History, Env, is_processed}
use grnoti.Service.{Service}
use grnoti.Service.Pipeline.{fresh_result, check_valid, check_processed, process_event, skip_event}
use grnoti.Service.Tally.{sends, marked, dead_letters, Quiet, goes_to_dlq, skip_event-Quiet}
use grnoti.Service.Effect.{process_event-Run}

-- A run that returns an error has sent nothing, marked nothing as processed and put nothing on the
-- dead-letter queue, so that the event can be delivered again.
pub error-Quiet :
    (s : Service) (event : Event) (env : Env) (h : History) (e : Error)
    → (process_event s event env h).0.1 ≡ some e
    → Quiet h (process_event s event env h).1
error-Quiet s event env h e failed = elim (process_event-Run s event env h) [
  | inl u ↦ u.0
  | inr c ↦ absurd (cc (c.no_error, failed))
]

-- On every run, whatever the environment answers, PublishToDLQ is called for the event once if
-- EnableDLQ is set, a handler is configured and the reported dispatch result has more failures than
-- invalid FIDs, and it is not called otherwise. A call counts whether it succeeds or not.
pub dead_letters-process_event :
    (s : Service) (event : Event) (env : Env) (h : History)
    → let x = process_event s event env h in
      dead_letters x.1
      ≡ (if goes_to_dlq s x.0.0.dispatch_result then event ∷ dead_letters h else dead_letters h)
dead_letters-process_event s event env h = elim (process_event-Run s event env h) [
  | inl u ↦ rw u.1 (ground (arith, u.0))
  | inr c ↦ c.dead_lettered
]

-- A run that sent anything has marked its event as processed, once, and returns no error.
pub send-marks :
    (s : Service) (event : Event) (env : Env) (h : History)
    → sends (process_event s event env h).1 ≢ sends h
    → (marked (process_event s event env h).1 ≡ event.event_id ∷ marked h)
      × ((process_event s event env h).0.1 ≡ none)
send-marks s event env h sent = elim (process_event-Run s event env h) [
  | inl u ↦ absurd (sent u.0.sends_same)
  | inr c ↦ (c.marked_once, c.no_error)
]

abbrev pub contains : List String → String → Bool
contains [] id = false
contains (other ∷ ids) id = (other == id) || contains ids id

-- The idempotency store answers, and knows each event that was marked; no mark expires.
abbrev pub Remembers : Env → Type 0
Remembers env =
    (h : History) (id : String) → env.is_processed_reply h id ≡ ok (contains (marked h) id)

-- The events one after the other.
unfoldable pub process_all : Service → List Event → Env → History → History
process_all s [] env h = h
process_all s (event ∷ events) env h = process_all s events env (process_event s event env h).1

process_event-contains :
    (s : Service) (event : Event) (env : Env) (h : History) (id : String)
    → contains (marked h) id ≡ true
    → contains (marked (process_event s event env h).1) id ≡ true
process_event-contains s event env h id known = elim (process_event-Run s event env h) [
  | inl u ↦ rw u.0.marked_same known
  | inr c ↦ rw c.marked_once (ground arith)
]

process_all-contains :
    (s : Service) (events : List Event) (env : Env) (h : History) (id : String)
    → contains (marked h) id ≡ true
    → contains (marked (process_all s events env h)) id ≡ true
unfolding process_all
process_all-contains s [] env h id known = known
process_all-contains s (e ∷ es) env h id known =
    process_all-contains s es env (process_event s e env h).1 id
      (process_event-contains s e env h id known)

processed_sends_nothing :
    (s : Service) (event : Event) (r : ProcessingResult) (start : ℕ) (e : Option Error) (env : Env)
    (h : History)
    → env.is_processed_reply h event.event_id ≡ ok true
    → sends (check_valid s event r start e env h).1 ≡ sends h
unfolding check_valid skip_event
processed_sends_nothing s event r start (some e) env h p = ground arith
processed_sends_nothing s event r start none env h p = rw p (
    unfold check_processed in
    (skip_event-Quiet s r start "already_processed" env
      (is_processed event.event_id ∷ h)).sends_same)

-- With a store that remembers, once a run has sent anything for an event, delivering the event
-- again sends nothing, whatever other events were processed in between.
pub redelivery_sends_nothing :
    (s : Service) (event : Event) (between : List Event) (env : Env) (h : History)
    → Remembers env
    → sends (process_event s event env h).1 ≢ sends h
    → let later = process_all s between env (process_event s event env h).1 in
      sends (process_event s event env later).1 ≡ sends later
unfolding process_event
redelivery_sends_nothing s event between env h remembers sent =
    let first = (process_event s event env h).1 in
    let later = process_all s between env first in
    let here : contains (marked first) event.event_id ≡ true =
      rw (send-marks s event env h sent).0 (rw (eq_refl event.event_id)) in
    processed_sends_nothing s event (fresh_result event (env.now later)) (env.now later)
      (validate event) env later
      (remembers later event.event_id
        ∙ ap ok (process_all-contains s between env first event.event_id here))
