-- ===== src/Service/Effect.antt =====
-- The effects of processEvent, stage by stage from the last one back.
use grnoti.Prelude.{
  ℕ, ◌-◌, ◌≡◌, refl, ◌⊎◌, inl, inr, Bool, true, false, List, [], ◌∷◌, Option, none, some, String,
  Result, ok, err, concat, arith, if◌then◌else◌, Bool-cases, if_both,
}
use grnoti.Types.{
  Error, error_text, Event, Device, Message, DispatchResult, ProcessingResult, no_dispatch, Target,
  device_target, topic_target, validate,
}
use grnoti.Calls.{
  History, Env, Go, mark_processed, send, is_processed, build_message, resolve_target, pure,
}
use grnoti.TopicRouter.{resolve_devices_for_event}
use grnoti.BatchSplitter.{split}
use grnoti.Service.{Service}
use grnoti.Service.Effects.{mark_invalid_fids, publish_to_dlq_if_unresolved, record_metrics}
use grnoti.Service.Dispatch.{
  Outcome, send_batches, send_to_recipients, dispatch_to_topic, dispatch_to_devices,
  dispatch_to_target, dispatch_to_resolved, dispatch, recipients, merge_dispatch_result, last_error,
}
use grnoti.Service.Pipeline.{
  Reply, fresh_result, skip_event, mark, settle, conclude, deliver, ask_preferences,
  check_preferences, check_processed, check_valid, process_event, nothing_dispatched,
}
use grnoti.Service.Tally.{
  skip_event_reply, sends, marked, dead_letters, Quiet, Quiet-refl, skip_event-Quiet,
  mark_invalid_fids-Quiet, record_metrics-Quiet, publish_lifecycle_event-Quiet,
  ask_preferences-Quiet, resolve_devices-Quiet, goes_to_dlq, publish_to_dlq_effect,
}

-- A dispatch marks and dead-letters nothing.
record Keeps (h h' : History) : Type 0 where
  pub marked_same : marked h' ≡ marked h
  pub dead_letters_same : dead_letters h' ≡ dead_letters h

send_batches-Keeps :
    (batches : List (List Device)) (msg : Message) (d : DispatchResult) (last : Option Error)
    (env : Env) (h : History)
    → Keeps h (send_batches batches msg d last env h).1
unfolding send_batches
send_batches-Keeps [] msg d last env h = ground arith
send_batches-Keeps (b ∷ bs) msg d last env h =
    let reply = env.send_reply h b msg in
    ground (
      arith,
      send_batches-Keeps bs msg (merge_dispatch_result d reply.0) (last_error last reply.1) env
          (send b msg ∷ h),
    )

dispatch_to_devices-Keeps :
    (s : Service) (ds : List Device) (msg : Message) (env : Env) (h : History)
    → Keeps h (dispatch_to_devices s ds msg env h).1
unfolding dispatch_to_devices send_to_recipients
dispatch_to_devices-Keeps s ds msg env h = ground (
  arith,
  send_batches-Keeps (split (recipients s ds) s.config.max_devices_per_batch) msg no_dispatch none
      env h,
)

dispatch_to_target-Keeps :
    (s : Service) (msg : Message) (target : Result Error Target) (env : Env) (h : History)
    → Keeps h (dispatch_to_target s msg target env h).1
unfolding dispatch_to_target dispatch_to_topic
dispatch_to_target-Keeps s msg (err e) env h = ground arith
dispatch_to_target-Keeps s msg (ok (topic_target topic)) env h = ground arith
dispatch_to_target-Keeps s msg (ok (device_target ds)) env h =
    dispatch_to_devices-Keeps s ds msg env h

dispatch_to_resolved-Keeps :
    (s : Service) (msg : Message) (devices : Result Error (List Device)) (env : Env) (h : History)
    → Keeps h (dispatch_to_resolved s msg devices env h).1
unfolding dispatch_to_resolved
dispatch_to_resolved-Keeps s msg (err e) env h = ground arith
dispatch_to_resolved-Keeps s msg (ok ds) env h = dispatch_to_devices-Keeps s ds msg env h

dispatch-Keeps :
    (s : Service) (event : Event) (msg : Message) (env : Env) (h : History)
    → Keeps h (dispatch s event msg env h).1
unfolding dispatch
dispatch-Keeps s event msg env h =
    let found = resolve_devices_for_event event env h in
    ground (
      arith,
      dispatch_to_target-Keeps s msg (env.resolve_target_reply h event) env
          (resolve_target event ∷ h),
      resolve_devices-Quiet event env h,
      dispatch_to_resolved-Keeps s msg found.0 env found.1,
    )

-- What a run that reached the dispatch leaves: the event marked, no error, and an entry on the
-- dead-letter queue as the reported dispatch result asks for.
pub record Settled (s : Service) (event : Event) (h : History) (x : Reply × History) : Type 0 where
  pub settled_marked : marked x.1 ≡ event.event_id ∷ marked h
  pub settled_dead_letters :
      dead_letters x.1
      ≡ (if goes_to_dlq s x.0.0.dispatch_result then event ∷ dead_letters h else dead_letters h)
  pub settled_error : x.0.1 ≡ none
  pub settled_sends : sends x.1 ≡ sends h

pub settle-Settled :
    (s : Service) (event : Event) (r : ProcessingResult) (start latency : ℕ) (o : Outcome)
    (env : Env) (h : History)
    → Settled s event h (settle s event r start latency o env h)
unfolding settle mark
settle-Settled s event r start latency o env h =
    let d = o.dispatch_result in
    let h₁ = (mark_invalid_fids d.invalid_fids env h).1 in
    let h₂ = (publish_to_dlq_if_unresolved s event d env h₁).1 in
    let h₃ = (record_metrics s event d latency env h₂).1 in
    ground (
      arith,
      mark_invalid_fids-Quiet d.invalid_fids env h,
      publish_to_dlq_effect s event d env h₁,
      record_metrics-Quiet s event d latency env h₂,
      publish_lifecycle_event-Quiet s event d env h₃,
    )

pub settle_reply :
    (s : Service) (event : Event) (r : ProcessingResult) (start latency : ℕ) (o : Outcome)
    (env : Env) (h : History)
    → let reply = (settle s event r start latency o env h).0 in
      (reply.1 ≡ none)
      × (reply.0.skipped ≡ r.skipped)
      × (reply.0.dispatch_result ≡ o.dispatch_result)
unfolding settle
settle_reply s event r start latency o env h = (refl, refl, refl)

skipped-Settled :
    (s : Service) (event : Event) (r : ProcessingResult) (start : ℕ) (env : Env) (h : History)
    → r.dispatch_result ≡ no_dispatch
    → Settled s event h (skip_event s r start "no_active_devices" env (mark s event env h).1)
unfolding mark
skipped-Settled s event r start env h fresh =
    let h' = mark_processed event.event_id s.config.idempotency_ttl ∷ h in
    ground (
      arith,
      skip_event_reply s r start "no_active_devices" env h',
      skip_event-Quiet s r start "no_active_devices" env h',
    )

conclude-Settled :
    (s : Service) (event : Event) (r : ProcessingResult) (start latency : ℕ) (o : Outcome)
    (env : Env) (h : History)
    → r.dispatch_result ≡ no_dispatch
    → Settled s event h (conclude s event r start latency o env h)
unfolding conclude
conclude-Settled s event r start latency o env h fresh = elim (Bool-cases (nothing_dispatched o)) [
  | inl idle ↦ rw idle (skipped-Settled s event r start env h fresh)
  | inr busy ↦ rw busy (settle-Settled s event r start latency o env h)
]

-- A run: either it changed nothing outside and reports no dispatch, or it settled the event.
abbrev pub Untouched : History → Reply × History → Type 0
Untouched h x = Quiet h x.1 × (x.0.0.dispatch_result ≡ no_dispatch)

-- As `Settled`, with whatever was sent in between.
pub record Concluded (s : Service) (event : Event) (h : History) (x : Reply × History)
    : Type 0 where
  pub marked_once : marked x.1 ≡ event.event_id ∷ marked h
  pub dead_lettered :
      dead_letters x.1
      ≡ (if goes_to_dlq s x.0.0.dispatch_result then event ∷ dead_letters h else dead_letters h)
  pub no_error : x.0.1 ≡ none

abbrev pub Run : Service → Event → History → Reply × History → Type 0
Run s event h x = Untouched h x ⊎ Concluded s event h x

deliver-Run :
    (s : Service) (event : Event) (r : ProcessingResult) (start : ℕ) (m : Result Error Message)
    (env : Env) (h : History)
    → r.dispatch_result ≡ no_dispatch
    → Run s event h (deliver s event r start m env h)
unfolding deliver
deliver-Run s event r start (err e) env h fresh = inl (Quiet-refl h, fresh)
deliver-Run s event r start (ok msg) env h fresh =
    let d = dispatch s event msg env h in
    let latency = env.now d.1 - env.now h in
    let c = conclude-Settled s event r start latency d.0 env d.1 fresh in
    let k = dispatch-Keeps s event msg env h in
    inr (record {
      marked_once = ground (arith, c, k);
      dead_lettered = ground (arith, c, k);
      no_error = c.settled_error;
    })

skip_event-Run :
    (s : Service) (event : Event) (r : ProcessingResult) (start : ℕ) (reason : String) (env : Env)
    (h h' : History)
    → r.dispatch_result ≡ no_dispatch
    → Quiet h h'
    → Run s event h (skip_event s r start reason env h')
skip_event-Run s event r start reason env h h' fresh q =
    let reply = skip_event_reply s r start reason env h' in
    let q' = skip_event-Quiet s r start reason env h' in
    inl (ground (arith, q, q'), ground (arith, reply, fresh))

deliver-Run_after :
    (s : Service) (event : Event) (r : ProcessingResult) (start : ℕ) (m : Result Error Message)
    (env : Env) (h h' : History)
    → r.dispatch_result ≡ no_dispatch
    → Quiet h h'
    → Run s event h (deliver s event r start m env h')
deliver-Run_after s event r start m env h h' fresh q =
    elim (deliver-Run s event r start m env h' fresh) [
      | inl u ↦ inl (ground (arith, q, u.0), u.1)
      | inr c ↦ inr (record {
        marked_once = ground (arith, c, q);
        dead_lettered = ground (arith, c, q);
        no_error = c.no_error;
      })
    ]

check_preferences-Run :
    (s : Service) (event : Event) (r : ProcessingResult) (start : ℕ) (reason : Option String)
    (env : Env) (h h' : History)
    → r.dispatch_result ≡ no_dispatch
    → Quiet h h'
    → Run s event h (check_preferences s event r start reason env h')
unfolding check_preferences
check_preferences-Run s event r start (some reason) env h h' fresh q =
    skip_event-Run s event r start (reason) env h h' fresh q
check_preferences-Run s event r start none env h h' fresh q =
    deliver-Run_after s event r start (env.build_message_reply h' event) env h
      (build_message event ∷ h') fresh (ground (arith, q))

check_processed-Run :
    (s : Service) (event : Event) (r : ProcessingResult) (start : ℕ) (p : Result Error Bool)
    (env : Env) (h h' : History)
    → r.dispatch_result ≡ no_dispatch
    → Quiet h h'
    → Run s event h (check_processed s event r start p env h')
unfolding check_processed
check_processed-Run s event r start (err e) env h h' fresh q = inl (q, fresh)
check_processed-Run s event r start (ok true) env h h' fresh q =
    skip_event-Run s event r start "already_processed" env h h' fresh q
check_processed-Run s event r start (ok false) env h h' fresh q =
    let asked = ask_preferences s event env h' in
    check_preferences-Run s event r start asked.0 env h asked.1 fresh
      (ground (arith, q, ask_preferences-Quiet s event env h'))

check_valid-Run :
    (s : Service) (event : Event) (r : ProcessingResult) (start : ℕ) (e : Option Error) (env : Env)
    (h : History)
    → r.dispatch_result ≡ no_dispatch
    → Run s event h (check_valid s event r start e env h)
unfolding check_valid
check_valid-Run s event r start (some e) env h fresh =
    let reason = concat "invalid_event: " (error_text e) in
    if_both (λ (m : Go Reply). Run s event h (m env h)) s.config.skip_invalid_events
      (skip_event s r start reason) (pure (r, some e))
      (skip_event-Run s event r start reason env h h fresh (Quiet-refl h))
      (inl (Quiet-refl h, fresh))
check_valid-Run s event r start none env h fresh =
    check_processed-Run s event r start (env.is_processed_reply h event.event_id) env h
      (is_processed event.event_id ∷ h) fresh
      (record { sends_same = refl; marked_same = refl; dead_letters_same = refl })

pub process_event-Run :
    (s : Service) (event : Event) (env : Env) (h : History)
    → Run s event h (process_event s event env h)
unfolding process_event
process_event-Run s event env h =
    check_valid-Run s event (fresh_result event (env.now h)) (env.now h) (validate event) env h refl
