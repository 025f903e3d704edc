-- ===== src/Service/Lost.antt =====
-- A gap of processEvent in service.go: an event whose recipients cannot be looked up.
use grnoti.Prelude.{◌≡◌, true, false, ◌&&◌, ◌∷◌, none, some, ok, err, arith, ◌-◌}
use grnoti.Types.{
  Error, Event, Message, no_dispatch, total_count, validate, has_direct_fids, is_authenticated,
}
use grnoti.Calls.{History, Env, is_processed, build_message, get_active_devices}
use grnoti.TopicRouter.{resolve_devices_for_event}
use grnoti.Service.{Service}
use grnoti.Service.Dispatch.{Outcome, dispatch, dispatch_to_resolved}
use grnoti.Service.Pipeline.{
  fresh_result, check_valid, check_processed, check_preferences, ask_preferences, deliver, conclude,
  process_event,
}
use grnoti.Service.Tally.{sends, marked, dead_letters}
use grnoti.Service.Effect.{settle-Settled, settle_reply}

-- The lookup of the user's devices fails: the dispatch reports an error and counts no failure.
module _ (s : Service) (event : Event) (env : Env) (h : History) (msg : Message) (e : Error)
    (routed : (s.has_topic_router && s.config.enable_topic_routing) ≡ false)
    (unfiltered : (s.has_preferences_filter && s.config.enable_preferences_filter) ≡ false)
    (valid : validate event ≡ none) (for_user : has_direct_fids event ≡ false)
    (known_user : is_authenticated event ≡ true)
    (new : env.is_processed_reply h event.event_id ≡ ok false)
    (rendered : env.build_message_reply (is_processed event.event_id ∷ h) event ≡ ok msg)
    (outage : env.active_devices_reply
        (build_message event ∷ is_processed event.event_id ∷ h)
        event.user_id
      ≡ err e) where
  abbrev at_dispatch : History
  at_dispatch = build_message event ∷ is_processed event.event_id ∷ h

  dispatch_fails : dispatch s event msg env at_dispatch ≡ (
    record { device_count = 0; dispatch_result = no_dispatch; error = some e },
    get_active_devices event.user_id ∷ at_dispatch,
  )
  unfolding dispatch resolve_devices_for_event dispatch_to_resolved
  dispatch_fails = rw routed (rw for_user (rw known_user (rw outage)))

  -- The user's devices cannot be looked up, for a valid new event with no topic routing and no
  -- preferences filter. Then the event is reported as processed, with no error and not as
  -- skipped, and is marked as processed, although nothing was sent and nothing was put on the
  -- dead-letter queue: a redelivery will not retry it.
  pub outage_loses_event :
      let x = process_event s event env h in
      (x.0.1 ≡ none)
      × (x.0.0.skipped ≡ false)
      × (marked x.1 ≡ event.event_id ∷ marked h)
      × (sends x.1 ≡ sends h)
      × (dead_letters x.1 ≡ dead_letters h)
  unfolding process_event check_valid check_processed check_preferences ask_preferences deliver
      conclude total_count
  outage_loses_event =
      let failed : Outcome = record {
        device_count = 0;
        dispatch_result = no_dispatch;
        error = some e;
      } in
      let start = env.now h in
      let h' = get_active_devices event.user_id ∷ at_dispatch in
      let latency = env.now h' - env.now at_dispatch in
      let reply = settle_reply s event (fresh_result event start) start latency failed env h' in
      let effect = settle-Settled s event (fresh_result event start) start latency failed env h' in
      rw (valid, new, unfiltered, rendered, dispatch_fails)
        (
          reply.0,
          reply.1,
          effect.settled_marked,
          effect.settled_sends,
          ground (arith, reply, effect),
        )
