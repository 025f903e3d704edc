-- ===== src/Events.antt =====
-- events.go: the best-effort publication of lifecycle events. A nil bus publishes nothing, and
-- what the bus answers is only logged.
use grnoti.Prelude.{ℕ, Bool, [], ◌∷◌, eqb, if◌then◌else◌}
use grnoti.Types.{SentPayload, FailedPayload, AssignedPayload, sent, failed, assigned}
use grnoti.Calls.{Go, publish, pure, tell, read_clock, ◌>>=◌}

-- The zero time is replaced by the clock's.
abbrev stamp : ℕ → ℕ → ℕ
stamp timestamp now = if eqb timestamp 0 then now else timestamp

unfoldable pub publish_sent : Bool → SentPayload → Go (Unit {0})
publish_sent has_bus p =
    if has_bus
    then (do
      now ← read_clock
      tell (
          publish (record {
            topic = "notification.sent";
            payload = sent (record p { timestamp = stamp p.timestamp now });
            metadata = ("event_id", p.event_id) ∷ ("event_type", p.event_type) ∷ [];
          })))
    else pure tt

unfoldable pub publish_failed : Bool → FailedPayload → Go (Unit {0})
publish_failed has_bus p =
    if has_bus
    then (do
      now ← read_clock
      tell (
          publish (record {
            topic = "notification.failed";
            payload = failed (record p { timestamp = stamp p.timestamp now });
            metadata = ("event_id", p.event_id) ∷ ("event_type", p.event_type) ∷ [];
          })))
    else pure tt

unfoldable pub publish_assigned : Bool → AssignedPayload → Go (Unit {0})
publish_assigned has_bus p =
    if has_bus
    then (do
      now ← read_clock
      tell (
          publish (record {
            topic = "experiment.assigned";
            payload = assigned (record p { timestamp = stamp p.timestamp now });
            metadata =
                ("user_id", p.user_id)
                ∷ ("experiment_id", p.experiment_id)
                ∷ ("variant_id", p.variant_id)
                ∷ [];
          })))
    else pure tt
