-- ===== src/KafkaConsumer/Tests.antt =====
-- Runs of the Kafka consumer.
use grnoti.Prelude.{
  ◌≡◌, refl, true, false, none, some, Result, ok, err, [], ◌∷◌, if◌then◌else◌, ◌==◌, Option, String,
}
use grnoti.Types.{Error, err_closed, message, Event}
use grnoti.Service.Tests.{order}
use grnoti.KafkaConsumer.{KafkaConsumer, consume_claim, start, close_consumer}

abbrev started : KafkaConsumer
started = record { topics = "events" ∷ []; has_handler = true; ready = true; closed = false }

abbrev decode : String → Result Error Event
decode value =
    if value == "{" then err (message "unexpected end") else ok (record order { event_id = value })

abbrev fails_first : Event → Option Error
fails_first event = if event.event_id == "first" then some err_closed else none

-- The handler fails on offset 5, and offset 6 is marked after it.
later_mark_passes_failure :
    (consume_claim decode fails_first started (
      (record { offset = 5; value = "first" })
      ∷ (record { offset = 6; value = "second" })
      ∷ [])).marked
    ≡ 6 ∷ []
unfolding consume_claim
later_mark_passes_failure = refl

closed_does_not_start : (start (close_consumer started none).1 []).0 ≡ some (some err_closed)
unfolding start close_consumer
closed_does_not_start = refl
