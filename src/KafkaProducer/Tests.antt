-- ===== src/KafkaProducer/Tests.antt =====
-- Runs of the Kafka producers.
use grnoti.Prelude.{◌≡◌, refl, false, none, some, Result, ok, [], ◌∷◌, String}
use grnoti.Types.{Error, Event, err_closed, wrapped, validate, err_invalid_event_id}
use grnoti.Service.Tests.{order}
use grnoti.KafkaProducer.{
  KafkaProducer, publish_event, publish_batch, encode_event, encode_batch, close_producer,
}

abbrev producer : KafkaProducer
producer = record { topic = "events"; closed = false }

abbrev by_id : Event → Result Error String
by_id event = ok event.event_id

-- One event without an id stops the whole batch before anything is sent.
bad_event_stops_batch :
    publish_batch by_id (λ n. "1") producer (order ∷ record order { event_id = "" } ∷ []) none none
    ≡ (some (wrapped "grnoti/kafka: batch event 1 ()" err_invalid_event_id), [])
unfolding publish_batch encode_batch encode_event validate
bad_event_stops_batch = refl

closed_publishes_nothing :
    publish_event by_id (λ n. "0") (close_producer producer) order none none ≡ (some err_closed, [])
unfolding publish_event close_producer
closed_publishes_nothing = refl
