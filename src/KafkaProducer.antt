-- ===== src/KafkaProducer.antt =====
-- producer.kafka.go: kafkaEventProducer and kafkaAnalyticsPublisher. sarama's producer and
-- encoding/json are parameters: a send is part of the result, and its error an argument. `Raw` is
-- the type of the encoded bytes.
pub mod Tests
use grnoti.Prelude.{
  ℕ, suc, Bool, true, false, Option, none, some, Result, ok, err, List, [], ◌∷◌, String, concat,
  length, is_empty, ◌==◌, not, if◌then◌else◌,
}
use grnoti.Prelude.Fallible.{pure, on_err, ◌>>=◌}
use grnoti.Types.{
  Error, message, wrapped, joined, err_closed, err_backend_unavailable, Event, validate,
}

pub record ProducerMessage (Raw : Type 0) : Type 0 where
  pub topic : String
  pub key : String
  pub value : Raw

-- What a call returns, and what it handed to the producer before.
abbrev pub Sent : Type 0 → Type 0
Sent Raw = Option Error × List (ProducerMessage Raw)

-- kafkaEventProducer
pub record KafkaProducer : Type 0 where
  pub topic : String
  pub closed : Bool

-- NewKafkaEventProducer, and whether a producer is given.
unfoldable pub new_kafka_event_producer : Bool → String → Result Error KafkaProducer
new_kafka_event_producer has_producer topic =
    if not has_producer
    then err (message "grnoti/kafka: KafkaProducerConfig.Producer is required")
    else if topic == ""
    then err (message "grnoti/kafka: KafkaProducerConfig.Topic is required")
    else ok (record { topic = topic; closed = false })

abbrev pub if_valid : Option Error → Result Error (Unit {0})
if_valid none = pure tt
if_valid (some e) = err e

module _ {Raw : Type 0} (marshal : Event → Result Error Raw) (decimal : ℕ → String) where
  unfoldable pub encode_event : KafkaProducer → Event → Result Error (ProducerMessage Raw)
  encode_event p event = do
    checked ← if_valid (validate event)
    payload ←
        on_err (wrapped (concat "grnoti/kafka: marshal event " event.event_id)) (marshal event)
    pure (record { topic = p.topic; key = event.event_id; value = payload })

  abbrev pub send_error : Option Error → String → Option Error
  send_error none text = none
  send_error (some e) text = some (wrapped text (joined e err_backend_unavailable))

  abbrev pub send_encoded :
      String → Option Error → Result Error (List (ProducerMessage Raw)) → Sent Raw
  send_encoded text sending (err e) = (some e, [])
  send_encoded text sending (ok msgs) = (send_error sending text, msgs)

  abbrev pub encode_one : KafkaProducer → Event → Result Error (List (ProducerMessage Raw))
  encode_one p event = do msg ← encode_event p event; pure (msg ∷ [])

  -- The arguments are the error of the context and the error of SendMessage.
  unfoldable pub publish_event : KafkaProducer → Event → Option Error → Option Error → Sent Raw
  publish_event p event cancelled sending =
      if p.closed then (some err_closed, []) else elim cancelled [
        | some e ↦ (some e, [])
        | none ↦
            send_encoded (concat "grnoti/kafka: publish event " event.event_id) sending
              (encode_one p event)
      ]

  abbrev pub batch_event_text : ℕ → Event → String
  batch_event_text i event =
      concat "grnoti/kafka: batch event "
        (concat (decimal i) (concat " (" (concat event.event_id ")")))

  -- The loop of PublishBatch: the first event that cannot be encoded ends it.
  unfoldable pub encode_batch :
      KafkaProducer → ℕ → List Event → Result Error (List (ProducerMessage Raw))
  encode_batch p i [] = pure []
  encode_batch p i (event ∷ events) = do
    msg ← on_err (wrapped (batch_event_text i event)) (encode_event p event)
    msgs ← encode_batch p (suc i) events
    pure (msg ∷ msgs)

  unfoldable pub publish_batch : KafkaProducer → List Event → Option Error → Option Error → Sent Raw
  publish_batch p events cancelled sending =
      if p.closed then (some err_closed, []) else elim cancelled [
        | some e ↦ (some e, [])
        | none ↦
            if is_empty events
            then (none, [])
            else send_encoded
                (concat "grnoti/kafka: publish batch of "
                  (concat (decimal (length events)) " events"))
                sending (encode_batch p 0 events)
      ]

unfoldable pub close_producer : KafkaProducer → KafkaProducer
close_producer p = record p { closed = true }

-- kafkaAnalyticsPublisher
pub record AnalyticsPublisher : Type 0 where
  pub impression_topic : String
  pub conversion_topic : String
  pub closed : Bool

abbrev pub topic_or : String → String → String
topic_or topic default = if topic == "" then default else topic

-- NewKafkaAnalyticsPublisher, with the error of NewSyncProducer.
unfoldable pub new_kafka_analytics_publisher :
    List String → String → String → Option Error → Result Error AnalyticsPublisher
new_kafka_analytics_publisher brokers impression_topic conversion_topic failure =
    if is_empty brokers
    then err (message "grnoti/kafka: KafkaAnalyticsPublisherConfig.Brokers is required")
    else elim failure [
      | some e ↦ err (wrapped "grnoti/kafka: create sync producer" err_backend_unavailable)
      | none ↦ ok (record {
        impression_topic = topic_or impression_topic "grnoti.experiment.impressions";
        conversion_topic = topic_or conversion_topic "grnoti.experiment.conversions";
        closed = false;
      })
    ]

-- experimentImpressionMessage and experimentConversionMessage
pub data AnalyticsMessage : Type 0 where
  impression : String → String → String → ℕ → AnalyticsMessage
  conversion : String → String → ℕ → AnalyticsMessage

module _ {Raw : Type 0} (marshal : AnalyticsMessage → Result Error Raw) where
  abbrev pub send_tracked : String → String → String → Option Error → Result Error Raw → Sent Raw
  send_tracked what topic user_id sending (err e) =
      (some (wrapped (concat "grnoti/kafka: marshal " what) e), [])
  send_tracked what topic user_id none (ok payload) =
      (none, record { topic = topic; key = user_id; value = payload } ∷ [])
  send_tracked what topic user_id (some e) (ok payload) = (
    some (wrapped (concat "grnoti/kafka: publish " what) err_backend_unavailable),
    record { topic = topic; key = user_id; value = payload } ∷ [],
  )

  abbrev pub track :
      AnalyticsPublisher
      → String
      → String
      → String
      → AnalyticsMessage
      → Option Error
      → Option Error
      → Sent Raw
  track p what topic user_id m cancelled sending =
      if p.closed then (some err_closed, []) else elim cancelled [
        | some e ↦ (some e, [])
        | none ↦ send_tracked what topic user_id sending (marshal m)
      ]

  unfoldable pub publish_impression :
      AnalyticsPublisher → String → String → String → ℕ → Option Error → Option Error → Sent Raw
  publish_impression p user_id experiment_id variant_id now =
      track p "impression" p.impression_topic user_id
        (impression user_id experiment_id variant_id now)

  unfoldable pub publish_conversion :
      AnalyticsPublisher → String → String → ℕ → Option Error → Option Error → Sent Raw
  publish_conversion p user_id experiment_id now =
      track p "conversion" p.conversion_topic user_id (conversion user_id experiment_id now)

-- Close, with the error of closing the producer.
unfoldable pub close_publisher :
    AnalyticsPublisher → Option Error → Option Error × AnalyticsPublisher
close_publisher p failure = if p.closed then (none, p) else (
  elim failure [ none ↦ none | some e ↦ some (wrapped "grnoti/kafka: close producer" e) ],
  record p { closed = true },
)
