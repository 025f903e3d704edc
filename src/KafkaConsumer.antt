-- ===== src/KafkaConsumer.antt =====
-- consumer.kafka.go: kafkaEventConsumer. The Kafka library (sarama) and encoding/json are
-- parameters: what a claim's channel delivers, what Unmarshal and the handler answer, and what each
-- Consume returns. A loop takes what it meets as a list.
pub mod Tests
use grnoti.Prelude.{
  ℕ, Bool, true, false, Option, none, some, Result, ok, err, List, [], ◌∷◌, ◌++◌, String, is_empty,
  ◌==◌, if◌then◌else◌,
}
use grnoti.Types.{Error, message, wrapped, err_closed, err_backend_unavailable, Event}

pub record KafkaConsumerConfig : Type 0 where
  pub brokers : List String
  pub group_id : String
  pub topics : List String

-- kafkaEventConsumer: its topics and flags; `has_handler` is whether Start was called.
pub record KafkaConsumer : Type 0 where
  pub topics : List String
  pub has_handler : Bool
  pub ready : Bool
  pub closed : Bool

abbrev pub group_created : KafkaConsumerConfig → Option Error → Result Error KafkaConsumer
group_created cfg (some e) =
    err (wrapped "grnoti/kafka: create consumer group" err_backend_unavailable)
group_created cfg none =
    ok (record { topics = cfg.topics; has_handler = false; ready = false; closed = false })

-- NewKafkaEventConsumer, with the error of NewConsumerGroup.
unfoldable pub new_kafka_event_consumer :
    KafkaConsumerConfig → Option Error → Result Error KafkaConsumer
new_kafka_event_consumer cfg group_error =
    if is_empty cfg.brokers
    then err (message "grnoti/kafka: KafkaConsumerConfig.Brokers is required")
    else if cfg.group_id == ""
    then err (message "grnoti/kafka: KafkaConsumerConfig.GroupID is required")
    else if is_empty cfg.topics
    then err (message "grnoti/kafka: KafkaConsumerConfig.Topics is required")
    else group_created cfg group_error

pub record KafkaMessage (Raw : Type 0) : Type 0 where
  pub offset : ℕ
  pub value : Raw

-- What a run of ConsumeClaim did: the events handed to the handler and the offsets marked, oldest
-- first.
pub record Claimed : Type 0 where
  pub handled : List Event
  pub marked : List ℕ

abbrev pub nothing_claimed : Claimed
nothing_claimed = record { handled = []; marked = [] }

module _ {Raw : Type 0} (unmarshal : Raw → Result Error Event)
    (handler : Event → Option Error) where
  abbrev pub mark_message : ℕ → Claimed → Claimed
  mark_message offset c = record c { marked = offset ∷ c.marked }

  abbrev pub after_handler : ℕ → Option Error → Claimed → Claimed
  after_handler offset (some e) rest = rest
  after_handler offset none rest = mark_message offset rest

  -- A message that is no event is marked, so that it does not block the partition; one whose
  -- handler fails is not marked.
  abbrev pub claim_message : Bool → ℕ → Result Error Event → Claimed → Claimed
  claim_message has_handler offset (err e) rest = mark_message offset rest
  claim_message false offset (ok event) rest = mark_message offset rest
  claim_message true offset (ok event) rest =
      let c = after_handler offset (handler event) rest in record c { handled = event ∷ c.handled }

  -- ConsumeClaim, on the messages that the claim delivers before its channel closes or the session
  -- ends.
  unfoldable pub consume_claim : KafkaConsumer → List (KafkaMessage Raw) → Claimed
  consume_claim c [] = nothing_claimed
  consume_claim c (m ∷ messages) =
      claim_message c.has_handler m.offset (unmarshal m.value) (consume_claim c messages)

-- One round of Start's loop: the error of the context before it, that of Consume, and whether the
-- consumer was closed meanwhile.
pub record Round : Type 0 where
  pub context_done : Bool
  pub consume_error : Option Error
  pub closed_by_then : Bool

abbrev pub after_consume : Round → Option Error → Option (Option Error) → Option (Option Error)
after_consume r (some e) next =
    if r.closed_by_then then some none else some (some (wrapped "grnoti/kafka: consume" e))
after_consume r none next = if r.closed_by_then then some none else next

-- The loop; `none` is a consumer that goes on.
unfoldable pub consume_rounds : List Round → Option (Option Error)
consume_rounds [] = none
consume_rounds (r ∷ rounds) =
    let rest = consume_rounds rounds in
    if r.context_done then some none else after_consume r r.consume_error rest

unfoldable pub start : KafkaConsumer → List Round → Option (Option Error) × KafkaConsumer
start c rounds =
    if c.closed
    then (some (some err_closed), c)
    else (consume_rounds rounds, record c { has_handler = true })

-- Setup closes the ready channel once.
unfoldable pub setup : KafkaConsumer → KafkaConsumer
setup c = record c { ready = true }

abbrev pub close_error : Option Error → Option Error
close_error none = none
close_error (some e) = some (wrapped "grnoti/kafka: close consumer group" e)

-- Close, with the error of closing the group.
unfoldable pub close_consumer : KafkaConsumer → Option Error → Option Error × KafkaConsumer
close_consumer c group_error =
    if c.closed then (none, c) else (close_error group_error, record c { closed = true })
