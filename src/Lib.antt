-- ===== src/Lib.antt =====
-- A model of grnoti, a Go library that turns events into push notifications through Firebase
-- Cloud Messaging, with the theorems that make its parts correct.
--
-- The program. A NotificationService (service.go) takes one event at a time: it validates it,
-- asks the idempotency store whether it was processed, asks the preferences filter, renders a
-- message, finds the recipients (a topic, or the devices of the user), sends the message in
-- batches, marks FIDs that FCM no longer knows, puts what failed on the dead-letter queue,
-- reports metrics and a lifecycle event, and marks the event as processed. Its collaborators are
-- interfaces (interfaces.go). Around the dispatcher stand a circuit breaker, a rate limiter and a
-- retry strategy. A worker pool may stand in front of the service, a shared cache behind its stores,
-- and a localized engine in front of the one that renders the messages.
--
-- The files.
--   Prelude, Prelude/*    library names passed on; Boolean tests, lists, results, maps, integers,
--                         permutations and sorting.
--   Prelude/Fallible      do blocks for functions that return a value or an error.
--   Types, Types/*        types.go, errors.go, events.go: events, devices, messages, results,
--                         errors, targets, and FIDs with their pattern.
--   Calls                 the interfaces of interfaces.go. A method call is an action in a history
--                         of calls, and its answer comes from an environment that sees the whole
--                         history: a theorem for every environment holds for every implementation.
--   Events, TopicRouter   events.go (PublishSent, PublishFailed, PublishAssigned) and
--                         topicrouter.go (resolveDevicesForEvent and the three routers).
--   BatchSplitter         batchsplitter.go: deduplicate and split. Split/Dedup hold their proofs.
--   Service               service.go. Effects has the methods around the dispatch, Dispatch has
--                         dispatch, dispatchToDevices and mergeDispatchResult, Pipeline has
--                         processEvent as a function per stage. Tally counts calls in a history,
--                         Effect says which calls each stage makes; Delivery, Batching and Lost
--                         hold the theorems. Lifecycle has the constructor, ProcessEvent, Submit
--                         and the two steps of Close.
--   WorkerPool            workerpool.go: a pool as its queue, its workers and its phase, and a run
--                         as a list of moves of submitters, workers and Stop, in any order. Runs
--                         has the rule for invariants, Accounts follows the events, Stopping and
--                         Shutdown the invariant, Returns the end of Stop.
--   CircuitBreaker        circuitbreaker.go: execute in its two locked halves before_request and
--                         after_request, reset and get_stats, on explicit clock readings.
--   Backoff               retrystrategy.go: full_jitter_backoff, should_retry, get_delay.
--   FcmErrors             classifyFCMError of dispatcher.fcm.go.
--   FcmDispatcher         dispatcher.fcm.go: send_batch; Send has the retry loop, the batches of a
--                         platform and send. Counts and Accounting follow the counts, Attempts the
--                         requests. Its environment FcmEnv stands for the client, the limiter, the
--                         breaker, the context and the size check.
--                         Messages has the builders of the Firebase structures, Single the methods
--                         send_to_device and send_to_topic.
--   Dlq                   memory.go, memoryDLQHandler: the dead-letter queue as a map of records.
--                         Postgres has the columns and the statements of dlq.postgres.go and
--                         internal/postgresdb/dlq.sql.go, Postgres/Handler its methods; Rows,
--                         Outcomes, Tables and Refines relate them to the queue in memory for Agreement, Retries is
--                         about an unfinished MarkRetried. Mongo is dlq.mongo.go, with the order of
--                         its claims in Mongo/Order, Mongo/Loop and Mongo/Claims.
--   DeviceStore           memory.go, memoryDeviceStore: the devices by FID. Postgres and Mongo are
--                         devicestore.postgres.go and devicestore.mongo.go, Databases compares the
--                         three stores, Orders is about rows that come in any order.
--   Database              what the stores over the two databases share: how a call may fail.
--   Postgres              postgres.go: the values of columns, connectPostgres, and the construction
--                         and Close of a store; Ownership follows the pools. Mongo has the same of
--                         the stores over MongoDB.
--   Cache                 grcache.Cache, a package outside of the repository, as a record of
--                         operations on a state and a record of laws, which the stores over a
--                         cache take as parameters.
--   Idempotency           cache.idempotency.go. Marks replays a history of service calls on the
--                         cache, at the readings of its clock, and shows what the service is told.
--   PreferencesStore      PreferencesStore of interfaces.go as operations, with the view that it
--                         promises; Memory is memoryPreferencesStore of memory.go, Cached is
--                         cache.preferences.go, Coherence its refinement of the view.
--                         Postgres and Mongo are preferences.postgres.go and preferences.mongo.go,
--                         with the proof in their Promise that they keep the view, which Databases
--                         puts together. Written is the step of it that they share.
--   ExperimentStore       memory.go, memoryExperimentStore; Listing has the sorted list. Postgres
--                         is experimentstore.postgres.go, Creation follows the time of creation.
--   Experiment            experiment.go: deterministic_pick (Pick) and assign_variant (Sticky), and
--                         cache.experiment.go (Cached, CachedPick).
--   Preferences           preferencesfilter.go: should_send_notification (Filter) and in_window
--                         (QuietHours), with the time package as a parameter.
--   Templates             templateengine.go: compile_template and render_message; Engine is the
--                         default engine, Compile the lemma on the event type.
--   Localization          localization.go: the store, the resolvers and the localized engine, which
--                         Transparent compares with the engine of Uncached.
--   RateLimiter           ratelimiter.go; Redis is ratelimiter.redis.go with its Lua script, Budget
--                         the bound of what the script lets through.
--   EventTypes            the registry of eventtypes.go. PayloadSize is payloadvalidator.go.
--   KafkaConsumer         consumer.kafka.go: ConsumeClaim with its marks, and the loop of Start.
--   KafkaProducer         producer.kafka.go: the event producer and the analytics publisher.
-- Each part's runs on concrete inputs stand in its module Tests.
--
-- Numbers. Times and durations are in nanoseconds. Counters of Go's int are naturals without a
-- bound; the product in FullJitterBackoff is taken modulo 2^64 as on int64, and the divisor of the
-- experiment's pick modulo 2^32. The loops recur on lists, the one of Split on the number of
-- devices, which each batch lowers, and the retry loop on the attempts left. Maps are association
-- lists, so a range over a map has one of the orders that Go allows.
--
-- In the rate limiter's script times are microseconds and tokens millionths, which makes the refill
-- exact. The return of Stop is shown by recursion on the actions that are left to do.
--
-- The databases. A statement of internal/postgresdb and an operation on a MongoDB document are
-- atomic in their database, so each is a function on its table, and a call takes a Fault: it is
-- served, it is refused before it takes effect, or its answer is lost after it took effect. A value
-- that a column does not take is a refused statement. A TIMESTAMPTZ column keeps whole microseconds
-- of a time and a date of BSON whole milliseconds, so a time is rounded down when it is written or
-- sent to a test; the theorems that compare a store with the one in memory say at which readings
-- of the clock. The order of rows that a query leaves open is an argument of its definition, and
-- where equal times would leave the choice of rows open, a theorem asks that there are none. A limit and a count of retries are int32
-- columns, so the theorems on them ask for numbers below 2^31.
--
-- Not modelled. Log lines, and contexts but for the error that a call finds. FCM, Kafka, Redis,
-- PostgreSQL and MongoDB are outside the program, as are grcache and rate.Limiter, which are
-- parameters. So are fmt.Sprintf, rand.Int63n, the MD5 sum, the clock, the time zones, text/template,
-- reflect.DeepEqual and encoding/json. The tracking calls of the experiment engines only pass their
-- arguments on. The schema of PostgreSQL, its application by applyPostgresSchema and the indexes of
-- MongoDB are left out, with the removal of old documents by a TTL index; a failure to create the
-- indexes is an outcome of the driver.
pub mod Backoff
pub mod BatchSplitter
pub mod Cache
pub mod Calls
pub mod CircuitBreaker
pub mod Database
pub mod DeviceStore
pub mod Dlq
pub mod EventTypes
pub mod Events
pub mod Experiment
pub mod ExperimentStore
pub mod FcmDispatcher
pub mod FcmErrors
pub mod Idempotency
pub mod KafkaConsumer
pub mod KafkaProducer
pub mod Localization
pub mod Mongo
pub mod PayloadSize
pub mod Postgres
pub mod Preferences
pub mod PreferencesStore
pub mod Prelude
pub mod RateLimiter
pub mod Service
pub mod Templates
pub mod TopicRouter
pub mod Types
pub mod WorkerPool
