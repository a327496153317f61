-- ===== src/Lib.antt =====
-- Notifier: a model of the notification service and of what makes it correct.
--
-- The service takes notifications over HTTP, stores them in PostgreSQL, hands their identities to
-- RabbitMQ and lets workers deliver them to an HTTP provider. Every process shares the table
-- notifications, whose guarded UPDATEs implement a state machine; a scheduler releases what is due
-- and recovers what got stuck.
--
-- The files, with the code that each models:
--   Base              shared helpers; Base/Int is Go's int
--   Domain/Status, Domain/Status/Machine, Domain/Status/Text   internal/domain/notification.go: Channel,
--                     Priority, Status with their texts, CanTransition, StatusesAllowedInto,
--                     CancellableStatuses
--   Domain/Notification, Domain/Errors, Domain/List, Domain/Template   the records and errors of
--                     internal/domain
--   Domain/Regexp, Domain/Validate   internal/domain/validate.go: the patterns, ValidateNew
--   Queue/Topology, Queue/Message, Publisher   internal/queue/rabbit: topology.go, message.go,
--                     publisher.go
--   Queue/Declare     DeclareTopology of topology.go and QueueDepths of inspect.go, as calls of the
--                     broker; in Queue/Declare/Routes the queues that a publish reaches
--   Delivery          internal/delivery: webhook.go, switchable.go, result.go
--   Storage/Table     the SQL of internal/storage/postgres/repository.go on the schema of
--                     internal/storage/postgres/migrations: `apply` runs a Statement on a Table,
--                     with `guard` for its WHERE and `assign` for its SET
--   Storage/Repository, Storage/Listing, Storage/Counts   the methods of NotificationRepository, errors
--                     and second look-ups included; List with its keyset cursor; the counts per status
--   Storage/Control   the row worker_control, by which the API pauses workers and overrides the provider
--   Storage/Templates   internal/storage/postgres/template_repository.go
--   World             what the processes share, and the environment
--   Worker            internal/worker: worker.go (processNotification, handleSendFailure), and in
--                     Worker/Consume what a handler of consume.go does with a delivery
--   Worker/Supervise  superviseQueue of consume.go with its pauses, as a state with events
--   Scheduler         internal/scheduler/scheduler.go: RunOnce
--   Template          internal/template/render.go
--   Service           internal/service: notification.go (Create, Cancel, Listing), batch.go (Batch) and
--                     template.go (Templates, Resolve)
--   Api               internal/api over the services: the error answers (Respond), cursor.go (Cursor),
--                     notifications.go (Query, Notifications), batch.go (Batch), templates.go
--                     (Templates), dashboard.go (Dashboard), metrics_summary.go (Summary),
--                     middleware.go and readyz.go (Middleware), and hub.go (Hub, whose goroutine and
--                     handlers are one state with an action for each case of their selects);
--                     Api/Crawl is a client that follows next_cursor
--   MockProvider      internal/mockprovider/mockprovider.go
--   Config            internal/config/config.go: Load
--   Examples          concrete runs
--
-- A handler is a function from a World to its result and the next World. A SQL statement is atomic.
-- At each query the World's schedule says how much time passes, which statements other processes run
-- first, and whether the query is served, refused, or done with its answer lost; with no schedule
-- left the environment is quiet. The broker's confirmations, faults of status events, the provider's
-- replies and the waits for the rate limiter are schedules as well. The statements of other
-- processes are taken to be those that this code issues (IsIssued): a new row is pending or
-- scheduled, UpdateStatus gives queued or cancelled, an outcome is retrying or failed, and an
-- allowed-from set holds only statuses with a legal move. Rows that SKIP LOCKED leaves out are an
-- argument.
--
-- Identifiers and times are natural numbers, 0 for the zero UUID and the zero time, and `next_id` is
-- what uuid.New gives next. A time counts nanoseconds; one that a statement stores as a parameter is
-- cut to microseconds, as the type TIMESTAMPTZ keeps it, while now() is read off the world's clock
-- as it is. A string type with constants is a data type of the constants and of every other text.
-- Go's error is a data type with its wrappings. No definition runs on fuel but the decimal form of a
-- number, which has at most as many digits as its value plus one, and the client of Api/Crawl, whose
-- fuel is the number of pages that it asks for: one more than there are rows is enough.
--
-- The row worker_control and the table of templates are stores of their own, and no other process
-- writes them within a handler. The actions of the hub and the events of a supervised queue are
-- sequences of steps in any order.
--
-- Parameters: the JSON decoder and limited readers (Reader), the verb %q (quote), text/template
-- (Engine), the sender of the worker (Sender, filled in Worker/Senders), JSON and base64 of cursors
-- (Codec), the readers of numbers, UUIDs and times in queries (Parsers) and in the environment
-- (Readers), the reader of URLs (UrlReader), floating-point arithmetic (Floats), and the AMQP broker
-- with its documented routing (Broker, IsAmqp).
--
-- Not modelled: logging and the registration of counters; the log sender, which only logs; the event
-- subscription of internal/queue/rabbit/events.go; migrations and the declaration of the control row
-- at boot; the wiring of routes, the request log and the documentation pages; Run over several
-- queues, and handlers that interleave within one process; the WebSocket connection itself, whose
-- failures are actions of the hub; dialling the broker and reconnecting; the program's entry; the
-- overflow of the int32 column attempts; templates created by other processes within a handler.
pub mod Base
pub mod Domain
pub mod Queue
pub mod Delivery
pub mod World
pub mod Storage
pub mod Publisher
pub mod Worker
pub mod Scheduler
pub mod Template
pub mod Service
pub mod MockProvider
pub mod Config
pub mod Api
pub mod Examples
