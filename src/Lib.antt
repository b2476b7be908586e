-- ===== src/Lib.antt =====
-- Verification of LiquidPetProject, an order system of several C++ services that exchange messages
-- through Kafka and an outbox.
--
-- A consumer hands broker records to shared/messaging/ConsumerPipeline.h. The pipeline registers
-- each record with the partition registry (PartitionRegistry.h), which keeps one offset tracker
-- (OffsetTracker.h) per assigned partition, holds the records in a backlog and submits them to a
-- bounded pool (WorkerPool.h). A pool thread runs the record executor (RecordExecutor.h), which
-- calls the service's handler under a retry policy (RetryPolicy.h), sends what keeps failing to a
-- dead-letter sink and completes the record's ticket at the registry; the consumer
-- (consumer/KafkaEventConsumer.cpp) polls the broker, commits what the registry offers and pauses
-- while the backlog is not empty. The order service keeps orders and their money
-- (order-service/models) and marks an order as reserved when such an event arrives
-- (order-service/event-handlers). The worker service (worker-service) reserves each order that it
-- is told of once and says so in an event. The outbox publisher (shared/outbox) sends the rows
-- that a service wrote to the broker. Clients reach the services over HTTP (shared/http), through
-- a gateway that forwards requests over pooled connections (gateway/handlers).
--
-- Files:
-- - Prelude and below: shared tests, lists, integers, dictionaries, std::expected (Outcome) and
--   lists in another order (Shuffles).
-- - Errors: the error enums (Enums), make_error_code (Codes) and the texts (Messages) of the
--   files that define them, in shared and the services.
-- - Models.StrongId: StrongID::create of shared/models/StrongID.h and isValidUuid of OrderIds.h.
--   Shape describes the texts.
-- - Models.Environment: EnvironmentConfiguration.h; Loading is about load, Values about the
--   values that it looks for.
-- - Models.Host: Host.h, NetworkAddress.h and the configurations made of them.
-- - Models.Database: create and fromUrl of DatabaseConfiguration.h.
-- - Json: JsonHelper::getValue of shared/json/Json.h, over what the program uses of
--   nlohmann::json, whose parse returns a value or throws a parse_error, which the handlers catch,
--   or an out_of_range, which they do not.
-- - Messaging.OffsetTracker: registerRecord, complete, commitCandidate, confirmCommit, reset.
--   Entries has the lemmas on the deque, Invariant the well-formedness, Outcomes the reference,
--   Drain and History what commits mean.
-- - Messaging.PartitionRegistry: assign, revoke, registerRecord, complete, commitCandidates,
--   confirmCommit, isAssigned, isCurrent. Cases, Generations, Owners and Stale follow the periods
--   of ownership.
-- - Messaging.WorkerPool: the constructor, trySubmit, stop, workerLoop as steps of a relation;
--   Reachable is about its runs.
-- - Messaging.RetryPolicy, Messaging.Handling, Messaging.RecordExecutor: RetryPolicy.h, the
--   handler and sink interfaces, and execute with its helpers; Outcomes is about its calls.
-- - Messaging.ConsumerPipeline: the methods of the pipeline; Pumping and Backlog are about pump
--   and the backlog.
-- - Messaging.KafkaConsumer: start, stop, run, ingest, applyBackpressure, onRebalance,
--   commitOffsets, commitReady and createWithRetry. Headers is about the headers of a record,
--   Positions about the map that is committed, Trace, Commits and Life about the calls that a
--   consumer makes, Starting and Stopping about its two ends.
-- - Delivery: KafkaEventPublisher::publish and PublisherDeadLetterSink::send; Received is about
--   what a consumer reads of them.
-- - Orders.Money, Orders.Order: order-service/models/Currency.h, Money.h and Order.h; Exact,
--   Total and Status are about them.
-- - Orders.ReservedHandler: OrderReservedHandler::handle; Decisions lists its ways, Table runs it
--   on a table of orders.
-- - Orders.Json: CurrencyJsonMapper.h, MoneyJsonMapper.h and OrderJsonMapper.h of
--   order-service/models2json-mapper; Written is about what they read of what they write.
-- - Orders.Handlers: CreateOrderHandler.h, GetOrderHandler.h and HealthHandler.h of
--   order-service/handlers/CQRS; Placing runs them on the repository. Orders.Service: the routes of
--   order-service/main.cpp; Routed is about the handlers behind them.
-- - Orders.Rows, Orders.Repository: OrderRowMapper.h and PostgresOrderRepository.cpp with the
--   statements of OrderRepositoryQueries.h, over Postgres (PqxxExceptionMapper.h and transactions);
--   Saving, Finding, Reading and Changing are about save, the rows that are found, the two
--   together, and changeStatus, Shuffling about rows in another order.
-- - Outbox: OutboxPublisher::processBatch, hasMoreWork and run; Marking is about batches.
--   Outbox.Repository: PostgresOutboxRepository.cpp with the statements of
--   OutboxRepositoryQueries.h; Marked and Once are about entries that are marked.
-- - Worker.Events, Worker.Reservation: the JSON mappers and the handler of worker-service;
--   Checked is about what an event may hold, Sent about the event that the order service writes,
--   Once about redelivery, Understood about the message to the order service.
-- - Worker.Repository: PostgresWorkerRepository.cpp with the statements of
--   WorkerRepositoryQueries.h; Refines is about the contract of IWorkerRepository.h.
-- - Http: HttpMessage.h, HttpMessageConverter.cpp, Route.h, and findHandler, handleRequest and
--   handleSession of HttpServer.cpp; Routing and Sessions are about requests and connections.
-- - Gateway: ProxyHandler.cpp; Attempts is about one upstream, Exchanges about one request,
--   Ownership about the connections under all interleavings.
-- - Examples: concrete runs.
--
-- Conventions: an int64_t offset v stands as the natural number v + 2^63, and the counters of the
-- tracker are size_t with the wrap-around of a decrement written out; generations are uint64_t and
-- wrap. Amounts of money and int values are integers, whose range the checks of the code keep. A
-- mutex makes a method one step; what other threads do between two steps is a parameter (the
-- executor, pump) or a sequence of steps (the pool). std::expected is Expected. The int that
-- counts sends to the dead-letter sink is not wrapped. Logging is left out.
--
-- Fuel: the dead-letter loop of the executor, the loops of the outbox publisher and of the
-- consumer and the loop of an HTTP session have no end of their own and run on fuel. The
-- executor's fuel counts rounds at the sink, so it is enough once it exceeds the number of refused
-- sends; the loops of the publisher and the consumer end only at a stop request, and a session
-- with its connection; what is proved of these holds for every fuel.
--
-- Parameters: double arithmetic, the event handler, the dead-letter sink, the stop token, the
-- clock, nlohmann::json, std::getenv, make_address, the failures of a transaction, the normal
-- forms of uuid and jsonb, the order in which the items of an order are selected, the broker with
-- its client library, and Boost.Beast with its sockets. Not modelled: the connection string of the
-- database, the acceptor and the threads of the HTTP server, logging and the rest of the entry
-- points.
pub mod Prelude
pub mod Errors
pub mod Models
pub mod Json
pub mod Messaging
pub mod Orders
pub mod Outbox
pub mod Delivery
pub mod Worker
pub mod Http
pub mod Gateway
pub mod Examples
pub mod Postgres
