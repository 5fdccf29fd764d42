-- ===== src/Lib.antt =====
-- Verification of the resilience library, libs/foundation/src/foundation/resiliant (policies in
-- memory) and libs/resiliant/src/resiliant (policies over a database), and of some self-contained
-- parts around it: event processing, the service registry, log throttling, query filters, fees,
-- the response cache, the context of event handlers, the flows of events, the routing of messages to outbox or
-- broker, Kafka's consumer and producer, the validation of fields
-- and the codes of a sign-up.
--
-- The parts, and the files that model them:
--   Prelude, Exec: shared lists and tests; Python exceptions as values, and the monad of actions
--     `Action S A = S → Result A × S` in which coroutines are written.
--   CircuitBreaker: circuit_breaker.py. `before_call`, `on_success`, `on_failure` and `call` are the
--     methods of `CircuitBreakerService`, `refresh` and `persist` its use of the shared repository,
--     which is a parameter. CircuitBreaker/Invariant, Transitions and Calls hold the proofs.
--   Saga: saga.py. `run` is `SagaService.run` with `forward` its loop, `abort` its except block and
--     `compensate` the loop of `_compensate`; each saved state goes to a journal. Saga/Forward,
--     Compensation, Outcome and Saved hold the proofs.
--   Floats, Retry: retry/exp_backoff_retry.py. `attempts` is the loop that the four `execute`
--     methods share; `get_next_delay` works on an abstract type of floats with named laws.
--   Fallback: fallback.py and timeout.py, with `asyncio.wait_for` as a parameter.
--   Sql: the statements that the repositories execute, as a record of operations on an abstract
--     table with their documented laws; Sql/Model has a table that meets them, and Sql/Keys the
--     lemmas on rows with a primary key.
--   Outbox: outbox/outbox_repository.py and outbox_service.py, over such a table.
--   OutboxPoller: outbox/outbox_poller.py and outbox_metrics.py. A poll claims a batch of the
--     repository, hands each event to the broker (a parameter) and counts what came of it.
--   Schedule: schedule/schedule_repository.py, _recurrence.py, schedule_service.py and the firing of
--     jobs in schedule_poller.py. Callbacks, the broker and croniter are parameters.
--   Idempotency: the look-up of a key and the clean-up of idempotency/idempotency_repository.py and
--     idempotency_service.py. Recording a key is not modelled: its insert names a column `tenant_id`
--     that the table does not declare.
--   Dlq: dlq/dlq_repository.py, dlq_service.py and the in-memory queue of foundation's dlq.py.
--   SagaRepository: saga/saga_repository.py. An instance is written to a row and read back;
--     SagaRepository/Journal composes it with the saga executor.
--   Bulkhead: bulkhead.py. `execute` is one call, with the semaphore as a parameter. The
--     order in which waiting tasks get its permits is not modelled.
--   ResilientCall: resilient_call.py, `ResilientExecutor` over the four guards.
--   EventProcessor: libs/foundation/src/foundation/messaging/events/event_processor.py, with the
--     handler registry of event_handler.py and the retry loop of resiliant/retry/_retry_tenacity.py.
--   ServiceRegistry: libs/foundation/src/foundation/state/service_registry.py. ServiceRegistry/Slots
--     has its abstract view, a map from types to slots.
--   LogThrottle: libs/foundation/src/foundation/observability/log_throttle.py.
--   QueryBuilder: libs/db/src/db/utils/query_builder.py; QueryBuilder/Truth gives statements a meaning
--     by the three truth values of SQL, and QueryBuilder/Meaning says what filters mean.
--   KaspaFees: libs/block-kaspa/src/block_kaspa/transaction/simple_fee_estimator.py.
--   StoredCircuits: libs/store_redis/src/store_redis/circuit_breaker_repository.py, the repository of
--     snapshots; CircuitBreaker/Shared has the lemmas on breakers with a repository.
--   HttpCache: libs/foundation/src/foundation/http/cache.py. `inner` is the function that the `cache`
--     decorator puts in the place of an endpoint. The making of the key, the look-up of the backend,
--     the backend and the codec are parameters.
--   Signup: libs/iam/src/iam/auth/services/_auth.py, the first step of a sign-up.
--   HandlerContext: libs/foundation/src/foundation/messaging/events/handler_context.py. A call of
--     `get_or_fetch` is `enter`, `double_check` and `finish_fetch`, between which others take steps.
--   Validation: libs/foundation/src/foundation/utils/validation.py. Validation/Password and
--     Validation/Names have the rules, with the regular expressions as tests on code points.
--   Flows: libs/foundation/src/foundation/messaging/events/flow_registration.py, over the registry of
--     EventProcessor, of which EventProcessor/Registry has the laws.
--   KafkaConsumer: libs/messaging_kafka/src/messaging_kafka/aiokafka_messaging.py. `run_consuming` is
--     the loop of one worker, over the messages that the client hands out, with the event processor
--     as a parameter; `sent` is `send_to_dlq` of libs/foundation's messaging/base_messaging.py.
--   Routing: messaging/message_routing_service.py and `get_routing_for_channel` of messaging/types.py in
--     libs/foundation. `publish_event` takes the outbox and the broker as a record of services;
--     Routing/Stored fills it in with Outbox, KafkaProducer/Keys with KafkaProducer.
--   MsgEncoder: messaging/utils/msg_encoder.py of libs/foundation, with JSON and MsgPack.
--     MsgEncoder/Malformed composes it with KafkaConsumer.
--   KafkaProducer: `publish` of the same aiokafka_messaging.py.
--   Tests: the theorems at concrete inputs.
--
-- Interaction: the outbox poller and the scheduler are clients of their repositories, and these of
-- Sql. A circuit breaker's handler acts on the breaker's own state, so that calls which other tasks
-- make during its await are part of it. The executor's call goes through breaker, bulkhead and
-- timeout; the event processor retries by the loop of Retry; the saga repository stores what the
-- executor of Saga saves.
--
-- Times are natural numbers of some unit, and each reading of a clock is an argument or a function
-- of the state. Machine integers do not occur: Python's are unbounded. `attempts` recurses on the
-- number of attempts that are left, and every other loop on a list or an index, so that no fuel is
-- needed and all of the model's functions are total.
--
-- Not modelled: task creation and cancellation of workers, NOTIFY and the wake event, signal
-- handlers, logging, durations in the metrics, PostgreSQL and SQLAlchemy below the statements
-- (sessions commit what they execute), the configuration objects with their environment variables,
-- decorators and factories, partition maintenance, and the rest of the repository: adapters of
-- frameworks and brokers, generated code, and CRUD services.
pub mod Prelude
pub mod Exec
pub mod CircuitBreaker
pub mod Saga
pub mod SagaRepository
pub mod Sql
pub mod Outbox
pub mod Dlq
pub mod LogThrottle
pub mod Signup
pub mod StoredCircuits
pub mod Flows
pub mod HandlerContext
pub mod HttpCache
pub mod QueryBuilder
pub mod KafkaConsumer
pub mod KaspaFees
pub mod ServiceRegistry
pub mod EventProcessor
pub mod Bulkhead
pub mod ResilientCall
pub mod OutboxPoller
pub mod Schedule
pub mod Idempotency
pub mod Floats
pub mod Routing
pub mod MsgEncoder
pub mod KafkaProducer
pub mod Tests
pub mod Retry
pub mod Fallback
pub mod Validation
