-- ===== src/Lib.antt =====
-- A model of @kitiumai/job-queue, a job queue on top of BullMQ and Redis, and proofs about it.
--
-- The program. `JobQueue` (src/JobQueue.ts) adds jobs to a BullMQ queue, runs the processors that
-- the user registers in a worker, and moves jobs that have used up their attempts to a queue of dead
-- letters, from which they can be replayed. A second, layered implementation of the same service
-- (src/core, src/application) has a processing orchestrator that calls a processor registry, a retry
-- coordinator, an event coordinator, metrics and telemetry. Managers in src/infrastructure/services
-- stand beside the queue: a circuit breaker, groups of jobs in order, webhooks, and others.
--
-- The files.
--   Prelude, Prelude/*   names and lemmas that all parts share: lists measured by native numbers,
--                        Boolean tests, keys that can be compared (`Eq`), how a promise settles.
--   JsMap, JsMap/Laws    JavaScript's `Map`, in order of insertion; clients use its laws.
--   JobQueue, JobQueue/* src/types.ts and src/JobQueue.ts. Options: `buildDefaultJobOptions`,
--                        `buildJobOptions`, `applyJitter`. Processing: `process`, `processJob`,
--                        `handleJobFailure`, `moveJobToDLQ`. Dlq: `replayDLQ`.
--   Processing, /*       src/core/services/processing: the registry, and `processJob` of the
--                        orchestrator.
--   Retry, Retry/*       src/core/services/retry: the strategies and the coordinator.
--   Events, Events/*     src/core/services/events: the registry of handlers and the coordinator.
--   CircuitBreaker, /*   src/infrastructure/services/circuit-breaker.manager.ts: the breaker,
--                        and in Manager the map of them.
--   Fifo, Fifo/*         src/infrastructure/services/fifo-queue.manager.ts.
--   Status, Status/*     src/infrastructure/adapters/bullmq/bullmq-state-mapper.ts, and the counts
--                        and lists of src/core/services/status/job-status-query-service.ts.
--   Webhook, Webhook/*   src/infrastructure/services/webhook.manager.ts: delivery, and in Store
--                        what lives in Redis.
--   Container, /*        src/application/di/container.ts.
--   GlobalQueue, /*      src/infrastructure/services/global-queue.manager.ts: regions, failover,
--                        routing and replication.
--   AccessControl, /*    src/infrastructure/services/access-control.manager.ts: patterns of queue
--                        names, what an entry allows, and in Store and Listing what lives in Redis.
--   Encryption, /*       src/infrastructure/services/encryption.manager.ts: keys, `encrypt`, `decrypt`.
--   JobChain, /*         src/infrastructure/services/job-chain.manager.ts: chains, workflows, waiting.
--   Idempotency, /*      src/infrastructure/services/idempotency.manager.ts.
--   Dlq, /*              src/core/services/dlq/dlq-manager.ts.
--   Redis, Redis/Memory  the commands of ioredis and JSON as parameters with laws, and an instance;
--   Redis/Timed          the same with the time of each command and the expiry of what is stored, for
--                        JobChain and Idempotency, whose keys last for days.
-- In each directory, Tests has runs at concrete inputs and applications of the theorems.
--
-- How code becomes definitions. An object is a record of its fields, and a method a function that
-- returns the new record. A method that can throw returns `Settled`, an error with its message or
-- code. Where it matters what a method does to the outside, it returns the list of the calls that it
-- makes, in order. What the outside answers is an argument: how a processor's promise settles, what
-- BullMQ and HTTP reply, the time. A function, a handler or a queue that is passed around is a
-- reference, a number. Fields that no method reads are left out, and so is logging unless stated.
--
-- Numbers, loops and fuel. Counts, delays and times are natural numbers. Every loop goes over a
-- list or counts up to a limit, and is recursion on that list or on what is left up to that limit,
-- but for two that run on fuel, with theorems that say how much is enough: `retries` in
-- Retry/Budget, which repeats a job that keeps failing, and the polling loop in JobChain/Waiting
-- (see Deadline). Concurrency is modelled in the circuit breaker, where a request is admitted and
-- settled in two steps and any steps may come between. What lives in Redis is behind commands that
-- may fail; a theorem that needs them to answer says so.
--
-- Not modelled: what only forwards calls to BullMQ, Redis, OpenTelemetry or the logger (the adapters,
-- metrics, telemetry, the facade), and, so far, the connection managers, the configuration, the
-- factories of options and statuses, and in src/JobQueue.ts the lists of jobs and its life cycle.
pub mod Prelude
pub mod JsMap
pub mod AccessControl
pub mod CircuitBreaker
pub mod Container
pub mod Dlq
pub mod Encryption
pub mod Events
pub mod Fifo
pub mod GlobalQueue
pub mod Idempotency
pub mod JobChain
pub mod JobQueue
pub mod Processing
pub mod Redis
pub mod Retry
pub mod Status
pub mod Webhook
