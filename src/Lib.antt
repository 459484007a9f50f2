-- ===== src/Lib.antt =====
-- A model of the job scheduler: jobs are created over HTTP, kept in a MongoDB collection, claimed by
-- schedulers when they are due, dispatched over Kafka to executors, and taken back by a reaper when
-- they are stuck.
--
-- How the program is modelled. A Go function is a program (`Prog`, Effects.antt): a value, or a
-- command to something outside the repository with a continuation of its reply. The commands are
-- the calls of the MongoDB driver, the Kafka and etcd clients, an HTTP client, the clock, the cron
-- parser, the random source, contexts, goroutines and counters. A filter document is a test on
-- jobs, an update document a change of a job, a sort document a test whether one job precedes
-- another. What the services are documented to do is the relation `Effect` of Effects/World.antt
-- between a command, its reply and the world before and after: a single-document command is atomic,
-- a write that answers an error has been done or has not, a unique index refuses a key that is
-- taken, a query answers a sorted page of the documents that pass its filter, a poll answers
-- messages that were taken, a time is stored in whole milliseconds, and the cron parser is a pure
-- function, which may answer the zero time for an expression that never fires. `World` is a world
-- that keeps to it, `run` runs a program in one, and `Ensures` is what a program brings about
-- whatever such a world answers. Effects/Memory.antt is a world in memory, on which the examples
-- run; Effects/Memory/Lawful.antt shows that it keeps to `Effect`, so that the hypotheses can hold.
--
-- The files, and what of the source they are about:
--   Prelude, Prelude/*     tests, lists, integers and text that the others share
--   Errors                 the errors of all packages, and the pair of a value and an error
--   Models                 internal/models/job.go
--   Topics                 internal/dispatch/topics.go
--   Effects, Effects/*     the services outside, the collection as a list of documents
--   Store                  internal/store/jobs_repo.go: EnsureIndexes, Create, ClaimDueJobs,
--                          MarkClaimed, MarkRunning, MarkCompleted, MarkFailed, the sweeps,
--                          SpawnCronInstance, RescheduleCronTemplate, MarkCronInvalid, GetByID and
--                          ListByTenant, as functions of the same names in lower case
--   Store/Update, Moves,   updates by id: what the reply of an update says, and the transitions
--     Transitions
--   Store/Failure          MarkFailed
--   Store/Claims, Batch,   ClaimDueJobs; the due jobs as a priority queue
--     Queue
--   Store/Sweep            SweepStuckJobs and SweepStuckQueuedJobs
--   Store/Retry            ClaimDueJobs after MarkFailed
--   Store/Insertion        Create and SpawnCronInstance
--   Dispatch               internal/dispatch/producer.go and consumer.go
--   Executor               internal/executor/registry.go and runner.go
--   Executor/Handlers      internal/executor/handlers/handlers.go
--   Float                  the float64 arithmetic of the backoff in internal/executor/runner.go
--   Executor/Lookup,       the registry; properties of all registered handlers; the backoff; `fail`,
--     Registered, Backoff,   whatever the services answer (DeadLetter) and by their answers (Failing);
--     DeadLetter, Failing,   `Execute` of a redelivered message, of one whose handler succeeds, and on
--     Delivery, Completion,  every branch
--     Outcome
--   Scheduler              internal/scheduler/loop.go and cron.go, and the dispatch function of
--                          cmd/scheduler/main.go
--   Scheduler/Cron, Never  handleCronJob, also for an expression that never fires
--   Scheduler/Dispatching  runOnce over one-off jobs
--   Election               internal/scheduler/election.go, and the loop of cmd/scheduler/main.go
--                          around RunAsLeader
--   Election/Standby       that loop while no campaign succeeds
--   Services               the main functions of cmd/scheduler, cmd/executor, cmd/reaper and cmd/api,
--                          and internal/store/mongo.go
--   Services/Termination   their end with their context
--   Seed                   cmd/seed/main.go
--   LoadTest, LoadTest/*   cmd/loadtest/main.go, the report of its completion phase, also when every
--                          job has ended (Settling), and its latency statistics
--   Reaper                 the loop of cmd/reaper/main.go
--   Worker, Worker/Arrival the message handler of cmd/executor/main.go; a job from its dispatch to its
--                          completion
--   Api, Api/*             internal/api/handlers/jobs.go; Api/Server and Api/Routing the routes of
--                          cmd/api/main.go
--   Config                 internal/config/config.go
--   Observability          internal/observability/metrics.go
--   System, System/*       all services together: processes over one collection and one broker,
--                          interleaved command by command (`Step`, `Reach`); calls of ClaimDueJobs
--                          in any number (Claimers), and messages for one job delivered in any
--                          number (Budget, Redelivery), as pools (`PoolStep`, `PoolReach`)
--   System/Progress        a due job through a pass of runOnce, its dispatch and its handling, where every
--                          service answers
--   Examples, Examples/*   concrete runs, and each theorem at a concrete input
--
-- Numbers. Times and durations are nanoseconds, a time since the Unix epoch, as integers without a
-- bound. `attempts`, `max_attempts` and `priority` are 64-bit integers, and the one increment of them
-- wraps (`inc_int`). The delay of a retry is computed in floating point, on mantissas and exponents of
-- base two (`Float64`), with overflow to +Inf and underflow to 0; `float64` values of payloads are bit patterns. The product of the slow handler wraps
-- to 64 bits. An object id is a number, and its hexadecimal text a function of the codec of a world.
--
-- Loops. The loop of ClaimDueJobs is bounded by its limit and needs no other bound. The loops of the
-- scheduler, the consumer, the reaper and the election run until their context ends: they take a
-- number of rounds and answer whether they returned within it; what is stated of them holds for every
-- number of rounds, and Services/Termination.antt says which number is enough. A float64 of the seed
-- command is the bit pattern of a number below 2^53.
--
-- Errors. `last_error` keeps the error whose text the document has; a context that ends is an error of
-- the call that it ends, or the answer of the command that waits for it.
--
-- Leader election. The etcd client is outside: `campaign` answers when the instance is elected, and
-- the context of `onLeading`, which the watching goroutine ends with the session, is what the commands
-- of the scheduler loop answer. What is stated of the shared collection holds for any number of
-- schedulers that lead at a time, so it does not rest on the election.
--
-- Not modelled: the logger (internal/observability/logging.go), Prometheus, the options of the clients,
-- the parsing of flags, HTTP and JSON. An observation of a histogram keeps the duration in nanoseconds.
-- Of the load test, the goroutines of a phase are run one after the other, and the interval of its
-- ticker is an argument.
pub mod Prelude
pub mod Errors
pub mod Models
pub mod Topics
pub mod Effects
pub mod Store
pub mod Dispatch
pub mod Float
pub mod Executor
pub mod Scheduler
pub mod Reaper
pub mod Worker
pub mod Api
pub mod Config
pub mod Election
pub mod Services
pub mod Seed
pub mod LoadTest
pub mod Observability
pub mod System
pub mod Examples
