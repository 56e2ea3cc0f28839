-- ===== src/Lib.antt =====
-- A model of QueueCTL, a job queue on SQLite: jobs are enqueued, fetched by workers, retried with an
-- exponential backoff when they fail, and moved to a dead letter queue when they fail too often.
--
-- The parts, with the Go files that they follow:
--   Domain      internal/domain: Errors holds the error values of all packages, Job, ExecutionLog and
--               Worker the entities, Clocked the constructors and methods that read the clock
--   Store       the state that the packages share: the tables jobs, workers and execution_logs, the
--               channel of the scheduler, the map of the handlers; Tx is WithTx of
--               internal/repository/sqlite/sqlite_job_repository.go
--   Retry       internal/retry and internal/domain/retry.go: Float is the float64 arithmetic, Backoff
--               the delays and the policy, Engine is HandleFailure
--   Repository  internal/repository/sqlite: Jobs, Logs and Workers, one function for each method;
--               Stats is GetQueueStats and what internal/service and internal/dlq make of it
--   Scheduler   internal/scheduler: Notify, Start and the channel of one event
--   Dlq         internal/dlq: Route, List, Retry, Delete and Restore; Envelope is
--               internal/domain/dlq.go
--   Service     internal/service/job_service.go: Queue (Enqueue, GetJob, ListJobs, PurgeCompleted and
--               the registration of workers), Handlers, Fetch (FetchNextJob), Outcomes
--               (HandleJobSuccess and HandleJobFailure), Reclaim (ReclaimOrphanedJobs)
--   Metrics     internal/metrics/metrics.go: GetMetrics; Rate is the float64 arithmetic of its percentages
--   Database    internal/database/database.go: Connect and RunMigrations
--   Logger      internal/logger/logger.go: New, the fields, With and WithContext
--   Cli         internal/cli: Jobs (enqueue, list, status, purge), Dead (dlq), Telemetry (metrics and
--               config), Pid, Stop and Start (worker), Setup (root.go); Contract has sequences of
--               command lines and of calls of workers
--   Config      internal/config/config.go and internal/domain/config.go: the checks and the
--               provider; Source is LoadConfig
--   Pool        internal/worker/worker.go: Start, pollAndDispatch, executeWorker and the heartbeat;
--               Steps has their interleavings with each other and with other processes, Shutdown the
--               cancellation of the context, Stop and the end of Start, Progress a job from the poll
--               that takes it to its end
--   Lifecycle   the contract of the queue: the state machine of a job, what one operation may do to
--               a row, and sequences of operations; Logs has the invariant of execution_logs
--   Scenarios   concrete runs
--   Prelude     numbers, texts and the operations on tables
--
-- How the code is read. A Go function that returns an error is a function from the state to a result
-- and a state (Exec); what it does before it fails stays done. The service calls the repositories,
-- the retry engine, the router and the scheduler as in the source, and the three that change several
-- rows (FetchNextJob, HandleJobSuccess, HandleJobFailure) do so inside with_tx. A pointer that may be
-- nil is an Option; a job that a function changes through its pointer is returned.
--
-- An SQL statement is an operation on the list of the rows: WHERE is a Boolean test, ORDER BY a stable
-- sort, so that rows which the order leaves level come as in the table, which SQLite does not promise.
-- Times are nanoseconds since Go's zero time and are compared as instants. Each call of the driver may
-- report a fault, as env.fault says, and then changes nothing; so may reading the number of affected
-- rows. tx.Rollback puts the tables back to what they were at BEGIN, and so does a tx.Commit that
-- reports a fault; without either the writes of a transaction stay. A row that GetByID scans is the row
-- that was written. Only the cutoff of the purge is not in UTC: the driver writes both times of that
-- comparison as texts, and what SQLite answers is the parameter env.before_local.
--
-- Integers are 64 bits wide: the count of failures wraps around, and the theorems that need it name
-- the bound below which it does not. A float64 has 53 bits; the power of two of the backoff is exact,
-- and a product that no int64 holds becomes env.int64_overflow. The float64 rounding drops at most
-- eleven bits of an int64, so that the eleven rounds of Float are enough.
--
-- The clock, the identifiers of uuid.New, the verdict of json.Unmarshal and the faults of the driver
-- are parameters (Env): the theorems hold whatever they answer, unless a hypothesis says otherwise.
--
-- In the pool a poll is one step, from the slot that it takes to the goroutine that it starts or the
-- slot that it gives back; a goroutine has three: the run of its handler with the transaction that
-- records the outcome, the release of its slot, and the look at whether the node is idle. Nothing of
-- them is bounded: a run is any finite sequence of steps. What other processes do between them is a
-- transaction or a statement at a time: Retry, Restore and Delete of the dead letter queue also come
-- in their two parts, a read and a write, with anything in between.
--
-- A command of the command line returns the lines that it prints. Its flags are a record, and the
-- operating system answers by parameters: the files, the signals, the process that is to be stopped.
-- `worker stop` has a loop that only the outside ends; its fuel is the number of rounds, and more
-- than the number of the round in which the process is gone or the timeout is over is enough. The
-- digits of an int are at most 19, so that twenty rounds are enough to print it. SQLite's average of
-- the runtimes is a parameter, and so are the marshalling of JSON and YAML.
--
-- Not modelled: the recover of WithTx, since nothing that runs in a transaction panics in the
-- model, the packages cobra, zap and viper, the padding of printed tables, the messages that the
-- parts log, and the goroutine of `worker start` that waits for a signal. Locks around a map or a
-- field make a method one step. The texts of the errors of a policy, a configuration or a process
-- identifier leave out the numbers that they print. ReclaimOrphanedJobs is read with a scheduler
-- that is not nil. Where Complete returns an error it may have changed the log of its caller
-- already, and no caller reads it then.
mod Prelude
pub mod Domain
pub mod Store
pub mod Retry
pub mod Repository
pub mod Scheduler
pub mod Dlq
pub mod Service
pub mod Lifecycle
pub mod Pool
pub mod Config
mod Scenarios
pub mod Metrics
pub mod Cli
pub mod Database
pub mod Logger
