-- ===== src/Lib.antt =====
-- The control plane of Trail Signal OS: the tables that hold its tasks, and the Python modules of
-- control/ that admit tasks, lease them to workers, publish them to Redis streams, take their
-- failures and recover from the loss of workers and streams. Around it: the compiler and the node
-- executor of workflows, the lineage of artifacts, the coverage of signals, and the routes of the API
-- that write.
--
-- A task is admitted by the scheduler (`run_admission_tick` measures backpressure, selects a fair
-- batch of candidates and calls `admit_task`), which writes the READY row and its outbox event in
-- one transaction. The dispatcher publishes outbox events. A worker takes a lease on a READY row,
-- keeps it by heartbeats and writes results through fenced updates; the reaper gives expired leases
-- back. A failure is classified and either ends the task or has it wait for a retry, after a backoff
-- or until the circuit of its route lets requests through; the scheduler then admits it again.
--
-- Store models the tables of db/migrations/002_core_foundation.sql: Task, OutboxEvent, Job,
-- Dependency and Db. Leases models control/leases (`acquire_lease`, `heartbeat`,
-- `reclaim_expired_leases` in Leases/Reaper, `update_task_fenced` in Leases/Fencing). Retries models
-- control/retries: Classifier is classifier.py, Backoff is backoff.py, Circuit and Registry are
-- circuit_breaker.py, Handle is handle.py, DeadLetter
-- is dead_letter.py. Dispatcher models control/dispatcher:
-- Streams is streams.py, Enqueue is enqueue.py, Publish is publish.py and republish.py, and Redis is
-- the client they use. Scheduler models control/scheduler: Budgets, Concurrency, Backpressure,
-- Dependencies, Fairness and Admit are the files of those names. Resources models
-- control/resources: Phases is phase_gating.py, Pressure is pressure_policy.py with
-- `classify_pressure`, Governor is governor.py. Guards is the part of guards/ that control/ calls.
-- Api models control/api: DeadLetters is routes_dead_letters.py and Jobs is routes_jobs.py. Graph
-- models graph: Compiler and Persist are compiler.py (with guard 8 of guards/schema_guards.py in
-- Guard8), Executor is executor.py; Texts and Values are the texts and the values of a YAML document,
-- and Outcomes the postconditions of computations that may fail. Harness is
-- harness/node_executor.py, its loop in Harness/Execute. Lineage models lineage: Edges is edges.py,
-- Trace is trace.py, Diff is diff.py and Replay is replay.py. Reconciliation models
-- control/reconciliation: Counters, Artifacts and Tasks are the files of those names, Pass is run.py.
-- SignalEngine models signal_engine: Coverage and Gate are coverage.py, Tiers
-- is tiers.py.
-- Functions have the names of the source; the files below a component prove its laws, and Tests
-- applies them to small tables.
--
-- A statement of SQL is an operation on the list of the rows: SELECT is `select`, `first` is
-- fetchone, UPDATE is `update`, ORDER BY a stable sort, RETURNING has the order of the table. One
-- statement runs at a time, so no row is locked by anybody else and SKIP LOCKED skips none; NOW() is
-- an argument. HasUniqueIds is the primary key of tasks. A function returns its result beside the
-- state that it leaves; an exception is a value of Error. Texts that are only compared or carried
-- are natural numbers, and so are times, in microseconds, and the shares of memory. Integers are not
-- bounded: the width of the columns of the database is not modelled.
--
-- A random jitter is an argument, in millionths; a failure rate is compared in hundredths; a
-- cooldown schedule is not empty; the route key is the text that `handle_task_failure` joins. The
-- additional assignments of a fenced update are those of the columns that Leases/Fencing lists; it
-- raises where its row would break the CHECK of the attempt or name an artifact that is not there.
-- The `while` of `select_fair_batch` runs on `fair_fuel` rounds: a round serves a candidate or
-- raises the credits of every job with work, so that many are enough where no weight is zero. What
-- the configuration files hold is an argument, with their contents beside it as defaults. The
-- Redis client is an argument, with the laws of XADD as it is documented, without trimming, as
-- hypotheses.
--
-- A workflow compiles to rows (`compile_workflow_yaml`), which `persist_compiled_workflow` writes
-- and `build_node_definition` turns into what `execute_node` runs; the YAML parser, the hash, the
-- schema validator, the JSON codec, the verifiers and the gateway are arguments, and the gateway
-- may answer each attempt differently. Texts of documents are lists of code points, so that
-- stripping and comparing them is that of the source. The executor's loop counts the rounds left.
-- The `while` of `trace_ancestors` runs on two more rounds than the table has edges: a round
-- shortens the queue, or visits a node and queues at most its edges, which no later round does
-- again, so that many are enough on every graph; the walk of a replay has the same bound. The
-- kinds of artifacts are told apart as the trace does it, and their numbers stand in the order of
-- their texts, with room for a thousand kinds on each side of `query_spec` and below `task`.
-- Confidences are numbers of one unit, and the rounding of a float to two places is an argument.
-- Whether a schema has its file is an argument too. The job identifiers that SHA-256 gives are a
-- function that is an argument.
--
-- Not modelled: the readers of host memory, connections and the loading of settings, which are
-- input and output; of the API, the creation of jobs, the validation fan-out and the routes that
-- only read; the Mermaid rendering and the verifiers of graph; of signal_engine, the score, the
-- decision table, classification and freshness; the adapter of the language-model library;
-- workers, src/niche_research, mcp and db/repositories but for the insertion of edges, which use
-- or wrap the modelled parts; and the guards that scan the repository.
pub mod Prelude
pub mod Store
pub mod Guards
pub mod Leases
pub mod Retries
pub mod Dispatcher
pub mod Scheduler
pub mod Resources
pub mod SignalEngine
pub mod Lineage
pub mod Graph
pub mod Harness
pub mod Api
pub mod Reconciliation
pub mod Tests
