-- ===== src/Lib.antt =====
-- A durable job queue for several worker processes on one SQLite file (Go).
--
-- The program. internal/queue/sqlite.go keeps jobs, events and retention runs in three tables and
-- has one method per SQL statement or small group of them; internal/queue/queue.go puts a store
-- operation and the event that records it together into the queue's operations; internal/queue/
-- prune.go deletes old jobs and events in one transaction. Workers (internal/worker) lease jobs,
-- renew the lease while a handler runs and then acknowledge or fail the job, showing the lease's
-- token. internal/archive verifies exported histories; internal/fault injects failures into
-- handlers; internal/metrics and internal/web show the queue's state, and the dashboard of internal/web
-- requeues dead letters; internal/cli makes commands of them, and internal/fixture sample jobs.
--
-- The files.
--   Prelude      lists, integers, texts and orders over the native numbers, and shared predicates.
--   Clock        times, and the RFC3339Nano text that SQLite stores and compares.
--   Models       internal/queue/models.go and the metadata of events.
--   Store        internal/queue/sqlite.go and prune.go. Store.antt has the tables (`Row`, `EventRow`,
--                `RunRow`, `Db`), what comes from outside (`Env`) and the monad of store actions
--                (`Exec`); Rows scans and updates; Claim is LeaseJob and LeaseJobByID; Insert is
--                InsertJob, FindJobByIdempotencyKey and AppendEvent; Changes is completeJob, failJob,
--                RenewJob and RequeueJob; Recover is RecoverOrphanedLeases; Prune is
--                PruneWithSource; Queries, Listings and Counts are the reading methods; Schema
--                is migrate, ensureColumn and the store's options. Keeps, Transactions,
--                Columns, Lookup, Readable, Attempts, ClaimOrder, Queries/Separate and
--                Schema/Migrated hold lemmas; Precedence and Queries/Tally say which jobs wait, in
--                what order, and how many are in a state, and Removal what a retention run
--                removes, without the code's tests; Retention, Kept, Queries/Pages, Counts/Totals and
--                Schema/Complete hold theorems.
--   Queue        internal/queue/queue.go, one function per operation; Options has the functional
--                options; Idempotency, Enqueueing, Leased, Outcomes, Failing and Failures hold
--                theorems, Leasing and Requeues lemmas.
--   Statements   the writing statements as one data type, so that an interleaving of processes is a
--                list. Refine shows the operations made of them; Shape, Reading, Exclusive, Grants,
--                Dispatch and Races hold the theorems on all interleavings.
--   Calls        the queue's operations as one data type, so that a history is a list of calls;
--                Inspection and Snapshot have what a snapshot shows after them, Replay how the log
--                replays.
--   Archive      internal/archive/archive.go; Transition has the replay; Soundness, Fitting, Acceptance
--                and Exact describe what it accepts, Report counts what it reports.
--   Journal      the invariant that ties the event log to the jobs, which the operations of the queue
--                and the verifier share; one child for each group of operations (Runs and Recovery for
--                the recovery), Suffix for the retention cap, Records and Numbers for what an export
--                makes of it, Broken for the call that breaks it.
--   Fault        internal/fault/fault.go; Attempts holds its theorem.
--   Worker       internal/worker/worker.go: processOne, the heartbeat, runHandler and retentionLoop,
--                with lists of the statements that other processes run before each renewal and before
--                the end; Pool is the options and Run's loop; Fencing, Refine, Progress and Pool/Bounds hold the theorems.
--   Metrics      internal/metrics/metrics.go: the lines of a scrape; Exposition holds its theorem.
--   Web          internal/web/server.go: the handlers, their routes and the credentials; Access,
--                Listing and Requeueing hold the theorems.
--   Fixture      internal/fixture/fixture.go: LoadSampleData; Again holds its theorem.
--   Cli          internal/cli: the commands as functions of their flags; Positional is util.go, Serving
--                the flags of web.go and work.go; Arguments, Scheduling, Serving and
--                Exporting hold theorems; Demo is demo.go, and its children Verification, Idle and
--                Names hold theorems.
--   Tests        runs on small inputs and the theorems at concrete inputs.
--
-- How the model corresponds to the code. A Go method that talks to the store is an `Exec`, a function
-- from the world (the tables and a count of actions) to a result and a world; an error is a value,
-- and what was written before it stays written. Each SQL statement is one step on the tables, as
-- SQLite runs one writer at a time. The environment `Env` says what the clock reads, what the random
-- source gives and whether the driver fails at each action, for every possible choice; the
-- floating-point value of SQLite's aging term is one of its fields. A nil error with a nil job is
-- `ok none`. The empty lease token and the empty idempotency key mean none, as in the code.
--
-- Texts are lists of bytes, and LIKE folds the ASCII letters. Integers do not wrap: counts and
-- priorities in the code are 64-bit and stay far below that. A stored timestamp is the second that
-- its first nineteen bytes name and the bytes behind them, for years of four digits in UTC; a
-- duration that reaches before the zero time stops there. Metadata is kept as the values that its
-- text is printed from. Wrapped errors are their causes. SQLite does not enforce the foreign key of
-- `events`, which the code leaves off. An ORDER BY that leaves a tie keeps the order of the table.
--
-- A run of the worker's pool is a chain of steps in any order. There is no fuel: every
-- loop of the code that is modelled runs over a list, the heartbeat over the list of renewals that
-- fall due. The rounds of one of a worker's goroutines are taken a number at a time, which
-- Worker.Progress counts.
--
-- Not modelled: opening the driver, PRAGMA settings and indexes; an iteration over a query's rows
-- that fails midway (a query of the model fails before its first row or not at all, while most
-- reading methods of sqlite.go do not ask rows.Err and return what they have read); the worker's timers, its guard
-- against a second run and Stop; main.go, the scripted scenario of the demonstration, the flag
-- package and what commands print; JSON encoding and decoding (a line of an archive, a fault payload
-- and the body of a request are what the decoder makes of them);
-- the messages of the verifier's issues and its read errors; templates, headers, static files and
-- failing writers of the dashboard, and how the numbers and labels of a scrape are printed. The bodies
-- of responses are kept as what is rendered.
mod Prelude
pub mod Clock
pub mod Models
pub mod Store
pub mod Queue
pub mod Archive
pub mod Fault
pub mod Worker
pub mod Metrics
pub mod Web
pub mod Fixture
pub mod Cli
pub mod Journal
pub mod Statements
pub mod Calls
mod Tests
