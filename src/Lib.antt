-- ===== src/Lib.antt =====
-- execgo-runtime: the verification library of the task runtime.
--
-- The program runs tasks for a control plane. A submission (src/types.rs) is validated, negotiated
-- against what the runtime can do (src/policy.rs), checked against the capacity and the quota of
-- its tenant (src/ledger.rs), and stored as a row and events (src/repo.rs). A dispatcher reserves
-- resources for accepted tasks and starts a shim process for each; the shim runs the program,
-- supervises it and stores its end (src/runtime.rs). What the host can do is probed at the start
-- (src/capabilities.rs). Errors have a code and an HTTP status (src/error.rs). The same binary is
-- the client of a server (src/cli.rs).
--
-- Files and the code they model:
-- - Base and Base/: tests on native numbers, lists, saturating 64-bit words, texts (trim, split,
--   split_once, decimal numbers; Trim is about trim) and association lists, as the standard library
--   of Rust has them.
-- - Types/: the types and the validations of src/types.rs. Status has TaskStatus, ErrorCode and
--   EventType; Execution, Control, Sandbox, Limits and Request have the structs with their
--   `validate`; Views has the responses; Plan and Capability have the plan and the capabilities;
--   Validity and Submission prove what the validations accept.
-- - Errors: src/error.rs. AppError with its code, status and text; AppResult is the result type of
--   the whole model, with do blocks for `?`.
-- - Ledger: src/ledger.rs, and add_reservation and subtract_reservation of src/runtime.rs.
--   Ledger/Fit is about admission, Ledger/Totals about sums.
-- - Policy: src/policy.rs. resolve_execution_plan is cut into its steps, profile, chroot,
--   namespaces, limits and plan; the two `&mut` locals are the record Fallbacks. Policy/Modes
--   compares strict and adaptive runs, Policy/Effective is about the plan, Policy/Undegraded about
--   one that is not degraded, Policy/Strict about what a strict negotiation accepts.
-- - Capabilities: src/capabilities.rs, probe_runtime_capabilities and its detections on the record
--   Host of what the host answers; Capabilities/Isolation joins it with the negotiation.
-- - Repo: src/repo.rs. Repo/Rows has the two tables as the record Store, a list of task rows and a
--   list of events in the order of insertion, and the next event number. Repo/Writes and
--   Repo/Finish have one function for each method of Repository that writes, Repo/Queries one for
--   each that reads, Repo/Codec the texts of the enumeration columns, Repo/Columns the columns of a
--   row and row_to_task_record, Repo/Columns/Statements what the INSERT and the UPDATE of a
--   completion write to them; Repo/Columns/Represented says which columns stand for a row of the
--   tables, Repo/Columns/Stored is about their reading, Repo/Columns/Written about the statements,
--   and about what is read of a new task. Repo/Effects gathers the writes on a task in the data
--   type Write; Repo/Touch, Repo/Lifecycle, Repo/Totality, Repo/Missing, Repo/Consistent and
--   Repo/History prove what they do.
-- - Metrics: src/metrics.rs, render_prometheus; Metrics/Buckets is about the numbers of its
--   histogram.
-- - Runtime/: src/runtime.rs. Runtime/Service is submit_task, Runtime/Kill is kill_task,
--   Runtime/Recovery is recover, Runtime/Gc is one pass of gc_loop, Runtime/Dispatch is
--   dispatch_once_sync with its loop, its budget of running totals and the start of a shim.
--   Runtime/Shim is run_internal_shim, Runtime/Watch its loop supervise_wait, Runtime/Classify is
--   classify_completion. Runtime/Admission is about submissions, Runtime/Stopping and Runtime/Stop
--   about kills; Runtime/Recovered and Runtime/Restarted about the recovery of a task and of the
--   table, with Runtime/Sorted on sorted lists of rows; Runtime/Held has the exact sums of what the
--   tasks hold, Runtime/Capacity relates them to the running totals, Runtime/Cycle follows the
--   loop, and Runtime/Within is about a whole cycle. Runtime/Shares is about the rows of one
--   tenant, Runtime/Quota about a write and what the tasks of a tenant hold, Runtime/QuotaCycle and
--   Runtime/QuotaWithin follow the loop and a whole cycle for a tenant. Runtime/TenantQuota is
--   parse_tenant_quota, and Runtime/QuotaText is about what it reads. Runtime/Launch is
--   spawn_task_process with build_command, minimal_env and setup_cgroup, as a state monad over the
--   world that a launch leaves, its files and its process; Runtime/Child is what the child does
--   before exec, as calls that change what a process is, as their manuals document it: unshare
--   moves the caller into every namespace that is asked for but the pid namespace, which only its
--   later children enter. Runtime/Launched says which process a plan promises, Runtime/Outcome what
--   a launch leaves, Runtime/Started and Runtime/Requested that a launch does so, Runtime/Failing
--   and Runtime/Leftover which launches leave a process behind, Runtime/Environment which variables
--   it has. Runtime/Final, Runtime/Ending, Runtime/Turns and Runtime/Returns are about the end of a
--   task, Runtime/Signals about the signals of the watch. Runtime/Usage is wait_for_pid and the
--   readings of the cgroup. Runtime/Settings is Settings::from_args and RuntimeService::new,
--   Runtime/Reads the operations that only read, Runtime/Resources is runtime_resources, and
--   Runtime/TenantViews is about its tenants. Runtime/Reached, Runtime/Reached/Restarts and
--   Runtime/Reached/Tasks take every operation apart into the transitions of the repository.
-- - Server: src/server.rs, every handler as one function from a request and the tables to the
--   tables and a response; Server/Refusals is about the responses of client errors, Server/Owners
--   about the owner of a kill.
-- - Program: the handlers, the dispatcher, the shims, the recovery and the garbage collection in
--   any order on one database, as the relation Runs.
-- - Client: the commands of src/runtime.rs that call a server, their addresses, the owner header
--   and wait_remote; Client/Commands has their arguments, the requests that they send and
--   run_remote; Client/Waiting is about the end of a wait.
--
-- The shim and the service are two processes on one database. The watch of a shim is a list of
-- turns, each with the readings of its clock and a function on the tables for what the service did
-- before it; a theorem about all lists of turns is about every interleaving at the grain of the
-- turns. Likewise submit_task and kill_task take, as functions on the tables, what the others do
-- between their transactions; the handlers of Server are the ones that nobody interrupts, and
-- Program has both. The transactions of one cycle of the dispatcher, of a recovery and of a pass of
-- the garbage collection follow one another in the model, with no other operation in between.
--
-- What the operations of Runtime ask of the system, a process, a signal, a file, the clock, is a
-- record of functions that they take (System, Host, Killer, Restart, Machine, and the Host of
-- Capabilities): any answer is possible, and the theorems hold for all of them.
--
-- State and errors: a write takes the tables and returns new tables or an error. An error rolls the
-- transaction of SQLite back, so the caller keeps the old tables. An operation of several writes
-- returns the tables beside its result (Progress), since an error after a write does not undo it.
-- The readings of the clock in an operation are the values of a function of type Clock, in their
-- order. In the tables a JSON column holds the value that it encodes; in Repo/Columns it holds a
-- text, and serde_json is a parameter. Times and process numbers are natural numbers; sums of the
-- ledger saturate at 2^64 - 1 as in the source.
--
-- Bounds: every loop is structural recursion on a list or a text, the watch on the list of its
-- turns, wait_for_pid on the answers of wait4; the printing of a number uses fuel, twenty digits,
-- which a 64-bit number never exceeds, and wait_remote takes the number of its polls as fuel: with
-- a timeout the polls that fit into it and two more are enough.
--
-- Not modelled: the launch on other systems than Linux; SQLite, the file system, processes, signals
-- and cgroups, which answer as they like; the routing and the JSON of axum, the HTTP client, and
-- the parsing of arguments by clap. run_internal_shim takes the answer of wait_for_pid as it takes
-- those of the system. Paths are Unix paths as texts, with the standard library's `join`,
-- `is_absolute` and components. A map is the list of its entries; code that iterates over one reads
-- them in the order of their keys.
mod Base
pub mod Types
pub mod Errors
pub mod Ledger
pub mod Metrics
pub mod Capabilities
pub mod Policy
pub mod Repo
pub mod Runtime
pub mod Server
pub mod Program
pub mod Client
