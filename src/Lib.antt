-- ===== src/Lib.antt =====
-- A verification library for workflow-runtime-core: the registry of workflow runs, the messaging
-- core, the runner and the operator's migrations and grants, which keep their state in one
-- PostgreSQL database.
--
-- The program's parts. A consumer creates runs (src/workflow_runtime_core/registry.py), a queue or
-- a dispatcher hands them to workers (claims and leases in registry.py, launches in
-- messaging/launches.py), an ingress submits events (messaging/inbox.py), a worker runs the graph
-- of a claimed run and settles, pauses or fails it (executor/runner.py), replies leave through a
-- transactional outbox (messaging/outbox.py) that the egress pump (messaging/egress.py) drains,
-- and the effects at a provider are fenced by receipts (messaging/receipts.py). An operator applies
-- the migrations (migrations.py) and the grants (grants.py). They share nothing but the database,
-- so each function is a transition of the tables, and concurrency is the order in which sessions
-- run them.
--
-- The files:
--   Base, Json: helpers (tables as lists with SELECT, UPDATE and DELETE, ORDER BY, tests on
--     numbers and texts, integers) and JSON documents.
--   Exec: a statement is a function from a state to a result and the state after it;
--     `transaction` undoes what a raising block wrote. The rules for blocks are in Exec.Keeps and
--     Exec.Inversion.
--   Models: models.py (RunStatus, RunRecord, usage, spend_ceiling_minutes, cancellation_state;
--     Models.Public is RunRecord.public).
--   Db: the rows of migrations.py, the session (`Conn`) with its clocks, `emit` (_emit),
--     `update_run` and `insert_run` with the primary key, both partial unique indexes and the
--     foreign keys.
--   Registry: registry.py by its parts: Record (from_row, get_run, find_by_idempotency_key),
--     Create (create_run), Retry (create_retry), Claim (claim_run, claim_dispatch, set_dispatch,
--     set_input_set, mark_dispatch_failed), Lease (renew_lease, release_lease,
--     release_cancelled_attempt_lease, requeue_expired_lease, record_progress), Outcome
--     (mark_paused, mark_completed, mark_failed, mark_failed_structured, request_resume,
--     cancel_run), Metadata (pin_execution_metadata and the record_* functions), Retention
--     (delete_run, prune_terminal_runs), Events (record_event, list_events, public_events),
--     Queries (list_runs, retention_candidates); History is any sequence of sessions over them,
--     and Lifecycle the moves of a run's status. Registry.Invariant, Registry.Sound and the
--     modules below the parts hold the proofs.
--   Messaging: Backoff (_backoff.py), Outbox, Launches, Envelope, Inbox and Egress (the files of
--     those names; Outbox.Upkeep is reconcile_stale, the depths and purge_delivered);
--     Json.Encoded is the size of json.dumps.
--   Messaging.Receipts: Transition (the operations of _receipt_sql.py: what each asks of the row
--     and does to it), Sql (its statements), and receipts.py in Ops (make_actor, open_receipt,
--     claim, claim_due), Settle (what the holder of a claim may do) and Review (reconcile_stale,
--     the lists, resolve, review_uncertain, reconcile_known_ref); Steps is any sequence of
--     sessions over them. Quiet, Keeps and Rows are the rules that the proofs share.
--   Migrations: migrations.py: Ledger (the chain and verify_ledger), Apply (apply_migrations with
--     set_role of auth.py) and App (apply_app_migrations), with the proofs in the modules beside
--     and below them; Schema: schema.py.
--   Transport: transport/topology.py; Grants: grants.py.
--   Executor: Progress (executor/progress.py) and executor/runner.py: Failure (what an exception
--     says of itself, _record_failure), Stream (the graph's stream under its deadline and its
--     lease), Drive (_execution_scope to the outcome) and Run (run_once, execute, _finalize).
--   Tests: the definitions run on concrete databases.
--
-- Conventions. A time is a number of microseconds; `now` of a session is the transaction's now()
-- and `utcnow` the process's clock, which claim_dispatch compares a lease with. In Executor.Stream
-- times count from the start of the stream. A function with `FOR UPDATE` reads and writes in one
-- step. Rows that another session holds under `FOR UPDATE SKIP LOCKED` are a parameter, any test
-- on rows, and so is the database's order of texts. Rows that ORDER BY leaves tied come in the
-- order of the table. The columns of a schema version are there where schema_meta says so: a
-- statement that names later columns or tables fails, as in the source, and a failed statement
-- aborts its transaction. Identifiers (uuid.uuid4), random numbers, str() of a JSON value, digests
-- and the text of a time come from the session, as functions; nothing is assumed of them but where
-- a theorem says so. A limit or a lease that the source takes as a negative integer is refused like
-- 0. The binding, the graph's chunks, how a cancelled graph goes on, how long
-- a renewal of the lease takes and what it answers or raises, and the exceptions of the runner are
-- parameters (records of functions and of events), and so are PostgreSQL's answers about roles,
-- privileges and statements to the operator's commands, with the grants that other grantors made.
-- An attribute of an exception that is no JSON reads as null. A migration's body is a text that is
-- executed once and remembered; what it does to rows is in the schema version. GRANT and REVOKE
-- are data in place of their text. Each definition is a structural recursion on a list, a text or
-- a document, but for decimal_length, which counts the digits of a number on that number as fuel
-- (Json.Encoded proves that it counts them all), and renewal_loop, which has as many rounds as the
-- stream has microseconds, and one (Executor.Stream.Renewal proves that they are enough). The
-- counters are natural numbers; INTEGER overflow in PostgreSQL is not modelled, nor are the texts
-- of errors, and a JSON null in a column reads as a value other than SQL's NULL. A block that is
-- rolled back may draw an identifier again.
--
-- Not modelled: credentials and connections (auth.py), the command line, the RabbitMQ transport,
-- the checkpointer and the scope of an attempt that it opens, which call other libraries; an exit
-- of that scope that raises; the database functions that give a restricted role the statements of
-- the receipts (receipt_capabilities.py, _receipt_capability_ddl.py); and the repository's scripts.
mod Base
pub mod Exec
pub mod Json
pub mod Models
pub mod Db
pub mod Registry
pub mod Messaging
pub mod Migrations
pub mod Schema
pub mod Transport
pub mod Grants
pub mod Executor
mod Tests
