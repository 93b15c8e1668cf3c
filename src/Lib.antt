-- ===== src/Lib.antt =====
-- SOLVAREN, a control plane for mobile-money payment batches: the domain core of packages/core/src,
-- the workers of apps/api/src that pay a batch over it, and their job queue.
--
-- A batch of payment instructions is drafted and submitted by an L1 officer, approved by an L2 officer
-- and authorized by an L3 officer. Each step passes the permission matrix, the batch machine and the
-- separation of duties. Authorization signs a manifest, whose hash the release checks again, through a
-- challenge that is used once. The release passes the organization's policy. Each instruction is then a
-- transaction with its own machine, submitted under an idempotency fingerprint. Every step is recorded
-- in a hash-chained audit log.
--
-- The payments of a batch come from an uploaded CSV file. Once released, each is a job of the queue. A
-- worker that gets the job checks it again and writes the transaction before it calls the provider,
-- records the answer, and leaves the outcome to a callback, which is stored and processed as another
-- job. Where no callback comes, a sweep queries the outcome. Whoever settles the last transaction
-- settles the batch.
--
-- Which file models what:
--   Prelude: shared names; strings as lists of UTF-16 code units (Text), decimals, `join`, sorting by
--     code units, JavaScript integers (Number), lists, association lists and trimming.
--   Errors: packages/core/src/errors.ts. A throw is the `err` of a Result; a test that throws is
--     `throw_if`, and a sequence of them a do block.
--   Rbac: packages/core/src/rbac.ts and apps/api/src/services/permissions.ts; hasPermission is
--     `has_permission`, and so on in snake case for every function below.
--   Batch: packages/core/src/batch-state.ts. `assert_transition` looks the edge up in `edge_index`,
--     which is filled from `batch_edges`. Batch/Runs are sequences of commands.
--   Txn: packages/core/src/txn-state.ts. Txn/Runs are sequences of updates.
--   Money: packages/core/src/money.ts. An amount is a `Number`; the safe range is 2 ^ 53 - 1.
--   Manifest: packages/core/src/manifest.ts. Canonical and Build say when there is a manifest, Tamper
--     and Binding what its hash and the challenge's hash determine (of texts that Clean describes).
--   Sod, Policy, Idempotency, Msisdn: the files sod.ts, policy.ts, idempotency.ts and msisdn.ts of
--     packages/core/src.
--   Json, Redaction, Audit: packages/core/src/audit.ts, and the writer of
--     apps/api/src/db/audit-writer.ts. Audit/Chain is about verification, Audit/Events and Audit/Tamper
--     about what a verified log determines.
--   Export: packages/core/src/export-csv.ts; its laws read a field back as RFC 4180 says.
--   Csv: packages/core/src/csv.ts. `scan` is the loop of the reader, Csv/Columns the mapping of
--     the headers, Csv/Payments the checks of the rows, which `parse_payment_csv` puts together.
--     Csv/Rows is about one row, Csv/Accounts about all lines of a file.
--   Queue: apps/api/src/queue/queue.ts. A table is a list of jobs, of which `claim_batch`,
--     `settle_batch` and `recover_expired_leases` update the rows that their SQL selects. Queue/Table
--     has the constraints of db/migrations/0008_job_queue.sql, Queue/Runs sequences of operations.
--   Daraja: packages/daraja/src/callbacks.ts. How an amount is read is the argument `to_cents`.
--   Execution: apps/api/src/queues. Store has the tables as lists, and one batch. Ledger is the trigger
--     of db/migrations/0003_audit_immutability.sql on the transactions, through which every update
--     goes. Submit is prepareSubmission, Outcome the rest of executeInstruction, Settle
--     maybeSettleBatch (payment-executor.ts); Callbacks is callback-processor.ts (B2c applyB2cResult,
--     Status applyTransactionStatus), Reconcile is reconciliation-worker.ts, Reconcile/Sweeps
--     what its sweeps do to a case, Submit/Redelivery what a second delivery meets. Rows, Claims and
--     Sound are about what each operation keeps, Run about sequences of events: a message that is
--     prepared, its answer, early or late, a message given up, a callback, a sweep.
--     An operation that throws leaves the store as it was, as its database transaction rolls back.
--   Txn/Paths and Batch/Driven: sequences of edges of the two machines, for Execution.
--   Tests: runs at concrete inputs.
--
-- The digest is an argument `hash`. Where a theorem needs it, it has no collisions, and for the audit
-- log it prints no unit separator, as hexadecimal does not. Texts that are joined are taken to be free
-- of the separators where a theorem says so. Instants are epoch milliseconds.
--
-- Every loop is structural recursion. The only fuel is that of `decimal`, one more than the number,
-- which is enough, since each step divides by ten.
--
-- Left out: messages and details of errors, texts for the screen, SQL other than what the operations
-- above say, and the interleaving of statements inside a database transaction; instants in Execution,
-- so that the rows that a sweep picks are an argument; payloads of callbacks that their schema refuses;
-- HTTP, the throttle and the timers of the workers, cryptography, the release service, risk scoring,
-- and the web application.
pub mod Prelude
pub mod Errors
pub mod Rbac
pub mod Batch
pub mod Txn
pub mod Money
pub mod Manifest
pub mod Sod
pub mod Policy
pub mod Idempotency
pub mod Json
pub mod Redaction
pub mod Audit
pub mod Msisdn
pub mod Tests
pub mod Export
pub mod Csv
pub mod Daraja
pub mod Execution
pub mod Queue
