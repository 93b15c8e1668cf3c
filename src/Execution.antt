-- ===== src/Execution.antt =====
-- Execution of payments (apps/api/src/queues): the tables of one batch that the payment executor and the
-- callback processor share, their operations, and what holds of every sequence of them.
pub mod Store
pub mod Rows
pub mod Claims
pub mod Sound
pub mod Ledger
pub mod Submit
pub mod Outcome
pub mod Callbacks
pub mod Settle
pub mod Reconcile
pub mod Run
