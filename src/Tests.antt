-- ===== src/Tests.antt =====
-- Runs of the definitions on concrete inputs, and the theorems applied to them.
mod Approvals
mod Payments
mod Records
mod Execution
mod Queue
mod Csv
