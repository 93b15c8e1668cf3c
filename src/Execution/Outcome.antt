-- ===== src/Execution/Outcome.antt =====
-- What a worker writes after it has sent a payment (`executeInstruction`, `markForReconciliation` and
-- the handler of apps/api/src/queues/payment-executor.ts).
use slvrn.Prelude.{
  ℕ, ◌+◌, ◌*◌, ◌/◌, ◌^◌, leb, Bool, true, false, ◌&&◌, ◌||◌, Option, none, some, if◌then◌else◌,
}
use slvrn.Prelude.Text.{Text, codes, text_eq, is_text}
use slvrn.Errors.{Result, ok, ErrorCategory, ◌>>=◌}
use slvrn.Idempotency.{IdempotencyState}
use slvrn.Txn.{TxnState, state_eq, is_settled, sync_ack, system, assert_txn_transition}
use slvrn.Daraja.{resolved_failure_code, or_else}
use slvrn.Execution.Store.{
  Store, Transaction, Claim, find_last, of_instruction, update_claims, set_instruction, note,
  open_case,
}
use slvrn.Execution.Ledger.{update_transactions}
use slvrn.Execution.Submit.{PaymentQueueMessage, SubmissionContext}
use slvrn.Execution.Settle.{maybe_settle_batch}

-- What the executor reads of a `SolvarenError`: its code as a text, and `details.errorCode`,
-- `details.httpStatus` and `details.retryAfterMs`.
pub record SubmissionError : Type 0 where
  pub category : ErrorCategory
  pub code : Text
  pub message : Text
  pub error_code : Option Text
  pub http_status : Option ℕ
  pub retry_after_ms : Option ℕ

abbrev pub has_id : Text → Transaction → Bool
has_id id t = text_eq t.id id

-- `WHERE id = … AND status = 'SUBMITTED'`.
abbrev pub awaits_ack : Text → Transaction → Bool
awaits_ack id t = text_eq t.id id && state_eq t.status TxnState.submitted

abbrev pub mark_accepted : Option Text → Transaction → Transaction
mark_accepted conversation_id t = record t {
  status = TxnState.awaiting_callback;
  conversation_id = conversation_id;
  status_source = sync_ack;
}

-- The provider has accepted the request. Only the transaction's update is conditional.
unfoldable pub record_accepted : SubmissionContext → Option Text → Store → Result Store
record_accepted context conversation_id s = do
  transactions ←
      update_transactions (awaits_ack context.transaction_id) (mark_accepted conversation_id)
        s.transactions
  ok (
      note (codes "daraja.b2c.accepted") (record s {
        transactions = transactions;
        instructions =
            set_instruction context.instruction.id TxnState.awaiting_callback s.instructions;
      }))

abbrev pub at_least : ℕ → Option ℕ → Bool
at_least n none = false
at_least n (some m) = leb n m

-- The request may have been processed.
unfoldable pub is_ambiguous : SubmissionError → Bool
is_ambiguous error =
    text_eq error.code (codes "DARAJA_TIMEOUT")
    || text_eq error.code (codes "DARAJA_UNREACHABLE")
    || is_text error.error_code (codes "500.002.1001")
    || is_text error.error_code (codes "500.003.1001")
    || is_text error.error_code (codes "500.001.1001")
    || at_least 500 error.http_status

abbrev pub mark_timeout : Text → Transaction → Transaction
mark_timeout code t = record t {
  status = TxnState.timeout;
  failure_code = some (resolved_failure_code (some code));
  status_source = system;
}

-- The latest transaction of the instruction, unless it is settled, becomes TIMEOUT.
unfoldable pub mark_unsettled : Text → Text → Transaction → Store → Result Store
mark_unsettled instruction_id code t s = if is_settled t.status then ok s else do
  transactions ← update_transactions (has_id t.id) (mark_timeout code) s.transactions
  ok (
      note (codes "daraja.b2c.outcome_unknown") (
        open_case t.id false (record s {
          transactions = transactions;
          instructions = set_instruction instruction_id TxnState.timeout s.instructions;
        })))

unfoldable pub mark_for_reconciliation : Text → Text → Store → Result Store
mark_for_reconciliation instruction_id code s =
    elim (find_last (of_instruction instruction_id) s.transactions) [
      | none ↦ ok s
      | some t ↦ mark_unsettled instruction_id code t s
    ]

abbrev pub ambiguous_code : SubmissionError → Text
ambiguous_code error =
    if is_text error.error_code (codes "500.002.1001")
    then codes "500.002.1001"
    else codes "SLV_TIMEOUT"

abbrev pub rejected_code : SubmissionError → Text
rejected_code error =
    resolved_failure_code (or_else error.error_code (some (codes "SLV_SUBMIT_FAILED")))

abbrev pub mark_rejected : Text → Transaction → Transaction
mark_rejected code t = record t {
  status = TxnState.failed;
  failure_code = some code;
  status_source = sync_ack;
}

abbrev pub settle_claim : Claim → Claim
settle_claim claim = record claim { state = IdempotencyState.settled }

-- The provider refused the request itself.
unfoldable pub record_rejected : SubmissionContext → SubmissionError → Store → Result Store
record_rejected context error s = do
  checked ← assert_txn_transition (record {
    before = TxnState.submitted;
    to = TxnState.failed;
    source = sync_ack;
    provider_receipt = none;
    failure_code = some (rejected_code error);
  })
  transactions ←
      update_transactions (has_id context.transaction_id) (mark_rejected (rejected_code error))
        s.transactions
  ok (
      note (codes "daraja.b2c.rejected") (record s {
        transactions = transactions;
        instructions = set_instruction context.instruction.id TxnState.failed s.instructions;
        claims = update_claims context.instruction.id settle_claim s.claims;
      }))

-- What the client's call gives: the acknowledgement's conversation id, or an error.
pub data Answer : Type 0 where
  accepted : Option Text → Answer
  refused : SubmissionError → Answer

-- `executeInstruction` after the call.
unfoldable pub record_answer :
    PaymentQueueMessage → SubmissionContext → Answer → Store → Result Store
record_answer message context (accepted conversation_id) s =
    record_accepted context conversation_id s
record_answer message context (refused error) s =
    if is_ambiguous error
    then mark_for_reconciliation message.instruction_id (ambiguous_code error) s
    else do
      s' ← record_rejected context error s
      ok (maybe_settle_batch message.organization_id message.batch_id s')

-- What `handlePaymentBatch` does with the message of an instruction whose execution threw.
pub data Disposition : Type 0 where
  ack : Disposition
  retry : ℕ → Disposition
  exhausted : Disposition

abbrev pub max_execution_attempts : ℕ
max_execution_attempts = 3

abbrev pub is_deterministic : ErrorCategory → Bool
is_deterministic ErrorCategory.state = true
is_deterministic ErrorCategory.policy = true
is_deterministic _ = false

abbrev pub min : ℕ → ℕ → ℕ
min a b = if leb a b then a else b

-- `Math.max(1, Math.ceil(ms / 1000))`.
abbrev pub throttle_seconds : Option ℕ → ℕ
throttle_seconds none = 1
throttle_seconds (some ms) = let seconds = (ms + 999) / 1000 in if leb 1 seconds then seconds else 1

unfoldable pub retry_or_give_up : ℕ → Disposition
retry_or_give_up attempt =
    if leb max_execution_attempts attempt then exhausted else retry (min 300 (10 * 2 ^ attempt))

-- `none` is a thrown value that is no `SolvarenError`.
unfoldable pub disposition : Option SubmissionError → ℕ → Disposition
disposition none attempt = retry_or_give_up attempt
disposition (some error) attempt =
    if is_deterministic error.category
    then ack
    else if text_eq error.code (codes "RATE_LIMIT_LOCAL")
    then retry (throttle_seconds error.retry_after_ms)
    else retry_or_give_up attempt
