-- ===== src/Execution/Callbacks/Status.antt =====
-- The result of a status query (`applyTransactionStatus`, apps/api/src/queues/callback-processor.ts).
use slvrn.Prelude.{suc, Bool, true, false, ◌||◌, Option, none, some, if◌then◌else◌}
use slvrn.Prelude.Text.{Text, codes, text_eq, is_text}
use slvrn.Errors.{Result, ok, ◌>>=◌}
use slvrn.Txn.{TxnState, is_settled, status_query, assert_txn_transition}
use slvrn.Daraja.{
  ParsedTransactionStatusResult, StatusOutcome, interpret_transaction_status, resolved_failure_code,
  or_else,
}
use slvrn.Execution.Store.{
  Store, Transaction, Case, CaseState, querying, resolved_success, resolved_failed, unmatched,
  duplicate, ignored_settled, applied, update, update_claims, set_instruction, note, close_callback,
  is_active_for,
}
use slvrn.Execution.Ledger.{update_transactions}
use slvrn.Execution.Outcome.{has_id}
use slvrn.Execution.Settle.{maybe_settle_batch}
use slvrn.Execution.Callbacks.B2c.{CallbackQueueMessage, mark_claim, open_case_if, match_row}

abbrev pub status_agrees : TxnState → StatusOutcome → Bool
status_agrees TxnState.success StatusOutcome.success = true
status_agrees TxnState.failed StatusOutcome.failed = true
status_agrees _ _ = false

abbrev pub is_outcome : StatusOutcome → Bool
is_outcome StatusOutcome.success = true
is_outcome StatusOutcome.failed = true
is_outcome _ = false

unfoldable pub keep_settled_status : Text → StatusOutcome → Transaction → Store → Store
keep_settled_status callback_id outcome t s =
    if status_agrees t.status outcome
    then close_callback callback_id duplicate s
    else open_case_if (is_outcome outcome) t.id true (close_callback callback_id ignored_settled s)

abbrev pub set_case : CaseState → Case → Case
set_case state c = record c { state = state }

abbrev pub count_query : Case → Case
count_query c = record c { state = querying; query_attempts = suc c.query_attempts }

abbrev pub status_failure : ParsedTransactionStatusResult → Bool → Option Text
status_failure parsed succeeded =
    if succeeded
    then none
    else some (
        resolved_failure_code (
          some (
            if text_eq parsed.result_code (codes "0")
            then codes "SLV_NO_CALLBACK"
            else parsed.result_code)))

abbrev pub status_target : Bool → TxnState
status_target succeeded = if succeeded then TxnState.success else TxnState.failed

abbrev pub mark_status : ParsedTransactionStatusResult → Bool → Transaction → Transaction
mark_status parsed succeeded t = record t {
  status = status_target succeeded;
  mpesa_receipt_number = or_else parsed.receipt_number t.mpesa_receipt_number;
  failure_code = status_failure parsed succeeded;
  status_source = status_query;
}

unfoldable pub apply_status_outcome :
    Text → ParsedTransactionStatusResult → Bool → Transaction → Store → Result Store
apply_status_outcome callback_id parsed succeeded t s = do
  checked ← assert_txn_transition (record {
    before = t.status;
    to = status_target succeeded;
    source = status_query;
    provider_receipt = parsed.receipt_number;
    failure_code = status_failure parsed succeeded;
  })
  transactions ← update_transactions (has_id t.id) (mark_status parsed succeeded) s.transactions
  ok (
      note (codes "daraja.status_query.resolved") (
        close_callback callback_id applied (record s {
          transactions = transactions;
          instructions = set_instruction t.instruction_id (status_target succeeded) s.instructions;
          claims = update_claims t.instruction_id (mark_claim (status_target succeeded)) s.claims;
          cases =
              update (is_active_for t.id)
                (set_case (if succeeded then resolved_success else resolved_failed)) s.cases;
        })))

-- The provider is still working: the case waits for the next query.
unfoldable pub keep_querying : Text → Transaction → Store → Store
keep_querying callback_id t s =
    close_callback callback_id applied
      (record s { cases = update (is_active_for t.id) count_query s.cases })

unfoldable pub apply_status_unsettled :
    Text → ParsedTransactionStatusResult → Transaction → StatusOutcome → Store → Result Store
apply_status_unsettled callback_id parsed t StatusOutcome.success s =
    apply_status_outcome callback_id parsed true t s
apply_status_unsettled callback_id parsed t StatusOutcome.failed s =
    apply_status_outcome callback_id parsed false t s
apply_status_unsettled callback_id parsed t StatusOutcome.pending s =
    ok (keep_querying callback_id t s)
apply_status_unsettled callback_id parsed t StatusOutcome.unknown s =
    ok (keep_querying callback_id t s)

abbrev pub both_text : Option Text → Option Text → Bool
both_text a none = false
both_text a (some t) = is_text a t

abbrev pub matches_status : ParsedTransactionStatusResult → Transaction → Bool
matches_status parsed t =
    is_text parsed.originator_conversation_id t.originator_conversation_id
    || both_text parsed.receipt_number t.mpesa_receipt_number

unfoldable pub apply_transaction_status :
    CallbackQueueMessage → ParsedTransactionStatusResult → Store → Result Store
apply_transaction_status message parsed s = elim (match_row message (matches_status parsed) s) [
  | none ↦ ok (close_callback message.callback_id unmatched s)
  | some t ↦
      let outcome = interpret_transaction_status parsed.transaction_status in
      do
        s' ←
            if is_settled t.status
            then ok (keep_settled_status message.callback_id outcome t s)
            else apply_status_unsettled message.callback_id parsed t outcome s
        ok (maybe_settle_batch message.organization_id t.batch_id s')
]
