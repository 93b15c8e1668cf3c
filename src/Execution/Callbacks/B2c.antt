-- ===== src/Execution/Callbacks/B2c.antt =====
-- The result of a payment, or its queue timeout (`applyB2cResult`,
-- apps/api/src/queues/callback-processor.ts).
use slvrn.Prelude.{
  Bool, true, false, not, ◌&&◌, ◌||◌, List, [], ◌∷◌, ◌++◌, Option, none, some, if◌then◌else◌,
}
use slvrn.Prelude.Text.{Text, codes, text_eq, is_text}
use slvrn.Prelude.Number.{ℤ}
use slvrn.Errors.{Result, ok, ◌>>=◌}
use slvrn.Idempotency.{IdempotencyState}
use slvrn.Txn.{
  TxnState, TxnStatusSource, state_eq, is_settled, callback, queue_timeout, assert_txn_transition,
}
use slvrn.Daraja.{ParsedB2cResult, resolved_failure_code, or_else}
use slvrn.Execution.Store.{
  Store, Transaction, Claim, unmatched, duplicate, ignored_settled, applied, find, update_claims,
  set_instruction, note, open_case, close_callback,
}
use slvrn.Execution.Ledger.{update_transactions}
use slvrn.Execution.Outcome.{has_id}
use slvrn.Execution.Settle.{maybe_settle_batch}

pub record CallbackQueueMessage : Type 0 where
  pub callback_id : Text
  pub organization_id : Text

-- Does the provider's success agree with the status that is recorded?
unfoldable pub agrees : TxnState → Bool → Bool
agrees status succeeded =
    state_eq status TxnState.success && succeeded
    || state_eq status TxnState.failed && not succeeded

abbrev pub target_status : Bool → Bool → TxnState
target_status succeeded is_queue_timeout =
    if succeeded
    then TxnState.success
    else if is_queue_timeout
    then TxnState.timeout
    else TxnState.failed

abbrev pub source_of : Bool → TxnStatusSource
source_of is_queue_timeout = if is_queue_timeout then queue_timeout else callback

abbrev pub b2c_failure : ParsedB2cResult → Bool → Option Text
b2c_failure parsed is_queue_timeout =
    if parsed.succeeded
    then none
    else some (
        resolved_failure_code
          (some (if is_queue_timeout then codes "SLV_QUEUE_TIMEOUT" else parsed.result_code)))

abbrev pub mark_b2c : ParsedB2cResult → Bool → Transaction → Transaction
mark_b2c parsed is_queue_timeout t = record t {
  status = target_status parsed.succeeded is_queue_timeout;
  conversation_id = or_else parsed.conversation_id t.conversation_id;
  mpesa_receipt_number = or_else parsed.transaction_receipt t.mpesa_receipt_number;
  failure_code = b2c_failure parsed is_queue_timeout;
  status_source = source_of is_queue_timeout;
}

abbrev pub mark_claim : TxnState → Claim → Claim
mark_claim status claim = record claim {
  state =
      if state_eq status TxnState.timeout
      then IdempotencyState.submitted
      else IdempotencyState.settled;
}

abbrev pub snapshot : Text → Option ℤ → List (Text × ℤ)
snapshot account none = []
snapshot account (some cents) = (account, cents) ∷ []

-- The loop over the three accounts, entered if the first has a balance.
abbrev pub b2c_balances : ParsedB2cResult → List (Text × ℤ)
b2c_balances parsed = elim parsed.utility_account_balance_cents [
  | none ↦ []
  | some cents ↦
      (codes "Utility Account", cents)
      ∷ (snapshot (codes "Working Account") parsed.working_account_balance_cents
          ++ snapshot (codes "Charges Paid Account") parsed.charges_paid_account_balance_cents)
]

abbrev pub open_case_if : Bool → Text → Bool → Store → Store
open_case_if wanted id discrepancy s = record s {
  cases = if wanted then (open_case id discrepancy s).cases else s.cases;
}

-- The recorded outcome stays; a contradiction opens a case.
unfoldable pub keep_settled_b2c : Text → ParsedB2cResult → Transaction → Store → Store
keep_settled_b2c callback_id parsed t s =
    if agrees t.status parsed.succeeded
    then close_callback callback_id duplicate s
    else note (codes "daraja.callback.contradicts_settled")
        (open_case t.id true (close_callback callback_id ignored_settled s))

unfoldable pub apply_b2c_outcome :
    Text → ParsedB2cResult → Bool → Transaction → Store → Result Store
apply_b2c_outcome callback_id parsed is_queue_timeout t s = do
  checked ← assert_txn_transition (record {
    before = t.status;
    to = target_status parsed.succeeded is_queue_timeout;
    source = source_of is_queue_timeout;
    provider_receipt = parsed.transaction_receipt;
    failure_code = b2c_failure parsed is_queue_timeout;
  })
  transactions ← update_transactions (has_id t.id) (mark_b2c parsed is_queue_timeout) s.transactions
  let target = target_status parsed.succeeded is_queue_timeout
  ok (
      note
        (if parsed.succeeded
          then codes "daraja.callback.success"
          else codes "daraja.callback.failure")
        (close_callback callback_id applied (
          open_case_if (state_eq target TxnState.timeout) t.id false (record s {
            transactions = transactions;
            instructions = set_instruction t.instruction_id target s.instructions;
            claims = update_claims t.instruction_id (mark_claim target) s.claims;
            balances = s.balances ++ b2c_balances parsed;
          }))))

-- `originator_conversation_id = …` is not true of null.
abbrev pub matches_b2c : ParsedB2cResult → Transaction → Bool
matches_b2c parsed t = is_text parsed.originator_conversation_id t.originator_conversation_id

abbrev pub match_row : CallbackQueueMessage → (Transaction → Bool) → Store → Option Transaction
match_row message p s =
    if text_eq s.organization_id message.organization_id then find p s.transactions else none

unfoldable pub apply_b2c_result :
    CallbackQueueMessage → ParsedB2cResult → Bool → Store → Result Store
apply_b2c_result message parsed is_queue_timeout s =
    elim (match_row message (matches_b2c parsed) s) [
      | none ↦ ok (
          note (codes "daraja.callback.unmatched") (close_callback message.callback_id unmatched s))
      | some t ↦ do
        s' ←
            if is_settled t.status
            then ok (keep_settled_b2c message.callback_id parsed t s)
            else apply_b2c_outcome message.callback_id parsed is_queue_timeout t s
        ok (maybe_settle_batch message.organization_id t.batch_id s')
    ]
