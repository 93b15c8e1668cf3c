-- ===== src/Execution/Submit.antt =====
-- `prepareSubmission` (apps/api/src/queues/payment-executor.ts): what a worker checks and writes before
-- it sends a payment, in one database transaction.
pub mod Sends
pub mod Redelivery
use slvrn.Prelude.{
  ◌≡◌, ◌⊎◌, arith, ℕ, map, Bool, not, ◌&&◌, ◌||◌, ◌==◌, List, [], ◌∷◌, ◌++◌, Option, none, some,
  contains, if◌then◌else◌,
}
use slvrn.Prelude.Text.{Text, codes, text_eq}
use slvrn.Prelude.Number.{int, pos}
use slvrn.Errors.{Result, ok, throw_if, solvaren_error, internal, unique_violation, ◌>>=◌, ◌>>◌}
use slvrn.Batch.{BatchState, BatchState-discrete, authorized, queued, submitted, processing}
use slvrn.Txn.{TxnState, state_eq, system}
use slvrn.Idempotency.{
  instruction_fingerprint, IdempotencyRecord, IdempotencyState, ClaimDecision,
  decide_on_existing_claim,
}
use slvrn.Execution.Store.{
  Store, Instruction, Transaction, Claim, find, any, of_instruction, claim_for, update_claims,
  set_instruction, note, upper, first_units,
}
use slvrn.Execution.Ledger.{update_transactions}

pub record PaymentQueueMessage : Type 0 where
  pub organization_id : Text
  pub batch_id : Text
  pub instruction_id : Text
  pub batch_version : ℕ
  pub manifest_hash : Text
  pub fingerprint : Text
  pub attempt : ℕ

pub record SubmissionContext : Type 0 where
  pub transaction_id : Text
  pub originator_id : Text
  pub instruction : Instruction

pub data Prepared : Type 0 where
  skip : Prepared
  reconcile : Prepared
  ready : SubmissionContext → Prepared

-- `['AUTHORIZED', 'QUEUED', 'SUBMITTED', 'PROCESSING']`.
abbrev pub execution_states : List BatchState
execution_states = authorized ∷ queued ∷ submitted ∷ processing ∷ []

abbrev pub starting_states : List BatchState
starting_states = authorized ∷ queued ∷ submitted ∷ []

-- The decision reads neither instant.
abbrev pub record_of : Claim → IdempotencyRecord
record_of claim = record {
  fingerprint = claim.fingerprint;
  state = claim.state;
  originator_conversation_id = claim.originator_conversation_id;
  transaction_id = none;
  claimed_at = 0;
  updated_at = 0;
}

abbrev pub decide : Option Claim → ClaimDecision
decide none = decide_on_existing_claim none
decide (some claim) = decide_on_existing_claim (some (record_of claim))

pub ClaimDecision-cases :
    (d : ClaimDecision)
    → (d ≡ ClaimDecision.submit)
      ⊎ ((d ≡ ClaimDecision.skip_already_settled) ⊎ (d ≡ ClaimDecision.reconcile_first))
ClaimDecision-cases d = ground arith

abbrev pub expected_fingerprint : (Text → Text) → PaymentQueueMessage → Instruction → Text
expected_fingerprint hash message instruction = instruction_fingerprint hash (record {
  organization_id = message.organization_id;
  batch_id = message.batch_id;
  instruction_id = instruction.id;
  batch_version = message.batch_version;
  msisdn = instruction.msisdn_snapshot;
  amount_cents = int (pos instruction.amount_cents);
  manifest_hash = message.manifest_hash;
})

abbrev pub without_dashes : Text → Text
without_dashes [] = []
without_dashes (c ∷ s) = let rest = without_dashes s in if c == b'-' then rest else c ∷ rest

-- `originatorConversationId` (packages/core/src/ids.ts); `token` is `randomToken(12)`.
unfoldable pub originator_conversation_id : Text → Text → Text → Text
originator_conversation_id short_code instruction_id token =
    short_code
    ++ (b'-' ∷ (map upper (first_units 12 (without_dashes instruction_id)) ++ (b'-' ∷ token)))

-- The integration is disabled: `status NOT IN ('SUCCESS', 'FAILED')` are marked FAILED.
abbrev pub is_unfinished_of : Text → Transaction → Bool
is_unfinished_of id t =
    of_instruction id t
    && not (state_eq t.status TxnState.success || state_eq t.status TxnState.failed)

abbrev pub mark_disabled : Transaction → Transaction
mark_disabled t = record t {
  status = TxnState.failed;
  failure_code = some (codes "SLV_INTEGRATION_DISABLED");
  status_source = system;
}

unfoldable pub refuse_disabled : Text → Store → Result (Store × Prepared)
refuse_disabled instruction_id s = do
  transactions ← update_transactions (is_unfinished_of instruction_id) mark_disabled s.transactions
  ok (record s { transactions = transactions }, skip)

abbrev pub submitted_row : PaymentQueueMessage → Instruction → Text → Text → Transaction
submitted_row message instruction id originator_id = record {
  id = id;
  instruction_id = instruction.id;
  batch_id = message.batch_id;
  status = TxnState.submitted;
  originator_conversation_id = originator_id;
  conversation_id = none;
  mpesa_receipt_number = none;
  failure_code = none;
  status_source = system;
}

abbrev pub mark_submitted : Text → Claim → Claim
mark_submitted originator_id claim = record claim {
  state = IdempotencyState.submitted;
  originator_conversation_id = some originator_id;
}

-- `UPDATE payment_batches SET state = 'PROCESSING' WHERE … state IN …`.
unfoldable pub start : BatchState → BatchState
start state = if contains BatchState-discrete state starting_states then processing else state

abbrev pub started : Text → Store → BatchState
started batch_id s = if text_eq s.id batch_id then start s.state else s.state

-- The writes of a submission.
unfoldable pub submit_row : PaymentQueueMessage → Instruction → Text → Text → Store → Store
submit_row message instruction id originator_id s = record s {
  transactions = s.transactions ++ submitted_row message instruction id originator_id ∷ [];
  claims = update_claims instruction.id (mark_submitted originator_id) s.claims;
  instructions = set_instruction instruction.id TxnState.submitted s.instructions;
  state = started message.batch_id s;
}

-- `fresh` is the row's generated id. A conflict on the originator id inserts nothing.
unfoldable pub insert_transaction :
    PaymentQueueMessage → Instruction → Text → Text → Store → Result (Store × Prepared)
insert_transaction message instruction fresh originator_id s =
    if any (λ (t : Transaction). text_eq t.originator_conversation_id originator_id) s.transactions
    then ok (s, skip)
    else do
      throw_if (any (λ (t : Transaction). text_eq t.id fresh) s.transactions)
          (solvaren_error internal unique_violation)
      ok (
        submit_row message instruction fresh originator_id s,
        ready (record {
          transaction_id = fresh;
          originator_id = originator_id;
          instruction = instruction;
        }),
      )

unfoldable pub submit_claimed :
    PaymentQueueMessage
    → Instruction
    → Option Text
    → Text
    → Text
    → Store
    → Result (Store × Prepared)
submit_claimed message instruction none fresh token s = refuse_disabled instruction.id s
submit_claimed message instruction (some short_code) fresh token s =
    insert_transaction message instruction fresh
      (originator_conversation_id short_code instruction.id token) s

unfoldable pub decide_submission :
    PaymentQueueMessage
    → Instruction
    → Option Text
    → Text
    → Text
    → Store
    → Result (Store × Prepared)
decide_submission message instruction config fresh token s =
    elim (decide (claim_for instruction.id s.claims)) [
      | ClaimDecision.skip_already_settled ↦ ok (s, skip)
      | ClaimDecision.reconcile_first ↦ ok (s, reconcile)
      | ClaimDecision.submit ↦ submit_claimed message instruction config fresh token s
    ]

abbrev pub is_executable : PaymentQueueMessage → Store → Bool
is_executable message s =
    contains BatchState-discrete s.state execution_states && s.version == message.batch_version

unfoldable pub prepare_found :
    (Text → Text)
    → PaymentQueueMessage
    → Instruction
    → Option Text
    → Text
    → Text
    → Store
    → Result (Store × Prepared)
prepare_found hash message instruction config fresh token s =
    if not (is_executable message s)
    then ok (s, skip)
    else if not (text_eq (expected_fingerprint hash message instruction) message.fingerprint)
    then ok (note (codes "payment.execution.fingerprint_mismatch") s, skip)
    else decide_submission message instruction config fresh token s

-- The instruction of the message, joined with its batch.
abbrev pub instruction_for : PaymentQueueMessage → Store → Option Instruction
instruction_for message s =
    if text_eq s.organization_id message.organization_id
    then find (λ (i : Instruction). text_eq i.id message.instruction_id) s.instructions
    else none

-- `hash` is `sha256Hex`, `config` the short code of the enabled configuration.
unfoldable pub prepare_submission :
    (Text → Text)
    → PaymentQueueMessage
    → Option Text
    → Text
    → Text
    → Store
    → Result (Store × Prepared)
prepare_submission hash message config fresh token s = elim (instruction_for message s) [
  | none ↦ ok (s, skip)
  | some instruction ↦ prepare_found hash message instruction config fresh token s
]
