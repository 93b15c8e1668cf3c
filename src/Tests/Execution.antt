-- ===== src/Tests/Execution.antt =====
-- The theorems on the execution of payments at a small batch.
use mathlib.Core.List.{Memᴰ}
use slvrn.Prelude.{
  ◌≤◌, ◌≡◌, refl, sym, ap, ◌∙◌, ◌≢◌, length, false, List, [], ◌∷◌, Option, none, some,
}
use slvrn.Prelude.Text.{Text, codes, text_eq, text_eq_iff, trim, text_in}
use slvrn.Prelude.Number.{ℤ}
use slvrn.Errors.{ok}
use slvrn.Batch.{BatchState, queued, processing, BatchState-discrete}
use slvrn.Batch.Driven.{Driven}
use slvrn.Txn.{TxnState, TxnState-discrete, is_settled, state_eq, callback}
use slvrn.Idempotency.{IdempotencyState, instruction_fingerprint, decide_on_existing_claim}
use slvrn.Prelude.Number.{int, pos, number_text}
use slvrn.Prelude.Join.{join}
use slvrn.Prelude.Decimal.{decimal}
use slvrn.Daraja.{Value, string, parse_b2c_result, to_string_value, param}
use slvrn.Execution.Store.{
  Store, Instruction, Transaction, Claim, ProviderCallback, b2c_result, duplicate, close_callback,
  Case, CaseState,
}
use slvrn.Execution.Rows.{Live, Grows}
use slvrn.Execution.Submit.{
  PaymentQueueMessage, prepare_submission, prepare_found, decide_submission, submit_claimed,
  insert_transaction, submit_row, start, ready, reconcile, SubmissionContext,
  originator_conversation_id,
}
use slvrn.Execution.Submit.Redelivery.{IsSubmitted, due_is_sent_once}
use slvrn.Execution.Submit.Sends.{IsDue, due_is_sent, sent-IsDue}
use slvrn.Execution.Settle.{maybe_settle_batch, rows_of, is_moving, next_state, summarize}
use slvrn.Execution.Settle.Laws.{Says, NoneOf, maybe_settle_batch-Says}
use slvrn.Execution.Callbacks.{process_callback, apply_callback}
use slvrn.Execution.Callbacks.B2c.{CallbackQueueMessage, apply_b2c_result, keep_settled_b2c, agrees}
use slvrn.Execution.Callbacks.Replay.{process_callback_twice}
use slvrn.Execution.Reconcile.{QueryResult, asked, query_failed}
use slvrn.Execution.Run.{Event, prepared, delivered, run, submissions, sends, apply}
use slvrn.Execution.Run.Once.{times, sent_at_most_once}
use slvrn.Execution.Run.Ledger.{run-Grows, run-Driven, settled_row_is_final}

abbrev unhashed : Text → Text
unhashed t = t

abbrev no_cents : Option Value → Option ℤ
no_cents value = none

abbrev payout : Instruction
payout = record {
  id = codes "i1";
  amount_cents = 10000;
  msisdn_snapshot = codes "254711000001";
  status = TxnState.pending;
}

abbrev order : PaymentQueueMessage
order = record {
  organization_id = codes "o";
  batch_id = codes "b";
  instruction_id = codes "i1";
  batch_version = 2;
  manifest_hash = codes "m";
  fingerprint = instruction_fingerprint unhashed (record {
    organization_id = codes "o";
    batch_id = codes "b";
    instruction_id = codes "i1";
    batch_version = 2;
    msisdn = codes "254711000001";
    amount_cents = int (pos 10000);
    manifest_hash = codes "m";
  });
  attempt = 0;
}

abbrev claim : Claim
claim = record {
  fingerprint = codes "f";
  instruction_id = codes "i1";
  state = IdempotencyState.claimed;
  originator_conversation_id = none;
}

abbrev result : ProviderCallback
result = record {
  id = codes "c1";
  callback_type = b2c_result;
  raw_payload = record {
    result_code = string (codes "0");
    result_desc = none;
    originator_conversation_id = some (codes "600000-I1-T");
    conversation_id = none;
    transaction_id = some (codes "R1");
    result_parameters = [];
    reference_items = [];
  };
  processing_outcome = none;
}

abbrev store_of : BatchState → List Transaction → Store
store_of state transactions = record {
  id = codes "b";
  organization_id = codes "o";
  state = state;
  version = 2;
  instructions = payout ∷ [];
  transactions = transactions;
  claims = claim ∷ [];
  cases = [];
  callbacks = result ∷ [];
  balances = [];
  audit = [];
}

abbrev waiting : Store
waiting = store_of queued []

abbrev paid_row : Transaction
paid_row = record {
  id = codes "t1";
  instruction_id = codes "i1";
  batch_id = codes "b";
  status = TxnState.success;
  originator_conversation_id = codes "600000-I1-T";
  conversation_id = none;
  mpesa_receipt_number = some (codes "R1");
  failure_code = none;
  status_source = callback;
}

abbrev paid : Store
paid = store_of processing (paid_row ∷ [])

abbrev redelivery : CallbackQueueMessage
redelivery = record { callback_id = codes "c1"; organization_id = codes "o" }

-- Prepared twice by two workers; the callback comes, and once more.
abbrev events : List Event
events =
    prepared order (some (codes "600000")) (codes "t1") (codes "T")
    ∷ prepared order (some (codes "600000")) (codes "t2") (codes "U")
    ∷ delivered redelivery
    ∷ delivered redelivery
    ∷ []

waiting-Live : Live waiting.transactions
waiting-Live = record { keyed = λ a b m. elim m [ ]; sent = λ a m. elim m [ ]; backed = tt }

only : (t : Transaction) → Memᴰ t (paid_row ∷ []) → t ≡ paid_row
only t (Memᴰ.head e) = e
only t (Memᴰ.tail m) = elim m [ ]

paid-Live : Live paid.transactions
paid-Live = record {
  keyed = λ a b m n e. only a m ∙ sym (only b n);
  sent = λ a m e. cc (ap (λ t. t.status) (only a m), e);
  backed = (record { paid = λ e f. cc (f); explained = λ e. cc (e) }, tt);
}

sent_at_most_once_example : times (codes "i1") (submissions unhashed no_cents events waiting) ≤ 1
unfolding text_eq
sent_at_most_once_example =
    sent_at_most_once unhashed no_cents (codes "i1") events waiting waiting-Live (claim, refl)

run-Grows_example :
    Grows waiting.transactions (run unhashed no_cents events waiting).transactions
    × Live (run unhashed no_cents events waiting).transactions
run-Grows_example = run-Grows unhashed no_cents events waiting waiting-Live

run-Driven_example : Driven queued (run unhashed no_cents events waiting).state
run-Driven_example = run-Driven unhashed no_cents events waiting waiting-Live

settled_row_is_final_example :
    (u : Transaction) × Memᴰ u (run unhashed no_cents events paid).transactions
    × (u.id ≡ codes "t1")
    × (u.status ≡ TxnState.success)
    × ((r : Text) → some (codes "R1") ≡ some r → u.mpesa_receipt_number ≡ some r)
unfolding is_settled TxnState-discrete
settled_row_is_final_example =
    settled_row_is_final unhashed no_cents events paid paid_row paid-Live (Memᴰ.head refl) refl

paid_settles : (maybe_settle_batch (codes "o") (codes "b") paid).state ≢ processing
unfolding maybe_settle_batch text_eq summarize state_eq is_moving next_state TxnState-discrete
    BatchState-discrete
paid_settles = λ e. cc (e)

maybe_settle_batch-Says_example :
    (length paid.instructions ≤ length (rows_of (codes "b") paid.transactions))
    × NoneOf is_moving (rows_of (codes "b") paid.transactions)
    × Says
        (maybe_settle_batch (codes "o") (codes "b") paid).state
        (rows_of (codes "b") paid.transactions)
maybe_settle_batch-Says_example =
    maybe_settle_batch-Says (codes "o") (codes "b") paid refl paid_settles

waiting-IsDue : IsDue unhashed order payout (codes "600000") (codes "t1") (codes "T") waiting
unfolding text_eq BatchState-discrete decide_on_existing_claim
waiting-IsDue = record {
  row = refl;
  executable = refl;
  genuine = (text_eq_iff order.fingerprint order.fingerprint).1 refl;
  free = refl;
  originator = refl;
  unused = refl;
}

payout_sent :
    prepare_submission unhashed order (some (codes "600000")) (codes "t1") (codes "T") waiting
    ≡ ok (
      submit_row order payout
          (codes "t1")
          (originator_conversation_id (codes "600000") (codes "i1") (codes "T"))
          waiting,
      ready (record {
        transaction_id = codes "t1";
        originator_id = originator_conversation_id (codes "600000") (codes "i1") (codes "T");
        instruction = payout;
      }),
    )
payout_sent =
    due_is_sent unhashed order (codes "t1") (codes "T") (codes "600000") waiting payout
      waiting-IsDue

due_is_sent_once_example :
    (s' : Store) × (context : SubmissionContext) × (prepare_submission unhashed order
        (some (codes "600000"))
        (codes "t1")
        (codes "T")
        waiting
      ≡ ok (s', ready context))
    × (context.instruction ≡ payout)
    × IsSubmitted payout context.transaction_id context.originator_id s'
    × ((config : Option Text) (fresh' token' : Text)
        → prepare_submission unhashed order config fresh' token' s' ≡ ok (s', reconcile))
unfolding text_eq
due_is_sent_once_example =
    due_is_sent_once unhashed order (codes "t1") (codes "T") (codes "600000") waiting payout _
      waiting-IsDue refl refl

sent-IsDue_example : IsDue unhashed order payout (codes "600000") (codes "t1") (codes "T") waiting
sent-IsDue_example =
    sent-IsDue unhashed order (codes "t1") (codes "T") (codes "600000") waiting _ _ payout_sent

-- A transaction whose outcome is unknown, with its case.
abbrev late_row : Transaction
late_row = record paid_row { status = TxnState.timeout; mpesa_receipt_number = none }

abbrev late_case : CaseState → Case
late_case state = record {
  transaction_id = codes "t1";
  reference = codes "REC-T1";
  state = state;
  discrepancy = false;
  query_attempts = 0;
}

abbrev late : CaseState → Store
late state = record (store_of processing (late_row ∷ [])) { cases = late_case state ∷ [] }

abbrev tries : List (Text × QueryResult)
tries =
    (codes "A", asked)
    ∷ (codes "B", asked)
    ∷ (codes "C", query_failed)
    ∷ (codes "D", asked)
    ∷ (codes "E", asked)
    ∷ (codes "F", asked)
    ∷ (codes "G", query_failed)
    ∷ (codes "H", asked)
    ∷ (codes "I", asked)
    ∷ []

abbrev seen : Store
seen = maybe_settle_batch (codes "o") (codes "b") (close_callback (codes "c1") duplicate paid)

paid_seen : process_callback no_cents redelivery paid ≡ ok seen
unfolding process_callback apply_callback apply_b2c_result parse_b2c_result keep_settled_b2c agrees
    is_settled TxnState-discrete state_eq text_eq to_string_value param text_in trim
paid_seen = refl

process_callback_twice_example : process_callback no_cents redelivery seen ≡ ok seen
process_callback_twice_example = process_callback_twice no_cents redelivery paid seen paid_seen

-- The first worker sends the payment, the second does not.
events_send : submissions unhashed no_cents events waiting ≡ codes "i1" ∷ []
unfolding submissions sends apply prepare_submission prepare_found decide_submission submit_claimed
    insert_transaction submit_row start decide_on_existing_claim text_eq BatchState-discrete
    instruction_fingerprint join decimal number_text
events_send = refl
