-- ===== src/Execution/Settle.antt =====
-- `maybeSettleBatch` (apps/api/src/queues/payment-executor.ts): the batch settles once it has as many
-- transactions as instructions and none is in flight.
pub mod Laws
use slvrn.Prelude.{
  ℕ, ltb, leb, ◌==◌, Bool, ◌&&◌, List, [], ◌∷◌, length, keep_if, contains, is_yes, if◌then◌else◌,
}
use slvrn.Prelude.Text.{Text, codes, text_eq}
use slvrn.Batch.{BatchState, BatchState-discrete, processing}
use slvrn.Txn.{TxnState, TxnState-discrete, state_eq}
use slvrn.Execution.Store.{Store, Transaction, note}

-- `COUNT(t.id) FILTER (WHERE …)` over the batch's transactions.
abbrev pub count_if : (TxnState → Bool) → List Transaction → ℕ
count_if p ts = length (keep_if (λ (t : Transaction). p t.status) ts)

abbrev pub moving_states : List TxnState
moving_states =
    TxnState.pending ∷ TxnState.submitted ∷ TxnState.awaiting_callback ∷ TxnState.processing
    ∷ TxnState.reconciling ∷ []

unfoldable pub is_moving : TxnState → Bool
is_moving state = contains TxnState-discrete state moving_states

abbrev pub rows_of : Text → List Transaction → List Transaction
rows_of batch_id = keep_if (λ (t : Transaction). text_eq t.batch_id batch_id)

pub record Summary : Type 0 where
  pub total : ℕ
  pub success : ℕ
  pub failed : ℕ
  pub timeout : ℕ
  pub in_flight : ℕ

unfoldable pub summarize : List Transaction → Summary
summarize ts = record {
  total = length ts;
  success = count_if (state_eq TxnState.success) ts;
  failed = count_if (state_eq TxnState.failed) ts;
  timeout = count_if (state_eq TxnState.timeout) ts;
  in_flight = count_if is_moving ts;
}

unfoldable pub next_state : Summary → BatchState
next_state summary =
    if ltb 0 summary.timeout
    then BatchState.timeout
    else if summary.failed == 0
    then BatchState.success
    else if summary.success == 0
    then BatchState.failed
    else BatchState.partial_success

abbrev pub is_complete : ℕ → Summary → Bool
is_complete expected summary = leb expected summary.total && summary.in_flight == 0

abbrev pub is_running : Text → Text → Store → Bool
is_running organization_id batch_id s =
    text_eq s.id batch_id
    && text_eq s.organization_id organization_id
    && is_yes (BatchState-discrete s.state processing)

abbrev pub settle : Summary → Store → Store
settle summary s = note (codes "payment.batch.settled") (record s { state = next_state summary })

unfoldable pub maybe_settle_batch : Text → Text → Store → Store
maybe_settle_batch organization_id batch_id s =
    let summary = summarize (rows_of batch_id s.transactions) in
    if is_running organization_id batch_id s && is_complete (length s.instructions) summary
    then settle summary s
    else s
