-- ===== src/Execution/Settle/Laws.antt =====
-- What a settled batch says of its transactions (`maybeSettleBatch`,
-- apps/api/src/queues/payment-executor.ts).
use slvrn.Prelude.{
  ◌≤◌, ltb, ◌==◌, ◌≡◌, refl, ◌≢◌, inl, inr, Bool, false, ◌&&◌, List, [], ◌∷◌, All, Bool-cases,
  length, arith,
}
use slvrn.Prelude.Text.{Text}
use slvrn.Batch.{BatchState, processing}
use slvrn.Txn.{TxnState, state_eq}
use slvrn.Execution.Store.{Store, Transaction}
use slvrn.Execution.Settle.{
  next_state, summarize, rows_of, is_moving, count_if, is_complete, is_running, maybe_settle_batch,
}

-- None of the rows has a status that passes the test.
abbrev pub NoneOf : (TxnState → Bool) → List Transaction → Type 0
NoneOf p = All (λ (t : Transaction). p t.status ≡ false)

count_if-eq-zero : (p : TxnState → Bool) (ts : List Transaction) → count_if p ts ≡ 0 → NoneOf p ts
count_if-eq-zero p [] h = tt
count_if-eq-zero p (t ∷ ts) h = elim (Bool-cases (p t.status)) [
  | inl hit ↦ absurd (omega (arith, rw hit at h))
  | inr miss ↦ (miss, count_if-eq-zero p ts (rw miss at h))
]

some-count_if : (p : TxnState → Bool) (ts : List Transaction) → NoneOf p ts → count_if p ts ≡ 0
some-count_if p [] h = refl
some-count_if p (t ∷ ts) (h, hs) = rw h (some-count_if p ts hs)

-- What a batch that leaves PROCESSING as `state` says of its rows.
abbrev pub Says : BatchState → List Transaction → Type 0
Says BatchState.timeout ts = ¬ (NoneOf (state_eq TxnState.timeout) ts)
Says BatchState.success ts =
    NoneOf (state_eq TxnState.timeout) ts × NoneOf (state_eq TxnState.failed) ts
Says BatchState.failed ts =
    NoneOf (state_eq TxnState.timeout) ts
    × NoneOf (state_eq TxnState.success) ts
    × (¬ (NoneOf (state_eq TxnState.failed) ts))
Says BatchState.partial_success ts =
    NoneOf (state_eq TxnState.timeout) ts
    × (¬ (NoneOf (state_eq TxnState.success) ts))
    × (¬ (NoneOf (state_eq TxnState.failed) ts))
Says _ ts = ⊥

next_state-Says : (ts : List Transaction) → Says (next_state (summarize ts)) ts
unfolding next_state summarize
next_state-Says ts = elim (Bool-cases (ltb 0 (count_if (state_eq TxnState.timeout) ts))) [
  | inl waits ↦
      rw waits (λ clear. ground (arith, some-count_if (state_eq TxnState.timeout) ts clear))
  | inr clear ↦
      let no_timeout = count_if-eq-zero (state_eq TxnState.timeout) ts (ground arith) in
      elim (Bool-cases (count_if (state_eq TxnState.failed) ts == 0)) [
        | inl clean ↦
            rw (clear, clean)
              (no_timeout, count_if-eq-zero (state_eq TxnState.failed) ts (ground arith))
        | inr failures ↦
            let some_failed : ¬ (NoneOf (state_eq TxnState.failed) ts) =
              λ h. ground (arith, some-count_if (state_eq TxnState.failed) ts h) in
            elim (Bool-cases (count_if (state_eq TxnState.success) ts == 0)) [
              | inl unpaid ↦
                  rw (clear, failures, unpaid)
                    (
                      no_timeout,
                      count_if-eq-zero (state_eq TxnState.success) ts (ground arith),
                      some_failed,
                    )
              | inr paid ↦
                  rw (clear, failures, paid)
                    (
                      no_timeout,
                      λ h. ground (arith, some-count_if (state_eq TxnState.success) ts h),
                      some_failed,
                    )
            ]
      ]
]

-- A running batch settles only once it has at least as many transactions as instructions and none of
-- them is moving. It then is TIMEOUT exactly if a transaction is, else SUCCESS if none failed, FAILED if
-- some failed and none succeeded, and PARTIAL_SUCCESS if there are both. Which instructions the
-- transactions are of is not looked at.
pub maybe_settle_batch-Says :
    (organization_id batch_id : Text) (s : Store)
    → s.state ≡ processing
    → (maybe_settle_batch organization_id batch_id s).state ≢ processing
    → (length s.instructions ≤ length (rows_of batch_id s.transactions))
      × NoneOf is_moving (rows_of batch_id s.transactions)
      × Says (maybe_settle_batch organization_id batch_id s).state (rows_of batch_id s.transactions)
unfolding maybe_settle_batch summarize
maybe_settle_batch-Says organization_id batch_id s running settled =
    let rows = rows_of batch_id s.transactions in
    let summary = summarize rows in
    let wanted =
      is_running organization_id batch_id s && is_complete (length s.instructions) summary in
    elim (Bool-cases wanted) [
      | inl all ↦
          rw all
            (ground arith, count_if-eq-zero is_moving rows (ground arith), next_state-Says rows)
      | inr not_yet ↦ absurd ((rw not_yet at settled) running)
    ]
