-- ===== src/Execution/Sound/Results.antt =====
-- What the provider's callbacks keep (apps/api/src/queues/callback-processor.ts).
use slvrn.Prelude.{
  ◌≡◌, refl, ◌≢◌, sym, ap, ◌∙◌, inl, inr, Bool, true, false, List, [], ◌∷◌, Memᴰ, Option, none,
  some, Bool-cases, Option-cases, some_inj, subst, arith,
}
use slvrn.Prelude.Text.{Text, text_eq, text_eq_iff}
use slvrn.Prelude.Number.{ℤ}
use slvrn.Errors.{Result, ok, ◌>>=◌}
use slvrn.Errors.Returns.{Returns, Returns->>=}
use slvrn.Txn.{TxnState, success, failed, is_blank, is_settled, state_eq, assert_txn_transition}
use slvrn.Txn.Paths.{Reaches, accepted-Reaches}
use slvrn.Daraja.{
  Value, ResultCallback, ParsedB2cResult, ParsedTransactionStatusResult, StatusOutcome, or_else,
  interpret_transaction_status, parse_b2c_result, parse_transaction_status_result,
}
use slvrn.Execution.Store.{
  Store, Transaction, CallbackType, b2c_result, b2c_timeout, transaction_status, account_balance,
  find,
}
use slvrn.Execution.Rows.{Live, Moves}
use slvrn.Execution.Claims.{Finishes, update_claims-Advance}
use slvrn.Execution.Settle.{maybe_settle_batch}
use slvrn.Execution.Outcome.{has_id}
use slvrn.Execution.Callbacks.{
  apply_account_balance, apply_callback, process_callback, callback_for, is_processed,
}
use slvrn.Execution.Callbacks.B2c.{
  CallbackQueueMessage, mark_b2c, mark_claim, target_status, b2c_failure, keep_settled_b2c, agrees,
  apply_b2c_outcome, apply_b2c_result, match_row, matches_b2c,
}
use slvrn.Execution.Callbacks.Status.{
  mark_status, status_target, status_failure, keep_settled_status, status_agrees,
  apply_status_outcome, apply_status_unsettled, keep_querying, apply_transaction_status,
  matches_status,
}
use slvrn.Execution.Sound.{aside, Follows, Follows-refl, Follows-trans, write-Follows}
use slvrn.Execution.Sound.Submission.{maybe_settle_batch-Follows}

mark_claim-Finishes : (status : TxnState) → Finishes (mark_claim status)
mark_claim-Finishes status = record {
  instruction_id = λ c. refl;
  sent = λ c. elim (Bool-cases (state_eq status TxnState.timeout)) [
    | inl e ↦ rw e (inl refl)
    | inr e ↦ rw e (inr refl)
  ];
}

pub find-Mem :
    (p : Transaction → Bool) (ts : List Transaction) (t : Transaction)
    → find p ts ≡ some t
    → Memᴰ t ts
find-Mem p [] t h = cc
find-Mem p (x ∷ xs) t h = elim (Bool-cases (p x)) [
  | inl hit ↦ Memᴰ.head (sym (some_inj (rw hit at h)))
  | inr miss ↦ Memᴰ.tail (find-Mem p xs t (rw miss at h))
]

receipt_kept : (r old : Option Text) → is_blank r ≡ false → or_else r old ≢ none
unfolding is_blank
receipt_kept none old h = cc
receipt_kept (some t) old h = λ e. cc (e)

b2c_explained :
    (parsed : ParsedB2cResult) (is_queue_timeout : Bool)
    → target_status parsed.succeeded is_queue_timeout ≡ failed
    → b2c_failure parsed is_queue_timeout ≢ none
b2c_explained parsed is_queue_timeout h = ground arith

status_explained :
    (parsed : ParsedTransactionStatusResult) (succeeded : Bool)
    → status_target succeeded ≡ failed
    → status_failure parsed succeeded ≢ none
status_explained parsed succeeded h = ground arith

-- A transition that was checked on a row, applied to the row with its id.
module _ (s : Store) (live : Live s.transactions) (t : Transaction) (here : Memᴰ t s.transactions)
    (f : Transaction → Transaction) (target : TxnState)
    (writes : (u : Transaction)
      → ((f u).id ≡ u.id)
        × ((f u).instruction_id ≡ u.instruction_id)
        × ((f u).batch_id ≡ u.batch_id)
        × ((f u).originator_conversation_id ≡ u.originator_conversation_id)
        × ((f u).status ≡ target)
        × (target ≡ success → (f u).mpesa_receipt_number ≢ none)
        × (target ≡ failed → (f u).failure_code ≢ none)) where
  checked-Moves :
      (u : Transaction)
      → Reaches t.status target
      → Memᴰ u s.transactions
      → has_id t.id u ≡ true
      → Moves f u
  checked-Moves u path m hit =
      let same : u ≡ t = live.keyed u t m here ((text_eq_iff u.id t.id).0 hit) in
      let (id, instruction, batch, originator, status, paid, explained) = writes u in
      record {
        id = id;
        instruction_id = instruction;
        batch_id = batch;
        originator = originator;
        status = rw status (subst (λ x. Reaches x target) (ap (λ v. v.status) (sym same)) path);
        backed = record {
          paid = λ e. paid (sym status ∙ e);
          explained = λ e. explained (sym status ∙ e);
        };
      }

module _ (callback_id : Text) (s : Store) (live : Live s.transactions) (t : Transaction) where
  keep_settled_b2c-Follows :
      (parsed : ParsedB2cResult) → Follows s (keep_settled_b2c callback_id parsed t s)
  unfolding keep_settled_b2c
  keep_settled_b2c-Follows parsed = elim (Bool-cases (agrees t.status parsed.succeeded)) [
    | inl same ↦ rw same (aside s _ live refl refl refl)
    | inr other ↦ rw other (aside s _ live refl refl refl)
  ]

  keep_settled_status-Follows :
      (outcome : StatusOutcome) → Follows s (keep_settled_status callback_id outcome t s)
  unfolding keep_settled_status
  keep_settled_status-Follows outcome = elim (Bool-cases (status_agrees t.status outcome)) [
    | inl same ↦ rw same (aside s _ live refl refl refl)
    | inr other ↦ rw other (aside s _ live refl refl refl)
  ]

  keep_querying-Follows : Follows s (keep_querying callback_id t s)
  unfolding keep_querying
  keep_querying-Follows = aside s _ live refl refl refl

  module _ (here : Memᴰ t s.transactions) (moving : is_settled t.status ≡ false) where
    apply_b2c_outcome-Follows :
        (parsed : ParsedB2cResult) (is_queue_timeout : Bool)
        → Returns (apply_b2c_outcome callback_id parsed is_queue_timeout t s) (Follows s)
    unfolding apply_b2c_outcome
    apply_b2c_outcome-Follows parsed is_queue_timeout =
        let target = target_status parsed.succeeded is_queue_timeout in
        let receipt = parsed.transaction_receipt in
        Returns->>= (assert_txn_transition _) _
          (λ _. Reaches t.status target × (target ≡ success → is_blank receipt ≡ false)) (Follows s)
          (accepted-Reaches _ moving)
          (λ checked (path, paid).
            write-Follows (has_id t.id) (mark_b2c parsed is_queue_timeout) s live (λ u. refl)
              (λ u m hit permitted.
                checked-Moves s live t here (mark_b2c parsed is_queue_timeout) target
                  (λ v. (
                    refl,
                    refl,
                    refl,
                    refl,
                    refl,
                    λ e. receipt_kept receipt v.mpesa_receipt_number (paid e),
                    b2c_explained parsed is_queue_timeout,
                  ))
                  u path m hit)
              _ (λ us. refl)
              (λ us.
                update_claims-Advance t.instruction_id (mark_claim target)
                  (mark_claim-Finishes target) s.claims)
              (λ us. refl))

    apply_status_outcome-Follows :
        (parsed : ParsedTransactionStatusResult) (succeeded : Bool)
        → Returns (apply_status_outcome callback_id parsed succeeded t s) (Follows s)
    unfolding apply_status_outcome
    apply_status_outcome-Follows parsed succeeded =
        let target = status_target succeeded in
        let receipt = parsed.receipt_number in
        Returns->>= (assert_txn_transition _) _
          (λ _. Reaches t.status target × (target ≡ success → is_blank receipt ≡ false)) (Follows s)
          (accepted-Reaches _ moving)
          (λ checked (path, paid).
            write-Follows (has_id t.id) (mark_status parsed succeeded) s live (λ u. refl)
              (λ u m hit permitted.
                checked-Moves s live t here (mark_status parsed succeeded) target
                  (λ v. (
                    refl,
                    refl,
                    refl,
                    refl,
                    refl,
                    λ e. receipt_kept receipt v.mpesa_receipt_number (paid e),
                    status_explained parsed succeeded,
                  ))
                  u path m hit)
              _ (λ us. refl)
              (λ us.
                update_claims-Advance t.instruction_id (mark_claim target)
                  (mark_claim-Finishes target) s.claims)
              (λ us. refl))

    apply_status_unsettled-Follows :
        (parsed : ParsedTransactionStatusResult) (outcome : StatusOutcome)
        → Returns (apply_status_unsettled callback_id parsed t outcome s) (Follows s)
    unfolding apply_status_unsettled
    apply_status_unsettled-Follows parsed StatusOutcome.success =
        apply_status_outcome-Follows parsed true
    apply_status_unsettled-Follows parsed StatusOutcome.failed =
        apply_status_outcome-Follows parsed false
    apply_status_unsettled-Follows parsed StatusOutcome.pending = keep_querying-Follows
    apply_status_unsettled-Follows parsed StatusOutcome.unknown = keep_querying-Follows

-- The settlement of the batch, after the callback's own transaction.
then_settle :
    (organization_id batch_id : Text) (s : Store) (applied : Result Store)
    → Returns applied (Follows s)
    → Returns (applied >>= λ s'. ok (maybe_settle_batch organization_id batch_id s')) (Follows s)
then_settle organization_id batch_id s applied h =
    Returns->>= applied _ (Follows s) (Follows s) h (λ s' follows.
      Follows-trans s s' _ follows
        (maybe_settle_batch-Follows organization_id batch_id s' follows.live))

module _ (message : CallbackQueueMessage) (s : Store) (live : Live s.transactions) where
  match_row-Mem :
      (p : Transaction → Bool) (t : Transaction)
      → match_row message p s ≡ some t
      → Memᴰ t s.transactions
  match_row-Mem p t h = elim (Bool-cases (text_eq s.organization_id message.organization_id)) [
    | inl own ↦ find-Mem p s.transactions t (rw own at h)
    | inr foreign ↦ absurd (let bad : ⊥ = cc (rw foreign at h) in bad)
  ]

  apply_b2c_result-Follows :
      (parsed : ParsedB2cResult) (is_queue_timeout : Bool)
      → Returns (apply_b2c_result message parsed is_queue_timeout s) (Follows s)
  unfolding apply_b2c_result
  apply_b2c_result-Follows parsed is_queue_timeout =
      elim (Option-cases (match_row message (matches_b2c parsed) s)) [
        | inl absent ↦ rw (absent, apply_b2c_result) (aside s _ live refl refl refl)
        | inr (t, found) ↦
            let here = match_row-Mem (matches_b2c parsed) t found in
            elim (Bool-cases (is_settled t.status)) [
              | inl done ↦
                  rw (found, apply_b2c_result, done)
                    (then_settle message.organization_id t.batch_id s
                      (ok (keep_settled_b2c message.callback_id parsed t s))
                      (keep_settled_b2c-Follows message.callback_id s live t parsed))
              | inr moving ↦
                  rw (found, apply_b2c_result, moving)
                    (then_settle message.organization_id t.batch_id s
                      (apply_b2c_outcome message.callback_id parsed is_queue_timeout t s)
                      (apply_b2c_outcome-Follows message.callback_id s live t here moving parsed
                        is_queue_timeout))
            ]
      ]

  apply_transaction_status-Follows :
      (parsed : ParsedTransactionStatusResult)
      → Returns (apply_transaction_status message parsed s) (Follows s)
  unfolding apply_transaction_status
  apply_transaction_status-Follows parsed =
      let outcome = interpret_transaction_status parsed.transaction_status in
      elim (Option-cases (match_row message (matches_status parsed) s)) [
        | inl absent ↦ rw (absent, apply_transaction_status) (aside s _ live refl refl refl)
        | inr (t, found) ↦
            let here = match_row-Mem (matches_status parsed) t found in
            elim (Bool-cases (is_settled t.status)) [
              | inl done ↦
                  rw (found, apply_transaction_status, done)
                    (then_settle message.organization_id t.batch_id s
                      (ok (keep_settled_status message.callback_id outcome t s))
                      (keep_settled_status-Follows message.callback_id s live t outcome))
              | inr moving ↦
                  rw (found, apply_transaction_status, moving)
                    (then_settle message.organization_id t.batch_id s
                      (apply_status_unsettled message.callback_id parsed t outcome s)
                      (apply_status_unsettled-Follows message.callback_id s live t here moving
                        parsed outcome))
            ]
      ]

  module _ (to_cents : Option Value → Option ℤ) where
    apply_callback-Follows :
        (type : CallbackType) (payload : ResultCallback)
        → Returns (apply_callback to_cents message type payload s) (Follows s)
    unfolding apply_callback apply_account_balance
    apply_callback-Follows b2c_result payload =
        apply_b2c_result-Follows (parse_b2c_result to_cents payload) false
    apply_callback-Follows b2c_timeout payload =
        apply_b2c_result-Follows (parse_b2c_result to_cents payload) true
    apply_callback-Follows transaction_status payload =
        apply_transaction_status-Follows (parse_transaction_status_result payload)
    apply_callback-Follows account_balance payload = aside s _ live refl refl refl

    pub process_callback-Follows : Returns (process_callback to_cents message s) (Follows s)
    unfolding process_callback
    process_callback-Follows = elim (Option-cases (callback_for message s)) [
      | inl absent ↦ rw (absent, process_callback) (Follows-refl s live)
      | inr (c, found) ↦ elim (Bool-cases (is_processed c)) [
        | inl done ↦ rw (found, process_callback, done) (Follows-refl s live)
        | inr new ↦
            rw (found, process_callback, new) (apply_callback-Follows c.callback_type c.raw_payload)
      ]
    ]
