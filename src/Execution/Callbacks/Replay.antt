-- ===== src/Execution/Callbacks/Replay.antt =====
-- A callback is processed once (apps/api/src/queues/callback-processor.ts).
use slvrn.Prelude.{
  ◌≡◌, refl, ap, ◌∙◌, inl, inr, Bool, true, false, List, [], ◌∷◌, Option, some, Bool-cases, length,
  Option-cases, some_inj, subst, ◌&&◌,
}
use slvrn.Prelude.Text.{Text, text_eq}
use slvrn.Prelude.Number.{ℤ}
use slvrn.Errors.{Result, ok, ◌>>=◌, ok_inj}
use slvrn.Errors.Returns.{Returns, Returns->>=, Returns-any}
use slvrn.Txn.{is_settled, assert_txn_transition}
use slvrn.Daraja.{
  Value, ResultCallback, StatusOutcome, ParsedB2cResult, ParsedTransactionStatusResult,
  interpret_transaction_status, parse_b2c_result, parse_transaction_status_result,
}
use slvrn.Execution.Store.{
  Store, Transaction, ProviderCallback, ProcessingOutcome, CallbackType, b2c_result, b2c_timeout,
  transaction_status, account_balance, update, find, close_callback,
}
use slvrn.Execution.Ledger.{update_transactions}
use slvrn.Execution.Settle.{maybe_settle_batch, is_running, is_complete, summarize, rows_of}
use slvrn.Execution.Outcome.{has_id}
use slvrn.Execution.Callbacks.{
  apply_account_balance, apply_callback, process_callback, callback_for, is_processed,
}
use slvrn.Execution.Callbacks.B2c.{
  CallbackQueueMessage, agrees, mark_b2c, keep_settled_b2c, apply_b2c_outcome, apply_b2c_result,
  match_row, matches_b2c,
}
use slvrn.Execution.Callbacks.Status.{
  status_agrees, mark_status, keep_settled_status, apply_status_outcome, apply_status_unsettled,
  keep_querying, apply_transaction_status, matches_status,
}

-- The callback has been closed, and nothing else of the table is changed.
record Closes (id : Text) (s s' : Store) : Type 0 where
  outcome : ProcessingOutcome
  table : s'.callbacks ≡ (close_callback id outcome s).callbacks
  organization : s'.organization_id ≡ s.organization_id

abbrev closed_as :
    (id : Text) (s s' : Store) (o : ProcessingOutcome)
    → s'.callbacks ≡ (close_callback id o s).callbacks
    → s'.organization_id ≡ s.organization_id
    → Closes id s s'
closed_as id s s' o e f = record { outcome = o; table = e; organization = f }

maybe_settle_batch-callbacks :
    (organization_id batch_id : Text) (s : Store)
    → ((maybe_settle_batch organization_id batch_id s).callbacks ≡ s.callbacks)
      × ((maybe_settle_batch organization_id batch_id s).organization_id ≡ s.organization_id)
unfolding maybe_settle_batch
maybe_settle_batch-callbacks organization_id batch_id s =
    elim (Bool-cases (
      is_running organization_id batch_id s
      && is_complete (length s.instructions) (summarize (rows_of batch_id s.transactions)))) [
        | inl all ↦ rw all (refl, refl)
        | inr not_yet ↦ rw not_yet (refl, refl)
      ]

then_settle-Closes :
    (id organization_id batch_id : Text) (s : Store) (applied : Result Store)
    → Returns applied (Closes id s)
    → Returns (applied >>= λ s'. ok (maybe_settle_batch organization_id batch_id s')) (Closes id s)
then_settle-Closes id organization_id batch_id s applied h =
    Returns->>= applied _ (Closes id s) (Closes id s) h (λ s' c.
      let (table, organization) = maybe_settle_batch-callbacks organization_id batch_id s' in
      closed_as id s _ c.outcome (table ∙ c.table) (organization ∙ c.organization))

module _ (id : Text) (t : Transaction) (s : Store) where
  keep_settled_b2c-Closes :
      (parsed : ParsedB2cResult) → Closes id s (keep_settled_b2c id parsed t s)
  unfolding keep_settled_b2c
  keep_settled_b2c-Closes parsed = elim (Bool-cases (agrees t.status parsed.succeeded)) [
    | inl same ↦ rw same (closed_as id s _ ProcessingOutcome.duplicate refl refl)
    | inr other ↦ rw other (closed_as id s _ ProcessingOutcome.ignored_settled refl refl)
  ]

  keep_settled_status-Closes :
      (outcome : StatusOutcome) → Closes id s (keep_settled_status id outcome t s)
  unfolding keep_settled_status
  keep_settled_status-Closes outcome = elim (Bool-cases (status_agrees t.status outcome)) [
    | inl same ↦ rw same (closed_as id s _ ProcessingOutcome.duplicate refl refl)
    | inr other ↦ rw other (closed_as id s _ ProcessingOutcome.ignored_settled refl refl)
  ]

  apply_b2c_outcome-Closes :
      (parsed : ParsedB2cResult) (is_queue_timeout : Bool)
      → Returns (apply_b2c_outcome id parsed is_queue_timeout t s) (Closes id s)
  unfolding apply_b2c_outcome
  apply_b2c_outcome-Closes parsed is_queue_timeout =
      Returns->>= (assert_txn_transition _) _ (λ _. Unit {0}) (Closes id s) (Returns-any _)
        (λ checked _.
          Returns->>=
            (update_transactions (has_id t.id) (mark_b2c parsed is_queue_timeout) s.transactions) _
            (λ _. Unit {0}) (Closes id s) (Returns-any _)
            (λ us _. closed_as id s _ ProcessingOutcome.applied refl refl))

  apply_status_outcome-Closes :
      (parsed : ParsedTransactionStatusResult) (succeeded : Bool)
      → Returns (apply_status_outcome id parsed succeeded t s) (Closes id s)
  unfolding apply_status_outcome
  apply_status_outcome-Closes parsed succeeded =
      Returns->>= (assert_txn_transition _) _ (λ _. Unit {0}) (Closes id s) (Returns-any _)
        (λ checked _.
          Returns->>=
            (update_transactions (has_id t.id) (mark_status parsed succeeded) s.transactions) _
            (λ _. Unit {0}) (Closes id s) (Returns-any _)
            (λ us _. closed_as id s _ ProcessingOutcome.applied refl refl))

  apply_status_unsettled-Closes :
      (parsed : ParsedTransactionStatusResult) (outcome : StatusOutcome)
      → Returns (apply_status_unsettled id parsed t outcome s) (Closes id s)
  unfolding apply_status_unsettled keep_querying
  apply_status_unsettled-Closes parsed StatusOutcome.success =
      apply_status_outcome-Closes parsed true
  apply_status_unsettled-Closes parsed StatusOutcome.failed =
      apply_status_outcome-Closes parsed false
  apply_status_unsettled-Closes parsed StatusOutcome.pending =
      closed_as id s _ ProcessingOutcome.applied refl refl
  apply_status_unsettled-Closes parsed StatusOutcome.unknown =
      closed_as id s _ ProcessingOutcome.applied refl refl

module _ (message : CallbackQueueMessage) (s : Store) where
  apply_b2c_result-Closes :
      (parsed : ParsedB2cResult) (is_queue_timeout : Bool)
      → Returns (apply_b2c_result message parsed is_queue_timeout s) (Closes message.callback_id s)
  unfolding apply_b2c_result
  apply_b2c_result-Closes parsed is_queue_timeout =
      let id = message.callback_id in
      elim (Option-cases (match_row message (matches_b2c parsed) s)) [
        | inl absent ↦
            rw (absent, apply_b2c_result) (closed_as id s _ ProcessingOutcome.unmatched refl refl)
        | inr (t, found) ↦ elim (Bool-cases (is_settled t.status)) [
          | inl done ↦
              rw (found, apply_b2c_result, done)
                (then_settle-Closes id message.organization_id t.batch_id s
                  (ok (keep_settled_b2c id parsed t s)) (keep_settled_b2c-Closes id t s parsed))
          | inr moving ↦
              rw (found, apply_b2c_result, moving)
                (then_settle-Closes id message.organization_id t.batch_id s
                  (apply_b2c_outcome id parsed is_queue_timeout t s)
                  (apply_b2c_outcome-Closes id t s parsed is_queue_timeout))
        ]
      ]

  apply_transaction_status-Closes :
      (parsed : ParsedTransactionStatusResult)
      → Returns (apply_transaction_status message parsed s) (Closes message.callback_id s)
  unfolding apply_transaction_status
  apply_transaction_status-Closes parsed =
      let id = message.callback_id in
      let outcome = interpret_transaction_status parsed.transaction_status in
      elim (Option-cases (match_row message (matches_status parsed) s)) [
        | inl absent ↦
            rw (absent, apply_transaction_status)
              (closed_as id s _ ProcessingOutcome.unmatched refl refl)
        | inr (t, found) ↦ elim (Bool-cases (is_settled t.status)) [
          | inl done ↦
              rw (found, apply_transaction_status, done)
                (then_settle-Closes id message.organization_id t.batch_id s
                  (ok (keep_settled_status id outcome t s))
                  (keep_settled_status-Closes id t s outcome))
          | inr moving ↦
              rw (found, apply_transaction_status, moving)
                (then_settle-Closes id message.organization_id t.batch_id s
                  (apply_status_unsettled id parsed t outcome s)
                  (apply_status_unsettled-Closes id t s parsed outcome))
        ]
      ]

  apply_callback-Closes :
      (to_cents : Option Value → Option ℤ) (type : CallbackType) (payload : ResultCallback)
      → Returns (apply_callback to_cents message type payload s) (Closes message.callback_id s)
  unfolding apply_callback apply_account_balance
  apply_callback-Closes to_cents b2c_result payload =
      apply_b2c_result-Closes (parse_b2c_result to_cents payload) false
  apply_callback-Closes to_cents b2c_timeout payload =
      apply_b2c_result-Closes (parse_b2c_result to_cents payload) true
  apply_callback-Closes to_cents transaction_status payload =
      apply_transaction_status-Closes (parse_transaction_status_result payload)
  apply_callback-Closes to_cents account_balance payload =
      closed_as message.callback_id s _ ProcessingOutcome.applied refl refl

abbrev by_id : Text → ProviderCallback → Bool
by_id id c = text_eq c.id id

abbrev close : ProcessingOutcome → ProviderCallback → ProviderCallback
close o c = record c { processing_outcome = some o }

find-close :
    (id : Text) (o : ProcessingOutcome) (cs : List ProviderCallback) (c : ProviderCallback)
    → find (by_id id) cs ≡ some c
    → find (by_id id) (update (by_id id) (close o) cs) ≡ some (close o c)
find-close id o [] c h = cc
find-close id o (x ∷ xs) c h = elim (Bool-cases (text_eq x.id id)) [
  | inl hit ↦ rw (hit, hit) (ap (λ y. some (close o y)) (some_inj (rw hit at h)))
  | inr miss ↦ rw (miss, miss) (find-close id o xs c (rw miss at h))
]

closed_found :
    (message : CallbackQueueMessage) (s s' : Store) (c : ProviderCallback)
    → callback_for message s ≡ some c
    → Closes message.callback_id s s'
    → (d : ProviderCallback) × (callback_for message s' ≡ some d) × (is_processed d ≡ true)
closed_found message s s' c found closes =
    elim (Bool-cases (text_eq s.organization_id message.organization_id)) [
      | inl own ↦ (
        close closes.outcome c,
        rw (closes.organization, own, closes.table)
            (find-close message.callback_id closes.outcome s.callbacks c (rw own at found)),
        refl,
      )
      | inr foreign ↦ cc (rw foreign at found)
    ]

-- Processing a callback again, after a redelivery by the queue, changes nothing: whatever the first
-- processing came to, the second leaves the whole state as the first left it.
pub process_callback_twice :
    (to_cents : Option Value → Option ℤ) (message : CallbackQueueMessage) (s s' : Store)
    → process_callback to_cents message s ≡ ok s'
    → process_callback to_cents message s' ≡ ok s'
unfolding process_callback
process_callback_twice to_cents message s s' h = elim (Option-cases (callback_for message s)) [
  | inl absent ↦
      let same = ok_inj (rw (absent, process_callback) at h) in
      subst (λ x. process_callback to_cents message x ≡ ok x) same
        (rw (absent, process_callback) refl)
  | inr (c, found) ↦ elim (Bool-cases (is_processed c)) [
    | inl done ↦
        let same = ok_inj (rw (found, process_callback, done) at h) in
        subst (λ x. process_callback to_cents message x ≡ ok x) same
          (rw (found, process_callback, done) refl)
    | inr new ↦
        let applied = rw (found, process_callback, new) at h in
        let closes : Closes message.callback_id s s' =
          rw applied at (apply_callback-Closes message s to_cents c.callback_type c.raw_payload) in
        let (d, found_again, processed) = closed_found message s s' c found closes in
        rw (found_again, process_callback, processed) refl
  ]
]
