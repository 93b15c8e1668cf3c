-- ===== src/Execution/Run.antt =====
-- Workers at work on one batch: every interleaving of submissions, answers, callbacks and queries is a
-- sequence of events, each a database transaction or a few of one worker (apps/api/src/queues).
pub mod Once
pub mod Ledger
use slvrn.Prelude.{List, [], ◌∷◌, ◌++◌, Option}
use slvrn.Prelude.Text.{Text, codes}
use slvrn.Prelude.Number.{ℤ}
use slvrn.Errors.{Result, ok, err}
use slvrn.Daraja.{Value}
use slvrn.Execution.Store.{Store}
use slvrn.Execution.Submit.{
  PaymentQueueMessage, SubmissionContext, Prepared, ready, prepare_submission,
}
use slvrn.Execution.Outcome.{Answer, record_answer, mark_for_reconciliation}
use slvrn.Execution.Callbacks.{process_callback}
use slvrn.Execution.Callbacks.B2c.{CallbackQueueMessage}
use slvrn.Execution.Reconcile.{QueryResult, sweep_organization}

-- A worker that dies after `prepared` never has the `answered` of it; an answer may come late, and a
-- message may be delivered again.
pub data Event : Type 0 where
  prepared : PaymentQueueMessage → Option Text → Text → Text → Event
  answered : PaymentQueueMessage → SubmissionContext → Answer → Event
  given_up : PaymentQueueMessage → Event
  delivered : CallbackQueueMessage → Event
  swept : List (Text × Text) → (Text → QueryResult) → Event

-- A throw undoes the database transaction. Nothing after the first of an event throws.
abbrev pub or_undone : Store → Result Store → Store
or_undone s (err _) = s
or_undone s (ok s') = s'

abbrev pub store_after : Store → Result (Store × Prepared) → Store
store_after s (err _) = s
store_after s (ok (s', _)) = s'

abbrev pub sent_by : Result (Store × Prepared) → List Text
sent_by (err _) = []
sent_by (ok (s', ready context)) = context.instruction.id ∷ []
sent_by (ok (s', _)) = []

module _ (hash : Text → Text) (to_cents : Option Value → Option ℤ) where
  unfoldable pub apply : Event → Store → Store
  apply (prepared message config fresh token) s =
      store_after s (prepare_submission hash message config fresh token s)
  apply (answered message context answer) s = or_undone s (record_answer message context answer s)
  apply (given_up message) s =
      or_undone s (mark_for_reconciliation message.instruction_id (codes "SLV_SUBMIT_FAILED") s)
  apply (delivered message) s = or_undone s (process_callback to_cents message s)
  apply (swept stuck answers) s = sweep_organization stuck answers s

  unfoldable pub run : List Event → Store → Store
  run [] s = s
  run (e ∷ es) s = run es (apply e s)

  -- The instruction that the event sends to the provider, if any.
  unfoldable pub sends : Event → Store → List Text
  sends (prepared message config fresh token) s =
      sent_by (prepare_submission hash message config fresh token s)
  sends _ s = []

  unfoldable pub submissions : List Event → Store → List Text
  submissions [] s = []
  submissions (e ∷ es) s = sends e s ++ submissions es (apply e s)
