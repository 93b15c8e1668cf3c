-- ===== src/Execution/Sound/Answers.antt =====
-- What the provider's answers keep (apps/api/src/queues/payment-executor.ts).
use slvrn.Prelude.{◌≡◌, refl, inl, inr, true, Option, Bool-cases, Option-cases, arith}
use slvrn.Prelude.Text.{Text}
use slvrn.Errors.Returns.{Returns, Returns->>=, Returns-any}
use slvrn.Txn.{TxnState, TxnState-discrete, is_settled, assert_txn_transition}
use slvrn.Txn.Laws.{state_eq_iff}
use slvrn.Txn.Paths.{one_move}
use slvrn.Execution.Store.{Store, Transaction, find_last, of_instruction}
use slvrn.Execution.Rows.{Live, Moves}
use slvrn.Execution.Claims.{Advance-refl, Finishes, update_claims-Advance}
use slvrn.Execution.Submit.{PaymentQueueMessage, SubmissionContext}
use slvrn.Execution.Outcome.{
  SubmissionError, Answer, accepted, refused, has_id, awaits_ack, mark_accepted, mark_timeout,
  mark_rejected, settle_claim, rejected_code, ambiguous_code, is_ambiguous, record_accepted,
  record_rejected, mark_unsettled, mark_for_reconciliation, record_answer,
}
use slvrn.Execution.Sound.{Follows, Follows-refl, Follows-trans, write-Follows, permitted-Moves}
use slvrn.Execution.Sound.Submission.{maybe_settle_batch-Follows}

accepted-Moves :
    (id : Text) (conversation_id : Option Text) (t : Transaction)
    → awaits_ack id t ≡ true
    → Moves (mark_accepted conversation_id) t
unfolding TxnState-discrete
accepted-Moves id conversation_id t hit =
    let was : t.status ≡ TxnState.submitted =
      (state_eq_iff t.status TxnState.submitted).0 (ground arith) in
    record {
      id = refl;
      instruction_id = refl;
      batch_id = refl;
      originator = refl;
      status = rw was (one_move refl);
      backed = record { paid = λ e. cc (e); explained = λ e. cc (e) };
    }

pub record_accepted-Follows :
    (context : SubmissionContext) (conversation_id : Option Text) (s : Store)
    → Live s.transactions
    → Returns (record_accepted context conversation_id s) (Follows s)
unfolding record_accepted
record_accepted-Follows context conversation_id s live =
    write-Follows (awaits_ack context.transaction_id) (mark_accepted conversation_id) s live
      (λ t. refl) (λ t m hit permitted. accepted-Moves context.transaction_id conversation_id t hit)
      _ (λ us. refl) (λ us. Advance-refl s.claims) (λ us. refl)

mark_unsettled-Follows :
    (id code : Text) (t : Transaction) (s : Store)
    → Live s.transactions
    → Returns (mark_unsettled id code t s) (Follows s)
unfolding mark_unsettled
mark_unsettled-Follows id code t s live = elim (Bool-cases (is_settled t.status)) [
  | inl done ↦ rw done (Follows-refl s live)
  | inr unsettled ↦ rw unsettled (
      write-Follows (has_id t.id) (mark_timeout code) s live (λ u. refl)
        (λ u m hit permitted.
          permitted-Moves (mark_timeout code) u (refl, refl, refl, refl) (live.sent u m) (inr refl)
            (λ e. cc (e)) permitted)
        _ (λ us. refl) (λ us. Advance-refl s.claims) (λ us. refl))
]

pub mark_for_reconciliation-Follows :
    (id code : Text) (s : Store)
    → Live s.transactions
    → Returns (mark_for_reconciliation id code s) (Follows s)
unfolding mark_for_reconciliation
mark_for_reconciliation-Follows id code s live =
    elim (Option-cases (find_last (of_instruction id) s.transactions)) [
      | inl absent ↦ rw (absent, mark_for_reconciliation) (Follows-refl s live)
      | inr (t, found) ↦
          rw (found, mark_for_reconciliation) (mark_unsettled-Follows id code t s live)
    ]

settle_claim-Finishes : Finishes settle_claim
settle_claim-Finishes = record { instruction_id = λ c. refl; sent = λ c. inr refl }

pub record_rejected-Follows :
    (context : SubmissionContext) (error : SubmissionError) (s : Store)
    → Live s.transactions
    → Returns (record_rejected context error s) (Follows s)
unfolding record_rejected
record_rejected-Follows context error s live =
    let code = rejected_code error in
    Returns->>= (assert_txn_transition _) _ (λ _. Unit {0}) (Follows s) (Returns-any _)
      (λ checked _.
        write-Follows (has_id context.transaction_id) (mark_rejected code) s live (λ t. refl)
          (λ t m hit permitted.
            permitted-Moves (mark_rejected code) t (refl, refl, refl, refl) (live.sent t m)
              (inl refl) (λ e. cc (e)) permitted)
          _ (λ us. refl)
          (λ us.
            update_claims-Advance context.instruction.id settle_claim settle_claim-Finishes
              s.claims)
          (λ us. refl))

pub record_answer-Follows :
    (message : PaymentQueueMessage) (context : SubmissionContext) (answer : Answer) (s : Store)
    → Live s.transactions
    → Returns (record_answer message context answer s) (Follows s)
unfolding record_answer
record_answer-Follows message context (accepted conversation_id) s live =
    record_accepted-Follows context conversation_id s live
record_answer-Follows message context (refused error) s live =
    elim (Bool-cases (is_ambiguous error)) [
      | inl unclear ↦
          rw unclear
            (mark_for_reconciliation-Follows message.instruction_id (ambiguous_code error) s live)
      | inr clean ↦ rw clean (
          Returns->>= (record_rejected context error s) _ (Follows s) (Follows s)
            (record_rejected-Follows context error s live)
            (λ s' follows. Follows-trans s s' _ follows (
              maybe_settle_batch-Follows message.organization_id message.batch_id s' follows.live)))
    ]
