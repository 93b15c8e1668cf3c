-- ===== src/Execution/Submit/Sends.antt =====
-- When an instruction is sent (`prepareSubmission`, apps/api/src/queues/payment-executor.ts).
use slvrn.Prelude.{
  ◌≡◌, refl, sym, ap, inl, inr, Bool, true, false, some, Bool-cases, subst, Option-cases,
}
use slvrn.Prelude.Text.{Text, text_eq}
use slvrn.Errors.{Result, ok}
use slvrn.Idempotency.{ClaimDecision}
use slvrn.Execution.Store.{Store, Instruction, Transaction, claim_for, any}
use slvrn.Execution.Submit.{
  PaymentQueueMessage, SubmissionContext, Prepared, ready, is_executable, expected_fingerprint,
  instruction_for, decide, originator_conversation_id, submit_row, insert_transaction,
  submit_claimed, decide_submission, prepare_found, prepare_submission, ClaimDecision-cases,
}

abbrev sent_as : Store → SubmissionContext → Result (Store × Prepared)
sent_as s c = ok (s, ready c)

context_of :
    (s s' : Store) (c d : SubmissionContext)
    → sent_as s c ≡ sent_as s' d
    → c.instruction ≡ d.instruction
context_of s s' c d e = cc

-- What a worker has checked of an instruction that it sends: `short_code` is the enabled
-- configuration's.
pub record IsDue (hash : Text → Text) (message : PaymentQueueMessage) (i : Instruction)
    (short_code fresh token : Text) (s : Store) : Type 0 where
  pub row : instruction_for message s ≡ some i
  pub executable : is_executable message s ≡ true
  pub genuine : text_eq (expected_fingerprint hash message i) message.fingerprint ≡ true
  pub free : decide (claim_for i.id s.claims) ≡ ClaimDecision.submit
  pub originator :
      any
        (λ (t : Transaction).
          text_eq t.originator_conversation_id (originator_conversation_id short_code i.id token))
        s.transactions
      ≡ false
  pub unused : any (λ (t : Transaction). text_eq t.id fresh) s.transactions ≡ false

is_ready : Result (Store × Prepared) → Bool
is_ready (ok (s, ready context)) = true
is_ready _ = false

refused :
    {A : Type 0} (r : Result (Store × Prepared)) (s : Store) (c : SubmissionContext)
    → is_ready r ≡ false
    → r ≡ ok (s, ready c)
    → A
unfolding is_ready
refused r s c other h = cc (other, ap is_ready h)

inserted :
    (message : PaymentQueueMessage) (i : Instruction) (fresh originator_id : Text) (s s' : Store)
    (context : SubmissionContext)
    → insert_transaction message i fresh originator_id s ≡ ok (s', ready context)
    → (any (λ (t : Transaction). text_eq t.originator_conversation_id originator_id) s.transactions
        ≡ false)
      × (any (λ (t : Transaction). text_eq t.id fresh) s.transactions ≡ false)
      × (context.instruction ≡ i)
unfolding insert_transaction is_ready
inserted message i fresh originator_id s s' context h =
    elim (Bool-cases (
      any (λ (t : Transaction). text_eq t.originator_conversation_id originator_id)
        s.transactions)) [
          | inl taken ↦ refused _ s' context refl (rw taken at h)
          | inr new ↦
              elim (Bool-cases (any (λ (t : Transaction). text_eq t.id fresh) s.transactions)) [
                | inl clash ↦ cc (rw (new, clash) at h)
                | inr unused ↦ (new, unused, sym (context_of _ _ _ _ (rw (new, unused) at h)))
              ]
        ]

decided :
    (message : PaymentQueueMessage) (i : Instruction) (short_code fresh token : Text) (s s' : Store)
    (context : SubmissionContext)
    → decide_submission message i (some short_code) fresh token s ≡ ok (s', ready context)
    → (decide (claim_for i.id s.claims) ≡ ClaimDecision.submit)
      × (insert_transaction message i fresh (originator_conversation_id short_code i.id token) s
          ≡ ok (s', ready context))
unfolding decide_submission submit_claimed is_ready
decided message i short_code fresh token s s' context h =
    elim (ClaimDecision-cases (decide (claim_for i.id s.claims))) [
      | inl submits ↦ (submits, rw (submits, decide_submission) at h)
      | inr (inl skips) ↦ refused _ s' context refl (rw (skips, decide_submission) at h)
      | inr (inr waits) ↦ refused _ s' context refl (rw (waits, decide_submission) at h)
    ]

module _ (hash : Text → Text) (message : PaymentQueueMessage) (fresh token short_code : Text)
    (s : Store) where
  -- An instruction that is due is sent: the message does not stall, and its row, claim, status and
  -- batch are written together.
  pub due_is_sent :
      (i : Instruction)
      → IsDue hash message i short_code fresh token s
      → prepare_submission hash message (some short_code) fresh token s
        ≡ ok (
          submit_row message i fresh (originator_conversation_id short_code i.id token) s,
          ready (record {
            transaction_id = fresh;
            originator_id = originator_conversation_id short_code i.id token;
            instruction = i;
          }),
        )
  unfolding prepare_submission prepare_found decide_submission submit_claimed insert_transaction
  due_is_sent i due =
      rw
        (
          due.row, prepare_submission, due.executable, due.genuine, due.free, decide_submission,
          due.originator, due.unused,
        )
        refl

  -- An instruction is sent only if it is due: it is of the message's organization, its batch is being
  -- executed at the version that was authorized, the fingerprint that is computed from it again is the
  -- message's, and its claim allows a submission.
  pub sent-IsDue :
      (s' : Store) (context : SubmissionContext)
      → prepare_submission hash message (some short_code) fresh token s ≡ ok (s', ready context)
      → IsDue hash message context.instruction short_code fresh token s
  unfolding prepare_submission prepare_found decide_submission submit_claimed insert_transaction
      is_ready
  sent-IsDue s' context h = elim (Option-cases (instruction_for message s)) [
    | inl absent ↦ cc (rw (absent, prepare_submission) at h)
    | inr (i, row) ↦
        let h1 = rw (row, prepare_submission) at h in
        elim (Bool-cases (is_executable message s)) [
          | inr stale ↦ refused _ s' context refl (rw stale at h1)
          | inl executable ↦
              let h2 = rw executable at h1 in
              elim (Bool-cases
                (text_eq (expected_fingerprint hash message i) message.fingerprint)) [
                  | inr altered ↦ refused _ s' context refl (rw altered at h2)
                  | inl genuine ↦
                      let (free, sent) =
                        decided message i short_code fresh token s s' context (rw genuine at h2) in
                      let (originator, unused, same) =
                        inserted message i fresh (originator_conversation_id short_code i.id token)
                          s s' context sent in
                      subst (λ x. IsDue hash message x short_code fresh token s) (sym same)
                        (record {
                          row = row;
                          executable = executable;
                          genuine = genuine;
                          free = free;
                          originator = originator;
                          unused = unused;
                        })
                ]
        ]
  ]
