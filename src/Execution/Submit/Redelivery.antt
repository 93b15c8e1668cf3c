-- ===== src/Execution/Submit/Redelivery.antt =====
-- A message that is delivered again after its instruction was sent (`prepareSubmission`,
-- apps/api/src/queues/payment-executor.ts).
use slvrn.Prelude.{
  ◌≡◌, refl, sym, ap, inl, inr, Bool, true, List, [], ◌∷◌, ◌++◌, Memᴰ, Option, some, contains,
  Bool-cases, some_inj, subst, arith,
}
use slvrn.Prelude.Text.{Text, text_eq, text_eq_iff}
use slvrn.Errors.{ok}
use slvrn.Batch.{BatchState, BatchState-discrete, processing}
use slvrn.Txn.{TxnState}
use slvrn.Idempotency.{IdempotencyState, ClaimDecision, decide_on_existing_claim}
use slvrn.Execution.Store.{Store, Instruction, Transaction, Claim, find, update, claim_for}
use slvrn.Execution.Submit.{
  PaymentQueueMessage, SubmissionContext, ready, reconcile, execution_states, start, submit_row,
  submitted_row, mark_submitted, is_executable, instruction_for, decide, originator_conversation_id,
  decide_submission, prepare_found, prepare_submission,
}
use slvrn.Execution.Submit.Sends.{IsDue, due_is_sent}

find-hit {ℓ} : {A : Type ℓ} (p : A → Bool) (xs : List A) (x : A) → find p xs ≡ some x → p x ≡ true
find-hit p [] x h = cc
find-hit p (y ∷ ys) x h = elim (Bool-cases (p y)) [
  | inl hit ↦ subst (λ z. p z ≡ true) (some_inj (rw hit at h)) hit
  | inr miss ↦ find-hit p ys x (rw miss at h)
]

-- A write that leaves the test alone is found where the row was.
find-update {ℓ} :
    {A : Type ℓ} (p : A → Bool) (f : A → A) (xs : List A) (x : A)
    → ((y : A) → p (f y) ≡ p y)
    → find p xs ≡ some x
    → find p (update p f xs) ≡ some (f x)
find-update p f [] x same h = cc
find-update p f (y ∷ ys) x same h = elim (Bool-cases (p y)) [
  | inl hit ↦ rw (hit, same y, hit) (ap (λ z. some (f z)) (some_inj (rw hit at h)))
  | inr miss ↦ rw (miss, miss) (find-update p f ys x same (rw miss at h))
]

Mem-last {ℓ} : {A : Type ℓ} (xs : List A) (x : A) → Memᴰ x (xs ++ x ∷ [])
Mem-last [] x = Memᴰ.head refl
Mem-last (y ∷ ys) x = Memᴰ.tail (Mem-last ys x)

start-processing :
    (state : BatchState)
    → contains BatchState-discrete state execution_states ≡ true
    → start state ≡ processing
unfolding start BatchState-discrete
start-processing state h = ground arith

-- What is on record once the instruction was sent as `originator_id` in the row `id`.
pub record IsSubmitted (i : Instruction) (id originator_id : Text) (s : Store) : Type 0 where
  pub row :
      (t : Transaction) × Memᴰ t s.transactions
      × (t.id ≡ id)
      × (t.instruction_id ≡ i.id)
      × (t.status ≡ TxnState.submitted)
      × (t.originator_conversation_id ≡ originator_id)
  pub claim :
      (c : Claim) × (claim_for i.id s.claims ≡ some c)
      × (c.state ≡ IdempotencyState.submitted)
      × (c.originator_conversation_id ≡ some originator_id)
  pub status :
      (j : Instruction) × (find (λ (k : Instruction). text_eq k.id i.id) s.instructions ≡ some j)
      × (j.status ≡ TxnState.submitted)
  pub state : s.state ≡ processing

module _ (hash : Text → Text) (message : PaymentQueueMessage) (fresh token short_code : Text)
    (s : Store) (i : Instruction) (c : Claim) where
  abbrev originator : Text
  originator = originator_conversation_id short_code i.id token

  abbrev after : Store
  after = submit_row message i fresh originator s

  module _ (due : IsDue hash message i short_code fresh token s)
      (held : claim_for i.id s.claims ≡ some c) (own : message.batch_id ≡ s.id) where
    belongs : text_eq s.organization_id message.organization_id ≡ true
    belongs = elim (Bool-cases (text_eq s.organization_id message.organization_id)) [
      | inl hit ↦ hit
      | inr miss ↦ cc (rw miss at due.row)
    ]

    listed : find (λ (k : Instruction). text_eq k.id message.instruction_id) s.instructions ≡ some i
    listed = rw belongs at due.row

    named : i.id ≡ message.instruction_id
    named = (text_eq_iff i.id message.instruction_id).0 (
        find-hit (λ (k : Instruction). text_eq k.id message.instruction_id) s.instructions i listed)

    status_after :
        find (λ (k : Instruction). text_eq k.id i.id) after.instructions
        ≡ some (record i { status = TxnState.submitted })
    unfolding submit_row
    status_after =
        find-update (λ (k : Instruction). text_eq k.id i.id)
          (λ k. record k { status = TxnState.submitted }) s.instructions i (λ k. refl)
          (subst (λ n. find (λ (k : Instruction). text_eq k.id n) s.instructions ≡ some i)
            (sym named) listed)

    claim_after : claim_for i.id after.claims ≡ some (mark_submitted originator c)
    unfolding submit_row
    claim_after =
        find-update (λ (k : Claim). text_eq k.instruction_id i.id) (mark_submitted originator)
          s.claims c (λ k. refl) held

    state_after : after.state ≡ processing
    unfolding submit_row
    state_after =
        let mine = (text_eq_iff s.id message.batch_id).1 (sym own) in
        let runs = start-processing s.state (ground (arith, due.executable)) in rw (mine, runs) refl

    after-IsSubmitted : IsSubmitted i fresh originator after
    unfolding submit_row
    after-IsSubmitted = record {
      row = (
        submitted_row message i fresh originator,
        Mem-last s.transactions (submitted_row message i fresh originator),
        refl,
        refl,
        refl,
        refl,
      );
      claim = (mark_submitted originator c, claim_after, refl, refl);
      status = (record i { status = TxnState.submitted }, status_after, refl);
      state = state_after;
    }

    reconciles : decide (claim_for i.id after.claims) ≡ ClaimDecision.reconcile_first
    unfolding decide_on_existing_claim
    reconciles = ap decide claim_after

    row_after : instruction_for message after ≡ some (record i { status = TxnState.submitted })
    unfolding submit_row
    row_after = rw belongs (
        subst
          (λ n.
            find (λ (k : Instruction). text_eq k.id n) after.instructions
            ≡ some (record i { status = TxnState.submitted }))
          named status_after)

    executable_after : is_executable message after ≡ true
    unfolding submit_row BatchState-discrete
    executable_after = rw state_after (ground (arith, due.executable))

    again :
        (config : Option Text) (fresh' token' : Text)
        → prepare_submission hash message config fresh' token' after ≡ ok (after, reconcile)
    unfolding prepare_submission prepare_found decide_submission
    again config fresh' token' =
        rw
          (
            row_after, prepare_submission, executable_after, due.genuine, reconciles,
            decide_submission,
          )
          refl

-- An instruction that is due and has its claim, in the message's own batch, is sent: its new row, its
-- claim under the originator id and its status are SUBMITTED, and its batch is PROCESSING. If the message
-- is then delivered again, under whatever configuration, nothing is sent or changed, and it goes to
-- reconciliation.
pub due_is_sent_once :
    (hash : Text → Text) (message : PaymentQueueMessage) (fresh token short_code : Text) (s : Store)
    (i : Instruction) (c : Claim)
    → IsDue hash message i short_code fresh token s
    → claim_for i.id s.claims ≡ some c
    → message.batch_id ≡ s.id
    → (s' : Store) × (context : SubmissionContext) × (prepare_submission hash message
          (some short_code)
          fresh
          token
          s
        ≡ ok (s', ready context))
      × (context.instruction ≡ i)
      × IsSubmitted i context.transaction_id context.originator_id s'
      × ((config : Option Text) (fresh' token' : Text)
          → prepare_submission hash message config fresh' token' s' ≡ ok (s', reconcile))
due_is_sent_once hash message fresh token short_code s i c due held own = (
  after hash message fresh token short_code s i c,
  record {
    transaction_id = fresh;
    originator_id = originator_conversation_id short_code i.id token;
    instruction = i;
  },
  due_is_sent hash message fresh token short_code s i due,
  refl,
  after-IsSubmitted hash message fresh token short_code s i c due held own,
  again hash message fresh token short_code s i c due held own,
)
