-- ===== src/Execution/Sound/Submission.antt =====
-- What a submission and the settlement of the batch keep.
use slvrn.Prelude.{
  ltb, ◌==◌, All, ◌≡◌, refl, sym, ap, ◌∙◌, ◌≢◌, ◌⊎◌, inl, inr, false, List, [], ◌∷◌, ◌++◌, Memᴰ,
  Option, none, some, Bool-cases, length, Option-cases, not, arith, ◌&&◌,
}
use slvrn.Prelude.Text.{Text, text_eq, text_eq_iff}
use slvrn.Errors.Returns.{Returns, Returns->>=}
use slvrn.Batch.{BatchState, BatchState-discrete, authorized, queued, submitted, processing}
use slvrn.Batch.Driven.{Driven, Driven-refl, starts, settles}
use slvrn.Txn.{TxnState}
use slvrn.Txn.Paths.{permitted-Reaches}
use slvrn.Idempotency.{ClaimDecision, decide_on_existing_claim}
use slvrn.Execution.Store.{Store, Instruction, Transaction, Claim, claim_for, any}
use slvrn.Execution.Ledger.{is_forbidden, update_transactions}
use slvrn.Execution.Rows.{Backed, Live, Grows-Sent, Keyed, Moves, Grows, Grows-refl, Grows-append}
use slvrn.Execution.Rows.Updates.{update_rows}
use slvrn.Execution.Claims.{
  Advance-refl, Finishes, IsClosed, IsHeld, IsSent, update_claims-Advance, update_claims-IsClosed,
}
use slvrn.Execution.Submit.{
  ClaimDecision-cases, PaymentQueueMessage, Prepared, ready, started, mark_submitted, mark_disabled,
  is_unfinished_of, submitted_row, submit_row, start, insert_transaction, refuse_disabled,
  submit_claimed, decide, decide_submission, prepare_found, prepare_submission, is_executable,
  instruction_for, expected_fingerprint, originator_conversation_id,
}
use slvrn.Execution.Settle.{
  Summary, next_state, maybe_settle_batch, summarize, rows_of, is_complete, is_running,
}
use slvrn.Execution.Sound.{Follows, Follows-refl}

start-Driven : (state : BatchState) → Driven state (start state)
unfolding start BatchState-discrete
start-Driven authorized = starts.0
start-Driven queued = starts.1
start-Driven submitted = starts.2
start-Driven _ = ([], refl)

started-Driven : (batch_id : Text) (s : Store) → Driven s.state (started batch_id s)
started-Driven batch_id s = elim (Bool-cases (text_eq s.id batch_id)) [
  | inl own ↦ rw own (start-Driven s.state)
  | inr other ↦ rw other (Driven-refl s.state)
]

next_state-Driven : (summary : Summary) → Driven processing (next_state summary)
unfolding next_state
next_state-Driven summary = elim (Bool-cases (ltb 0 summary.timeout)) [
  | inl waits ↦ rw waits settles.3
  | inr none_open ↦ elim (Bool-cases (summary.failed == 0)) [
    | inl clean ↦ rw (none_open, clean) settles.0
    | inr some_failed ↦ elim (Bool-cases (summary.success == 0)) [
      | inl all_failed ↦ rw (none_open, some_failed, all_failed) settles.2
      | inr mixed ↦ rw (none_open, some_failed, mixed) settles.1
    ]
  ]
]

pub maybe_settle_batch-Follows :
    (organization_id batch_id : Text) (s : Store)
    → Live s.transactions
    → Follows s (maybe_settle_batch organization_id batch_id s)
unfolding maybe_settle_batch
maybe_settle_batch-Follows organization_id batch_id s live =
    let summary = summarize (rows_of batch_id s.transactions) in
    let ready_to_settle =
      is_running organization_id batch_id s && is_complete (length s.instructions) summary in
    elim (Bool-cases ready_to_settle) [
      | inl all ↦
          let running : s.state ≡ processing = ground arith in
          rw all (record {
            rows = Grows-refl s.transactions;
            live = live;
            claims = Advance-refl s.claims;
            batch = rw running (next_state-Driven summary);
          })
      | inr not_yet ↦ rw not_yet (Follows-refl s live)
    ]

mark_submitted-Finishes : (originator_id : Text) → Finishes (mark_submitted originator_id)
mark_submitted-Finishes originator_id = record { instruction_id = λ c. refl; sent = λ c. inl refl }

any-false :
    (id : Text) (ts : List Transaction) (t : Transaction)
    → any (λ (u : Transaction). text_eq u.id id) ts ≡ false
    → Memᴰ t ts
    → t.id ≢ id
any-false id [] t h m = elim m [ ]
any-false id (x ∷ xs) t h (Memᴰ.head e) =
    λ same. ground (arith, text_eq_iff x.id id, ap (λ v. v.id) e)
any-false id (x ∷ xs) t h (Memᴰ.tail m) = any-false id xs t (ground arith) m

abbrev Fresh : Text → List Transaction → Type 0
Fresh id ts = (t : Transaction) → Memᴰ t ts → t.id ≢ id

append_cases :
    (ts : List Transaction) (t u : Transaction) → Memᴰ u (ts ++ t ∷ []) → Memᴰ u ts ⊎ (u ≡ t)
append_cases [] t u (Memᴰ.head e) = inr e
append_cases [] t u (Memᴰ.tail m) = elim m [ ]
append_cases (x ∷ xs) t u (Memᴰ.head e) = inl (Memᴰ.head e)
append_cases (x ∷ xs) t u (Memᴰ.tail m) = elim (append_cases xs t u m) [
  | inl old ↦ inl (Memᴰ.tail old)
  | inr new ↦ inr new
]

append-All :
    (ts : List Transaction) (t : Transaction) → All Backed ts → Backed t → All Backed (ts ++ t ∷ [])
append-All [] t bs b = (b, tt)
append-All (x ∷ xs) t (y, ys) b = (y, append-All xs t ys b)

append-Keyed :
    (ts : List Transaction) (t : Transaction) → Keyed ts → Fresh t.id ts → Keyed (ts ++ t ∷ [])
append-Keyed ts t keyed fresh a b ma mb e = elim (append_cases ts t a ma) [
  | inl old_a ↦ elim (append_cases ts t b mb) [
    | inl old_b ↦ keyed a b old_a old_b e
    | inr new_b ↦ absurd (fresh a old_a (e ∙ ap (λ v. v.id) new_b))
  ]
  | inr new_a ↦ elim (append_cases ts t b mb) [
    | inl old_b ↦ absurd (fresh b old_b (sym e ∙ ap (λ v. v.id) new_a))
    | inr new_b ↦ new_a ∙ sym new_b
  ]
]

module _ (message : PaymentQueueMessage) (instruction : Instruction) where
  submit_row-Follows :
      (fresh originator_id : Text) (s : Store)
      → Live s.transactions
      → any (λ (t : Transaction). text_eq t.id fresh) s.transactions ≡ false
      → Follows s (submit_row message instruction fresh originator_id s)
  unfolding submit_row
  submit_row-Follows fresh originator_id s live unused =
      let row = submitted_row message instruction fresh originator_id in
      let grows = Grows-append s.transactions row refl in
      record {
        rows = grows;
        live = record {
          keyed =
              append-Keyed s.transactions row live.keyed
                (λ t m. any-false fresh s.transactions t unused m);
          sent = Grows-Sent s.transactions (s.transactions ++ row ∷ []) grows live.sent;
          backed =
              append-All s.transactions row live.backed
                (record { paid = λ e. cc (e); explained = λ e. cc (e) });
        };
        claims =
            update_claims-Advance instruction.id (mark_submitted originator_id)
              (mark_submitted-Finishes originator_id) s.claims;
        batch = started-Driven message.batch_id s;
      }

disabled-Moves :
    (t : Transaction)
    → t.status ≢ TxnState.pending
    → is_forbidden t (mark_disabled t) ≡ false
    → Moves mark_disabled t
unfolding is_forbidden
disabled-Moves t sent permitted = record {
  id = refl;
  instruction_id = refl;
  batch_id = refl;
  originator = refl;
  status = permitted-Reaches t.status TxnState.failed sent (ground arith) (inl refl);
  backed = record { paid = λ e. cc (e); explained = λ _ e. cc (e) };
}

-- A submission goes out only for an instruction without a claim that is sent, and leaves such a claim.
abbrev pub SentOnce : Store → Store × Prepared → Type 0
SentOnce s (s', ready context) =
    ¬ (IsClosed context.instruction.id s.claims)
    × (IsHeld context.instruction.id s.claims → IsClosed context.instruction.id s'.claims)
SentOnce s (s', _) = Unit

abbrev pub Prepares : Store → Store × Prepared → Type 0
Prepares s result = Follows s result.0 × SentOnce s result

refuse_disabled-Prepares :
    (id : Text) (s : Store) → Live s.transactions → Returns (refuse_disabled id s) (Prepares s)
unfolding refuse_disabled
refuse_disabled-Prepares id s live =
    Returns->>= (update_transactions (is_unfinished_of id) mark_disabled s.transactions) _
      (λ us. Grows s.transactions us × Live us) (Prepares s)
      (update_rows (is_unfinished_of id) mark_disabled s.transactions live (λ t. refl)
        (λ t m hit permitted. disabled-Moves t (live.sent t m) permitted))
      (λ us (grows, alive). (
        record {
          rows = grows;
          live = alive;
          claims = Advance-refl s.claims;
          batch = Driven-refl s.state;
        },
        tt,
      ))

module _ (message : PaymentQueueMessage) (instruction : Instruction) (s : Store)
    (live : Live s.transactions) (free : ¬ (IsClosed instruction.id s.claims)) where
  insert_transaction-Prepares :
      (fresh originator_id : Text)
      → Returns (insert_transaction message instruction fresh originator_id s) (Prepares s)
  unfolding insert_transaction submit_row
  insert_transaction-Prepares fresh originator_id =
      elim (Bool-cases (
        any (λ (t : Transaction). text_eq t.originator_conversation_id originator_id)
          s.transactions)) [
            | inl taken ↦ rw taken (Follows-refl s live, tt)
            | inr new ↦
                elim (Bool-cases (any (λ (t : Transaction). text_eq t.id fresh) s.transactions)) [
                  | inl clash ↦ rw (new, clash) tt
                  | inr unused ↦
                      rw (new, unused)
                        (
                          submit_row-Follows message instruction fresh originator_id s live unused,
                          (
                            free,
                            update_claims-IsClosed instruction.id (mark_submitted originator_id)
                                (mark_submitted-Finishes originator_id) s.claims,
                          ),
                        )
                ]
          ]

  submit_claimed-Prepares :
      (config : Option Text) (fresh token : Text)
      → Returns (submit_claimed message instruction config fresh token s) (Prepares s)
  unfolding submit_claimed
  submit_claimed-Prepares none fresh token = refuse_disabled-Prepares instruction.id s live
  submit_claimed-Prepares (some short_code) fresh token =
      insert_transaction-Prepares fresh (originator_conversation_id short_code instruction.id token)

closed_refused : (c : Claim) → IsSent c.state → decide (some c) ≢ ClaimDecision.submit
unfolding decide_on_existing_claim
closed_refused c sent = ground arith

submit_is_free :
    (id : Text) (s : Store)
    → decide (claim_for id s.claims) ≡ ClaimDecision.submit
    → ¬ (IsClosed id s.claims)
submit_is_free id s h (c, found, sent) = closed_refused c sent (ap decide (sym found) ∙ h)

module _ (message : PaymentQueueMessage) (config : Option Text) (fresh token : Text) (s : Store)
    (live : Live s.transactions) where
  decide_submission-Prepares :
      (instruction : Instruction)
      → Returns (decide_submission message instruction config fresh token s) (Prepares s)
  unfolding decide_submission
  decide_submission-Prepares instruction =
      elim (ClaimDecision-cases (decide (claim_for instruction.id s.claims))) [
        | inl submits ↦
            rw (submits, decide_submission)
              (submit_claimed-Prepares message instruction s live
                (submit_is_free instruction.id s submits) config fresh token)
        | inr (inl skips) ↦ rw (skips, decide_submission) (Follows-refl s live, tt)
        | inr (inr waits) ↦ rw (waits, decide_submission) (Follows-refl s live, tt)
      ]

  prepare_found-Prepares :
      (hash : Text → Text) (instruction : Instruction)
      → Returns (prepare_found hash message instruction config fresh token s) (Prepares s)
  unfolding prepare_found
  prepare_found-Prepares hash instruction = elim (Bool-cases (not (is_executable message s))) [
    | inl stale ↦ rw stale (Follows-refl s live, tt)
    | inr current ↦
        elim (Bool-cases
          (not (text_eq (expected_fingerprint hash message instruction) message.fingerprint))) [
            | inl altered ↦
                rw (current, altered)
                  (
                    record {
                      rows = Grows-refl s.transactions;
                      live = live;
                      claims = Advance-refl s.claims;
                      batch = Driven-refl s.state;
                    },
                    tt,
                  )
            | inr genuine ↦ rw (current, genuine) (decide_submission-Prepares instruction)
          ]
  ]

  pub prepare_submission-Prepares :
      (hash : Text → Text)
      → Returns (prepare_submission hash message config fresh token s) (Prepares s)
  unfolding prepare_submission
  prepare_submission-Prepares hash = elim (Option-cases (instruction_for message s)) [
    | inl absent ↦ rw (absent, prepare_submission) (Follows-refl s live, tt)
    | inr (instruction, found) ↦
        rw (found, prepare_submission) (prepare_found-Prepares hash instruction)
  ]
