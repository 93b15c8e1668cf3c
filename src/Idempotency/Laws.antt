-- ===== src/Idempotency/Laws.antt =====
-- What a fingerprint stands for, and when a second submission is possible
-- (packages/core/src/idempotency.ts).
use slvrn.Prelude.{◌≡◌, ◌≢◌, refl, ap, ◌∙◌, ◌↔◌, Option, none, some, some_inj, All, arith, subst}
use slvrn.Prelude.Text.{Text}
use slvrn.Prelude.Decimal.{decimal_inj}
use slvrn.Prelude.Join.{IsFree, join_inj}
use slvrn.Money.Totals.{IsAmount}
use slvrn.Manifest.{fs}
use slvrn.Manifest.Clean.{decimal-IsClean, amount-IsClean, amount_inj, cons_inj}
use slvrn.Idempotency.{
  InstructionFingerprintInput, instruction_fingerprint, fingerprint_fields, IdempotencyRecord,
  decide_on_existing_claim, decide_state, IdempotencyState, submit, reconcile_first, submitted,
  settled,
}

-- Texts free of the separator, and an amount in cents.
pub record IsCleanFingerprint (input : InstructionFingerprintInput) : Type 0 where
  pub organization : IsFree fs input.organization_id
  pub batch : IsFree fs input.batch_id
  pub instruction : IsFree fs input.instruction_id
  pub msisdn : IsFree fs input.msisdn
  pub amount : IsAmount input.amount_cents
  pub manifest : IsFree fs input.manifest_hash

fingerprint_fields-IsFree :
    (input : InstructionFingerprintInput)
    → IsCleanFingerprint input
    → All (IsFree fs) (fingerprint_fields input)
fingerprint_fields-IsFree input c = (
  omega arith,
  (
    c.organization,
    (
      c.batch,
      (
        (decimal-IsClean input.batch_version).0,
        (
          c.instruction,
          (c.msisdn, ((amount-IsClean input.amount_cents c.amount).0, (c.manifest, tt))),
        ),
      ),
    ),
  ),
)

-- With a digest that has no collisions, one fingerprint stands for one payment: two submissions share
-- it only if they agree in every field.
pub instruction_fingerprint_inj :
    (hash : Text → Text)
    → ((s t : Text) → hash s ≡ hash t → s ≡ t)
    → (a b : InstructionFingerprintInput) → IsCleanFingerprint a
    → IsCleanFingerprint b
    → instruction_fingerprint hash a ≡ instruction_fingerprint hash b
    → a ≡ b
unfolding instruction_fingerprint
instruction_fingerprint_inj hash no_collision a b ca cb e =
    let fields =
      join_inj fs _ _ _ _ (fingerprint_fields-IsFree a ca) (fingerprint_fields-IsFree b cb)
        (no_collision _ _ e) in
    let (p1, f1) = cons_inj (cons_inj fields).1 in
    let (p2, f2) = cons_inj f1 in
    let (p3, f3) = cons_inj f2 in
    let (p4, f4) = cons_inj f3 in
    let (p5, f5) = cons_inj f4 in
    let (p6, f6) = cons_inj f5 in
    let version = decimal_inj a.batch_version b.batch_version p3 in
    let amount = amount_inj a.amount_cents b.amount_cents ca.amount cb.amount p6 in
    λ i. record {
      organization_id = p1 i;
      batch_id = p2 i;
      instruction_id = p4 i;
      batch_version = version i;
      msisdn = p5 i;
      amount_cents = amount i;
      manifest_hash = (cons_inj f6).0 i;
    }

decide_state_iff :
    (s : IdempotencyState)
    → ((decide_state s ≡ submit) ↔ ((s ≢ submitted) × (s ≢ settled)))
      × ((decide_state s ≡ reconcile_first) ↔ (s ≡ submitted))
decide_state_iff s = ground arith

-- Submission is allowed exactly if no request can have reached the provider under the claim: there is
-- no claim, or it never got past CLAIMED, or it was abandoned. A claim that was submitted, and only
-- such a one, is reconciled first.
pub decide_on_existing_claim_iff :
    (claim : Option IdempotencyRecord)
    → ((decide_on_existing_claim claim ≡ submit)
        ↔ ((r : IdempotencyRecord) → claim ≡ some r → (r.state ≢ submitted) × (r.state ≢ settled)))
      × ((decide_on_existing_claim claim ≡ reconcile_first)
          ↔ ((r : IdempotencyRecord) × (claim ≡ some r) × (r.state ≡ submitted)))
unfolding decide_on_existing_claim
decide_on_existing_claim_iff none = ((λ _ r e. cc, λ _. refl), (λ h. cc, λ (r, e, s). cc))
decide_on_existing_claim_iff (some r) =
    let (submits, reconciles) = decide_state_iff r.state in
    (
      (
        λ h r' e.
            subst (λ x. (x.state ≢ submitted) × (x.state ≢ settled)) (some_inj e) (submits.0 h),
        λ f. submits.1 (f r refl),
      ),
      (
        λ h. (r, refl, reconciles.0 h),
        λ (x, e, s). reconciles.1 (ap (λ y. y.state) (some_inj e) ∙ s),
      ),
    )
