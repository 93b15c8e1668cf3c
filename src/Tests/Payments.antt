-- ===== src/Tests/Payments.antt =====
-- The theorems on transactions, amounts, phone numbers, officers' duties, policy and idempotency at
-- concrete inputs.
use mathlib.Core.List.{Memᴰ}
use slvrn.Prelude.{
  ◌≤◌, ◌≡◌, refl, inl, inr, ◌↔◌, true, false, [], ◌∷◌, Option, none, some, All, arith,
}
use slvrn.Prelude.Text.{Text, codes, is_digit, trim, is_space}
use slvrn.Prelude.Number.{pos, int, max_safe}
use slvrn.Errors.{ok}
use slvrn.Txn.{
  TxnState, submitted, success, failed, timeout, callback, TxnTransitionResult,
  assert_txn_transition, is_settled, is_in_flight, is_blank, TxnState-discrete, state_eq,
  check_success,
}
use slvrn.Txn.Laws.{assert_txn_transition_iff}
use slvrn.Txn.Runs.{
  Update, run, Proves, settled_for_good, outcome_has_evidence, provider_outcome_settles, input_of,
}
use slvrn.Money.{sum_cents, parse_amount_to_cents, format_cents}
use slvrn.Money.Totals.{sum_cents_iff}
use slvrn.Money.RoundTrip.{parse_amount_to_cents-format_cents}
use slvrn.Msisdn.{try_normalize_msisdn, accepted, starts_with}
use slvrn.Msisdn.Laws.{
  IsSubscriber, plus, written, Formatted, done, kept, put, try_normalize_msisdn-same,
}
use slvrn.Export.{escape_csv_field, starts_formula}
use slvrn.Export.Laws.{read_field, read_field-escape_csv_field}
use slvrn.Rbac.{l2}
use slvrn.Sod.{SodContext, assert_not_self_authorization}
use slvrn.Sod.Laws.{assert_not_self_authorization_iff}
use slvrn.Policy
use slvrn.Policy.{
  PolicyEvaluationInput, default_policy, evaluate_release_policy, assert_release_policy, violates,
  Violation-discrete, policy_daily_ceiling, Acknowledgement-discrete, high_value, risk_scored,
  needs_high_value,
}
use slvrn.Policy.Laws.{assert_release_policy_iff}
use slvrn.Idempotency.{
  IdempotencyRecord, claimed, submit, reconcile_first, decide_on_existing_claim,
  InstructionFingerprintInput, instruction_fingerprint,
}
use slvrn.Idempotency
use slvrn.Idempotency.Laws.{decide_on_existing_claim_iff, instruction_fingerprint_inj}

abbrev update : TxnState → Option Text → Option Text → Update
update to receipt code = record {
  to = to;
  source = callback;
  provider_receipt = receipt;
  failure_code = code;
}

abbrev paid : Update
paid = update success (some (codes "SGR7")) none

abbrev refused : Update
refused = update failed none (some (codes "2001"))

payment_succeeds : run submitted (paid ∷ []) ≡ ok success
unfolding assert_txn_transition state_eq is_blank trim is_space check_success
payment_succeeds = refl

repetition_accepted : run success (paid ∷ paid ∷ []) ≡ ok success
unfolding assert_txn_transition state_eq
repetition_accepted = refl

settled_for_good_example :
    (TxnState.success ≡ success) × All (λ (u : Update). u.to ≡ success) (paid ∷ paid ∷ [])
unfolding is_settled TxnState-discrete
settled_for_good_example =
    settled_for_good success success (paid ∷ paid ∷ []) refl repetition_accepted

outcome_has_evidence_example : (u : Update) × Memᴰ u (paid ∷ []) × Proves success u
outcome_has_evidence_example =
    outcome_has_evidence submitted success (paid ∷ []) (ground arith) payment_succeeds

provider_outcome_settles_example : run timeout (refused ∷ []) ≡ ok failed
unfolding is_in_flight TxnState-discrete is_blank trim is_space
provider_outcome_settles_example =
    provider_outcome_settles timeout failed refused refl (ground arith) (inr refl) (refl, refl)

abbrev late : TxnTransitionResult
late = record { to = timeout; opens_reconciliation = true }

late_accepted : assert_txn_transition (input_of submitted (update timeout none none)) ≡ ok late
unfolding assert_txn_transition state_eq check_success
late_accepted = refl

assert_txn_transition_iff_example : late.to ≡ timeout
assert_txn_transition_iff_example =
    ((assert_txn_transition_iff (input_of submitted (update timeout none none)) late).0
      late_accepted).0

sum_cents_iff_example :
    (sum_cents (int (pos 120000) ∷ int (pos 5) ∷ []) ≡ ok (pos 120005))
    ↔ ((pos 120005 ≡ pos 120005) × (120005 ≤ max_safe))
sum_cents_iff_example =
    sum_cents_iff (int (pos 120000) ∷ int (pos 5) ∷ []) (pos 120005)
      (omega arith, (omega arith, tt))

parse_amount_to_cents-format_cents_example :
    parse_amount_to_cents (format_cents (pos 123456789)) ≡ ok (pos 123456789)
parse_amount_to_cents-format_cents_example = parse_amount_to_cents-format_cents (pos 123456789) refl

subscriber : IsSubscriber (codes "712345678")
unfolding is_digit starts_with
subscriber = record { digits = ground arith; nine = refl; prefix = inl refl }

-- Brackets around the country code, a space, dots and dashes.
spaced : Formatted (written plus (codes "712345678")) (codes " +(254) 712.345-678")
unfolding is_space
spaced = put 32 (inl refl) (
    kept b'+' (
      put b'(' (inr (inl refl)) (
        kept b'2' (
          kept b'5' (
            kept b'4' (
              put b')' (inr (inr (inl refl))) (
                put 32 (inl refl) (
                  kept b'7' (
                    kept b'1' (
                      kept b'2' (
                        put b'.' (inr (inr (inr (inr refl)))) (
                          kept b'3' (
                            kept b'4' (
                              kept b'5' (
                                put b'-' (inr (inr (inr (inl refl))))
                                  (kept b'6' (kept b'7' (kept b'8' done))))))))))))))))))

try_normalize_msisdn-same_example :
    try_normalize_msisdn (codes " +(254) 712.345-678") ≡ accepted (codes "254712345678")
try_normalize_msisdn-same_example =
    try_normalize_msisdn-same plus (codes "712345678") (codes " +(254) 712.345-678") subscriber
      spaced

abbrev context : SodContext
context = record {
  actor_user_id = codes "u2";
  actor_level = l2;
  participants = record {
    created_by_user_id = codes "u1";
    edited_by_user_ids = codes "u1" ∷ codes "u4" ∷ [];
    approved_by_user_id = none;
    submitted_by_user_id = some (codes "u1");
  };
}

assert_not_self_authorization_iff_example : assert_not_self_authorization context ≡ ok tt
assert_not_self_authorization_iff_example =
    (assert_not_self_authorization_iff context).1
      (ground arith, (ground arith, (ground arith, tt)), ground arith)

abbrev release : PolicyEvaluationInput
release = record {
  policy = default_policy;
  instruction_count = 3;
  total_amount_cents = 600000000;
  max_instruction_amount_cents = 20000000;
  risk = record {
    score = 10;
    band = Policy.low;
    signal_count = 1;
    requires_acknowledgement = false;
  };
  dispositioned_finding_count = 0;
  disbursed_today_cents = 0;
}

assert_release_policy_iff_example :
    assert_release_policy release ≡ ok (evaluate_release_policy release)
assert_release_policy_iff_example =
    (assert_release_policy_iff release (evaluate_release_policy release)).1 (
      record {
        size = omega arith;
        instruction = omega arith;
        total = omega arith;
        today = inl refl;
        risk = inl (omega arith);
      },
      refl,
    )

abbrev payment : InstructionFingerprintInput
payment = record {
  organization_id = codes "o";
  batch_id = codes "b";
  instruction_id = codes "i";
  batch_version = 2;
  msisdn = codes "254712345678";
  amount_cents = int (pos 120000);
  manifest_hash = codes "ab";
}

payment-IsClean : Idempotency.Laws.IsCleanFingerprint payment
payment-IsClean = record {
  organization = ground arith;
  batch = ground arith;
  instruction = ground arith;
  msisdn = ground arith;
  amount = omega arith;
  manifest = ground arith;
}

instruction_fingerprint_inj_example : payment ≡ payment
instruction_fingerprint_inj_example =
    instruction_fingerprint_inj (λ s. s) (λ s t e. e) payment payment payment-IsClean
      payment-IsClean refl

read_field-escape_csv_field_example :
    (read_field (escape_csv_field (some (codes "=1,2"))) ≡ some (codes "'=1,2"))
    × (starts_formula (codes "'=1,2") ≡ false)
read_field-escape_csv_field_example = read_field-escape_csv_field (codes "=1,2")
