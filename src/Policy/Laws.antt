-- ===== src/Policy/Laws.antt =====
-- What a release under the policy guarantees (packages/core/src/policy.ts).
use slvrn.Prelude.{
  ◌+◌, ◌≤◌, ◌<◌, ◌≡◌, refl, ◌↔◌, ◌⊎◌, Bool, true, false, [], arith, sym, ap, not, if◌then◌else◌,
  contains,
}
use slvrn.Errors.{ok, ok_inj, throw, policy_error, policy_violation}
use slvrn.Policy.{
  PolicyEvaluationInput, PolicyEvaluation, Violation, violates, push_if, evaluate_release_policy,
  assert_release_policy, band_rank, block_rank, high_value, risk_scored, needs_high_value,
  policy_batch_size, policy_instruction_limit, policy_batch_total, policy_daily_ceiling,
  policy_risk_block, is_nil, Violation-discrete, Acknowledgement-discrete,
}

-- What the policy asks of a release.
pub record IsWithin (input : PolicyEvaluationInput) : Type 0 where
  pub size : input.instruction_count ≤ input.policy.max_batch_instructions
  pub instruction : input.max_instruction_amount_cents ≤ input.policy.max_instruction_amount_cents
  pub total : input.total_amount_cents ≤ input.policy.max_batch_total_cents
  pub today :
      (input.policy.daily_disbursement_ceiling_cents ≡ 0)
      ⊎ (input.disbursed_today_cents + input.total_amount_cents
          ≤ input.policy.daily_disbursement_ceiling_cents)
  pub risk :
      (band_rank input.risk.band < block_rank input.policy.blocking_risk_band)
      ⊎ (input.risk.signal_count ≤ input.dispositioned_finding_count)

five_clear :
    (a b c d e : Bool)
    → (is_nil (
          push_if a policy_batch_size (
            push_if b policy_instruction_limit (
              push_if c policy_batch_total
                (push_if d policy_daily_ceiling (push_if e policy_risk_block [])))))
        ≡ true)
      ↔ ((a ≡ false) × (b ≡ false) × (c ≡ false) × (d ≡ false) × (e ≡ false))
five_clear a b c d e = ground arith

none_violated_iff :
    (input : PolicyEvaluationInput)
    → ((violates input policy_batch_size ≡ false)
        × (violates input policy_instruction_limit ≡ false)
        × (violates input policy_batch_total ≡ false)
        × (violates input policy_daily_ceiling ≡ false)
        × (violates input policy_risk_block ≡ false))
      ↔ IsWithin input
unfolding violates
none_violated_iff input = (
  λ (a, b, c, d, e). record {
    size = ground arith;
    instruction = ground arith;
    total = ground arith;
    today = ground arith;
    risk = ground arith;
  },
  λ w. (
    ground (arith, w.size),
    ground (arith, w.instruction),
    ground (arith, w.total),
    ground (arith, w.today),
    ground (arith, w.risk),
  ),
)

allowed_iff :
    (input : PolicyEvaluationInput)
    → ((evaluate_release_policy input).allowed ≡ true) ↔ IsWithin input
unfolding evaluate_release_policy
allowed_iff input =
    let (to, from) =
      five_clear (violates input policy_batch_size) (violates input policy_instruction_limit)
        (violates input policy_batch_total) (violates input policy_daily_ceiling)
        (violates input policy_risk_block) in
    (λ h. (none_violated_iff input).0 (to h), λ w. from ((none_violated_iff input).1 w))

gate_iff :
    (b : Bool) (r result : PolicyEvaluation)
    → ((if not b then throw (policy_error policy_violation) else ok r) ≡ ok result)
      ↔ ((b ≡ true) × (result ≡ r))
gate_iff true r result = (λ h. (refl, sym (ok_inj h)), λ (_, e). ap ok (sym e))
gate_iff false r result = (λ h. cc, λ (h, _). cc)

-- A release passes the policy exactly if it is within every limit; the result is the evaluation.
pub assert_release_policy_iff :
    (input : PolicyEvaluationInput) (result : PolicyEvaluation)
    → (assert_release_policy input ≡ ok result)
      ↔ (IsWithin input × (result ≡ evaluate_release_policy input))
unfolding assert_release_policy
assert_release_policy_iff input result =
    let (to, from) =
      gate_iff (evaluate_release_policy input).allowed (evaluate_release_policy input) result in
    (λ h. ((allowed_iff input).0 (to h).0, (to h).1), λ (w, e). from ((allowed_iff input).1 w, e))

-- The violations reported are exactly those whose limit is broken, and each of the two statements is
-- asked for exactly on its condition.
pub violations_iff :
    (input : PolicyEvaluationInput) (v : Violation)
    → (contains Violation-discrete v (evaluate_release_policy input).violations ≡ violates input v)
      × (contains Acknowledgement-discrete high_value
            (evaluate_release_policy input).acknowledgements_required
          ≡ needs_high_value input)
      × (contains Acknowledgement-discrete risk_scored
            (evaluate_release_policy input).acknowledgements_required
          ≡ input.risk.requires_acknowledgement)
unfolding evaluate_release_policy Violation-discrete Acknowledgement-discrete
violations_iff input policy_batch_size = ground arith
violations_iff input _ = ground arith
