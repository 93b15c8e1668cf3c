-- ===== src/Policy.antt =====
-- The organization's payment policy (packages/core/src/policy.ts): the gates that every release
-- attempt passes. Messages are left out; a violation is its code.
pub mod Laws
use slvrn.Prelude.{
  ℕ, ◌+◌, ◌-◌, ◌≡◌, Bool, true, false, not, ◌&&◌, ◌||◌, List, [], ◌∷◌, ◌++◌, if◌then◌else◌, ltb,
  leb, ◌==◌,
}
use slvrn.Errors.{Result, ok, throw, policy_error, policy_violation}
use slvrn.Money.{daraja_b2c_max_cents}

pub data BlockingRiskBand : Type 0 where
  never high critical : BlockingRiskBand

pub record OrganizationPolicy : Type 0 where
  pub max_instruction_amount_cents : ℕ
  pub max_batch_total_cents : ℕ
  pub max_batch_instructions : ℕ
  pub high_value_threshold_cents : ℕ
  pub cooling_off_seconds : ℕ
  pub blocking_risk_band : BlockingRiskBand
  pub allow_l1_failed_export : Bool
  pub max_export_rows : ℕ
  pub daily_disbursement_ceiling_cents : ℕ

abbrev pub default_policy : OrganizationPolicy
default_policy = record {
  max_instruction_amount_cents = daraja_b2c_max_cents;
  max_batch_total_cents = 5000000000;
  max_batch_instructions = 5000;
  high_value_threshold_cents = 500000000;
  cooling_off_seconds = 300;
  blocking_risk_band = critical;
  allow_l1_failed_export = true;
  max_export_rows = 50000;
  daily_disbursement_ceiling_cents = 0;
}

-- The bounds of `policySchema`.
unfoldable pub is_valid_policy : OrganizationPolicy → Bool
is_valid_policy p =
    leb 1000 p.max_instruction_amount_cents
    && leb p.max_instruction_amount_cents daraja_b2c_max_cents
    && leb 1000 p.max_batch_total_cents
    && leb 1 p.max_batch_instructions
    && leb p.max_batch_instructions 20000
    && leb p.cooling_off_seconds 86400
    && leb 100 p.max_export_rows
    && leb p.max_export_rows 100000

pub data RiskBand : Type 0 where
  low elevated high critical : RiskBand

-- Of `signals` only the number is read here.
pub record RiskAssessment : Type 0 where
  pub score : ℕ
  pub band : RiskBand
  pub signal_count : ℕ
  pub requires_acknowledgement : Bool

pub record PolicyEvaluationInput : Type 0 where
  pub policy : OrganizationPolicy
  pub instruction_count : ℕ
  pub total_amount_cents : ℕ
  pub max_instruction_amount_cents : ℕ
  pub risk : RiskAssessment
  pub dispositioned_finding_count : ℕ
  pub disbursed_today_cents : ℕ

pub data Violation : Type 0 where
  policy_batch_size policy_instruction_limit policy_batch_total policy_daily_ceiling
        policy_risk_block :
      Violation

unfoldable pub Violation-discrete : Discrete Violation
Violation-discrete = hlevel

-- The two statements that the authorizer may have to confirm.
pub data Acknowledgement : Type 0 where
  high_value risk_scored : Acknowledgement

unfoldable pub Acknowledgement-discrete : Discrete Acknowledgement
Acknowledgement-discrete = hlevel

pub record PolicyEvaluation : Type 0 where
  pub allowed : Bool
  pub violations : List Violation
  pub acknowledgements_required : List Acknowledgement

abbrev pub band_rank : RiskBand → ℕ
band_rank low = 0
band_rank elevated = 1
band_rank high = 2
band_rank critical = 3

abbrev pub block_rank : BlockingRiskBand → ℕ
block_rank never = 99
block_rank high = 2
block_rank critical = 3

-- `if (test) list.push(x);`
abbrev pub push_if {ℓ} : {A : Type ℓ} → Bool → A → List A → List A
push_if true x rest = x ∷ rest
push_if false x rest = rest

-- The condition of each violation.
unfoldable pub violates : PolicyEvaluationInput → Violation → Bool
violates input policy_batch_size = ltb input.policy.max_batch_instructions input.instruction_count
violates input policy_instruction_limit =
    ltb input.policy.max_instruction_amount_cents input.max_instruction_amount_cents
violates input policy_batch_total = ltb input.policy.max_batch_total_cents input.total_amount_cents
violates input policy_daily_ceiling =
    ltb 0 input.policy.daily_disbursement_ceiling_cents
    && ltb input.policy.daily_disbursement_ceiling_cents
        (input.disbursed_today_cents + input.total_amount_cents)
violates input policy_risk_block =
    leb (block_rank input.policy.blocking_risk_band) (band_rank input.risk.band)
    && ltb input.dispositioned_finding_count input.risk.signal_count

unfoldable pub needs_high_value : PolicyEvaluationInput → Bool
needs_high_value input =
    leb input.policy.high_value_threshold_cents input.total_amount_cents
    && ltb 0 input.policy.high_value_threshold_cents

abbrev pub is_nil {ℓ} : {A : Type ℓ} → List A → Bool
is_nil [] = true
is_nil _ = false

unfoldable pub evaluate_release_policy : PolicyEvaluationInput → PolicyEvaluation
evaluate_release_policy input =
    let violations = push_if (violates input policy_batch_size) policy_batch_size (
      push_if (violates input policy_instruction_limit) policy_instruction_limit (
        push_if (violates input policy_batch_total) policy_batch_total (
          push_if (violates input policy_daily_ceiling) policy_daily_ceiling
            (push_if (violates input policy_risk_block) policy_risk_block [])))) in
    record {
      allowed = is_nil violations;
      violations = violations;
      acknowledgements_required =
          push_if (needs_high_value input) high_value
            (push_if input.risk.requires_acknowledgement risk_scored []);
    }

unfoldable pub assert_release_policy : PolicyEvaluationInput → Result PolicyEvaluation
assert_release_policy input =
    let result = evaluate_release_policy input in
    if not result.allowed then throw (policy_error policy_violation) else ok result
