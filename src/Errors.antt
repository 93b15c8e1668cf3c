-- ===== src/Errors.antt =====
-- Domain errors (packages/core/src/errors.ts): a thrown `SolvarenError` is the `err` of a result.
-- The stable machine codes are constructors; the messages and details are left out.
pub mod Returns
use slvrn.Prelude.{ℕ, ◌≡◌, refl, Bool, true, false, if◌then◌else◌}

pub data ErrorCategory : Type 0 where
  validation authentication authorization state policy conflict not_found rate_limit provider
        internal :
      ErrorCategory

abbrev pub status_by_category : ErrorCategory → ℕ
status_by_category validation = 422
status_by_category authentication = 401
status_by_category authorization = 403
status_by_category state = 409
status_by_category policy = 403
status_by_category conflict = 409
status_by_category not_found = 404
status_by_category rate_limit = 429
status_by_category provider = 502
status_by_category internal = 500

-- The codes that the modelled parts throw.
pub data Code : Type 0 where
  actor_not_active permission_denied cross_organization_denied : Code
  batch_transition_invalid batch_transition_system_only batch_transition_actor_required
        batch_transition_permission_denied :
      Code
  txn_already_settled txn_transition_invalid txn_success_requires_provider_evidence
        txn_success_requires_receipt txn_failure_requires_code :
      Code
  sod_self_approval sod_self_submission_approval sod_modifier_approval sod_self_authorization
        sod_modifier_authorization sod_approver_authorization sod_cooling_off
        sod_declared_conflict :
      Code
  amount_invalid amount_out_of_range amount_fractional msisdn_invalid : Code
  manifest_empty manifest_approval_stale manifest_duplicate_instruction manifest_amount_invalid :
      Code
  challenge_nonce_weak challenge_already_consumed challenge_expired challenge_actor_mismatch
        challenge_batch_mismatch manifest_changed :
      Code
  policy_violation : Code
  immutability_violation unique_violation : Code
  csv_too_large csv_empty csv_missing_columns csv_no_rows csv_too_many_rows : Code

pub record SolvarenError : Type 0 where
  pub category : ErrorCategory
  pub code : Code
  pub http_status : ℕ

abbrev pub solvaren_error : ErrorCategory → Code → SolvarenError
solvaren_error category code = record {
  category = category;
  code = code;
  http_status = status_by_category category;
}

abbrev pub validation_error : Code → SolvarenError
validation_error = solvaren_error validation

abbrev pub authorization_error : Code → SolvarenError
authorization_error = solvaren_error authorization

abbrev pub state_error : Code → SolvarenError
state_error = solvaren_error state

abbrev pub policy_error : Code → SolvarenError
policy_error = solvaren_error policy

-- What a function that may throw gives back.
pub data Result {ℓ} (Value : Type ℓ) : Type ℓ where
  err : SolvarenError → Result Value
  ok : Value → Result Value

abbrev pub throw {ℓ} : {Value : Type ℓ} → SolvarenError → Result Value
throw = err

-- `if (bad) throw e;`
abbrev pub throw_if : Bool → SolvarenError → Result (Unit {0})
throw_if bad e = if bad then err e else ok tt

infixl 5 ◌>>◌
module _ {ℓ κ} {Before : Type ℓ} {After : Type κ} where
  infixl 5 ◌>>=◌
  abbrev pub ◌>>=◌ : Result Before → (Before → Result After) → Result After
  err thrown >>= next = err thrown
  ok value >>= next = next value

  -- A chain that returns has passed its first step.
  pub >>=-eq-ok :
      (first : Result Before) (next : Before → Result After) {result : After}
      → (first >>= next) ≡ ok result
      → (value : Before) × (first ≡ ok value) × (next value ≡ ok result)
  >>=-eq-ok (err thrown) next h = cc
  >>=-eq-ok (ok value) next h = (value, refl, h)

abbrev pub ◌>>◌ {κ} : {After : Type κ} → Result (Unit {0}) → Result After → Result After
err thrown >> rest = err thrown
ok _ >> rest = rest

-- A chain goes on past a guard only if its test fails.
pub throw_if-eq-ok {ℓ} :
    {B : Type ℓ} (b : Bool) (e : SolvarenError) (k : Result B) {r : B}
    → (throw_if b e >> k) ≡ ok r
    → (b ≡ false) × (k ≡ ok r)
throw_if-eq-ok true e k h = cc
throw_if-eq-ok false e k h = (refl, h)

-- Past a step that returns nothing.
pub >>-eq-ok {ℓ} :
    {B : Type ℓ} (m : Result (Unit {0})) (k : Result B) {r : B}
    → (m >> k) ≡ ok r
    → (m ≡ ok tt) × (k ≡ ok r)
>>-eq-ok (ok tt) k h = (refl, h)
>>-eq-ok (err e) k h = cc

pub ok_inj {ℓ} : {A : Type ℓ} {a b : A} → ok a ≡ ok b → a ≡ b
ok_inj e = cc
