-- ===== src/Execution/Store.antt =====
-- The rows that the workers of apps/api/src/queues read and write, for one batch: those of the tables
-- payment_batches, payment_instructions, transactions, idempotency_claims, reconciliation_cases and
-- provider_callbacks (db/migrations/0002_payments.sql). Instants are left out, as are the texts for the
-- screen; the audit log is kept as its actions.
use slvrn.Prelude.{
  ℕ, zero, suc, ◌-◌, leb, map, Bool, true, false, ◌&&◌, ◌||◌, List, [], ◌∷◌, ◌++◌, Option, none,
  some, if◌then◌else◌,
}
use slvrn.Prelude.Text.{Text, codes, text_eq}
use slvrn.Prelude.Number.{ℤ}
use slvrn.Batch.{BatchState}
use slvrn.Txn.{TxnState, TxnStatusSource}
use slvrn.Idempotency.{IdempotencyState}
use slvrn.Daraja.{ResultCallback}

-- `status` repeats the status of the instruction's transaction.
pub record Instruction : Type 0 where
  pub id : Text
  pub amount_cents : ℕ
  pub msisdn_snapshot : Text
  pub status : TxnState

pub record Transaction : Type 0 where
  pub id : Text
  pub instruction_id : Text
  pub batch_id : Text
  pub status : TxnState
  pub originator_conversation_id : Text
  pub conversation_id : Option Text
  pub mpesa_receipt_number : Option Text
  pub failure_code : Option Text
  pub status_source : TxnStatusSource

pub record Claim : Type 0 where
  pub fingerprint : Text
  pub instruction_id : Text
  pub state : IdempotencyState
  pub originator_conversation_id : Option Text

pub data CaseState : Type 0 where
  opened querying resolved_success resolved_failed resolved_manual escalated : CaseState

pub record Case : Type 0 where
  pub transaction_id : Text
  pub reference : Text
  pub state : CaseState
  pub discrepancy : Bool
  pub query_attempts : ℕ

pub data ProcessingOutcome : Type 0 where
  unmatched duplicate ignored_settled applied : ProcessingOutcome

pub data CallbackType : Type 0 where
  b2c_result b2c_timeout transaction_status account_balance : CallbackType

-- `processing_outcome` is written together with `processed_at`.
pub record ProviderCallback : Type 0 where
  pub id : Text
  pub callback_type : CallbackType
  pub raw_payload : ResultCallback
  pub processing_outcome : Option ProcessingOutcome

-- `balances` are account_balance_snapshots: an account and what is available on it.
pub record Store : Type 0 where
  pub id : Text
  pub organization_id : Text
  pub state : BatchState
  pub version : ℕ
  pub instructions : List Instruction
  pub transactions : List Transaction
  pub claims : List Claim
  pub cases : List Case
  pub callbacks : List ProviderCallback
  pub balances : List (Text × ℤ)
  pub audit : List Text

-- `SELECT … WHERE p LIMIT 1`: the first row.
abbrev pub find {ℓ} : {A : Type ℓ} → (A → Bool) → List A → Option A
find p [] = none
find p (x ∷ xs) = if p x then some x else find p xs

-- `UPDATE … SET f WHERE p`.
abbrev pub update {ℓ} : {A : Type ℓ} → (A → Bool) → (A → A) → List A → List A
update p f [] = []
update p f (x ∷ xs) = let rest = update p f xs in if p x then f x ∷ rest else x ∷ rest

abbrev pub any {ℓ} : {A : Type ℓ} → (A → Bool) → List A → Bool
any p [] = false
any p (x ∷ xs) = p x || any p xs

-- `ORDER BY created_at DESC LIMIT 1`: rows stand in the order of their creation.
abbrev pub find_last {ℓ} : {A : Type ℓ} → (A → Bool) → List A → Option A
find_last p [] = none
find_last p (x ∷ xs) = elim (find_last p xs) [
  | none ↦ if p x then some x else none
  | some later ↦ some later
]

abbrev pub of_instruction : Text → Transaction → Bool
of_instruction id t = text_eq t.instruction_id id

abbrev pub claim_for : Text → List Claim → Option Claim
claim_for id = find (λ (c : Claim). text_eq c.instruction_id id)

abbrev pub update_claims : Text → (Claim → Claim) → List Claim → List Claim
update_claims id = update (λ (c : Claim). text_eq c.instruction_id id)

abbrev pub set_instruction : Text → TxnState → List Instruction → List Instruction
set_instruction id status =
    update (λ (i : Instruction). text_eq i.id id) (λ i. record i { status = status })

abbrev pub note : Text → Store → Store
note action s = record s { audit = s.audit ++ action ∷ [] }

abbrev pub close_callback : Text → ProcessingOutcome → Store → Store
close_callback id outcome s = record s {
  callbacks =
      update (λ (c : ProviderCallback). text_eq c.id id)
        (λ c. record c { processing_outcome = some outcome }) s.callbacks;
}

abbrev pub is_active_case : CaseState → Bool
is_active_case opened = true
is_active_case querying = true
is_active_case _ = false

-- The cases of a transaction that are open or being queried.
abbrev pub is_active_for : Text → Case → Bool
is_active_for id c = text_eq c.transaction_id id && is_active_case c.state

-- `id.slice(0, 8).toUpperCase()` of a UUID.
abbrev pub upper : ℕ → ℕ
upper c = if leb b'a' c && leb c b'z' then c - 32 else c

abbrev pub first_units : ℕ → Text → Text
first_units zero s = []
first_units (suc n) [] = []
first_units (suc n) (c ∷ s) = c ∷ first_units n s

abbrev pub case_reference : Text → Text
case_reference id = codes "REC-" ++ map upper (first_units 8 id)

abbrev pub conflicts : Case → Case → Bool
conflicts row other =
    text_eq row.reference other.reference
    || text_eq row.transaction_id other.transaction_id
      && is_active_case row.state
      && is_active_case other.state

-- `INSERT INTO reconciliation_cases … ON CONFLICT DO NOTHING`: references are unique, and a transaction
-- has at most one case that is open or being queried.
unfoldable pub insert_case : Case → List Case → List Case
insert_case row cases = if any (conflicts row) cases then cases else cases ++ row ∷ []

abbrev pub open_case : Text → Bool → Store → Store
open_case id discrepancy s = record s {
  cases =
      insert_case
        (record {
          transaction_id = id;
          reference = case_reference id;
          state = opened;
          discrepancy = discrepancy;
          query_attempts = 0;
        })
        s.cases;
}
