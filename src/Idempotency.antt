-- ===== src/Idempotency.antt =====
-- Idempotency of execution (packages/core/src/idempotency.ts): the fingerprint of an instruction, what
-- to do on an existing claim, and the check of a client's key.
pub mod Laws
use slvrn.Prelude.{
  ℕ, ◌≡◌, Bool, true, false, ◌&&◌, ◌||◌, List, [], ◌∷◌, Option, none, some, leb, ◌==◌, all, length,
  if◌then◌else◌,
}
use slvrn.Prelude.Text.{Text, codes, trim, is_empty, is_digit}
use slvrn.Prelude.Decimal.{decimal}
use slvrn.Prelude.Join.{join}
use slvrn.Prelude.Number.{Number, number_text}
use slvrn.Manifest.{fs}

pub record InstructionFingerprintInput : Type 0 where
  pub organization_id : Text
  pub batch_id : Text
  pub instruction_id : Text
  pub batch_version : ℕ
  pub msisdn : Text
  pub amount_cents : Number
  pub manifest_hash : Text

abbrev pub fingerprint_fields : InstructionFingerprintInput → List Text
fingerprint_fields input =
    codes "SLV-IDEM-1"
    ∷ input.organization_id
    ∷ input.batch_id
    ∷ decimal input.batch_version
    ∷ input.instruction_id
    ∷ input.msisdn
    ∷ number_text input.amount_cents
    ∷ input.manifest_hash
    ∷ []

-- `hash` is `sha256Hex`.
unfoldable pub instruction_fingerprint : (Text → Text) → InstructionFingerprintInput → Text
instruction_fingerprint hash input = hash (join fs (fingerprint_fields input))

pub data IdempotencyState : Type 0 where
  claimed submitted settled abandoned : IdempotencyState

pub record IdempotencyRecord : Type 0 where
  pub fingerprint : Text
  pub state : IdempotencyState
  pub originator_conversation_id : Option Text
  pub transaction_id : Option Text
  pub claimed_at : ℕ
  pub updated_at : ℕ

-- The decision's `action`; its reason is a text for the log.
pub data ClaimDecision : Type 0 where
  submit skip_already_settled reconcile_first : ClaimDecision

abbrev pub decide_state : IdempotencyState → ClaimDecision
decide_state claimed = submit
decide_state submitted = reconcile_first
decide_state settled = skip_already_settled
decide_state abandoned = submit

unfoldable pub decide_on_existing_claim : Option IdempotencyRecord → ClaimDecision
decide_on_existing_claim none = submit
decide_on_existing_claim (some record') = decide_state record'.state

-- `[A-Za-z0-9._:-]`.
unfoldable pub is_key_char : ℕ → Bool
is_key_char c =
    leb b'A' c && leb c b'Z'
    || leb b'a' c && leb c b'z'
    || leb b'0' c && leb c b'9'
    || c == b'.'
    || c == b'_'
    || c == b':'
    || c == b'-'

abbrev pub is_key_text : Text → Bool
is_key_text k = leb 16 (length k) && leb (length k) 255 && all is_key_char k

unfoldable pub is_valid_idempotency_key : Option Text → Bool
is_valid_idempotency_key none = false
is_valid_idempotency_key (some key) = if is_empty key then false else is_key_text (trim key)
