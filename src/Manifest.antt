-- ===== src/Manifest.antt =====
-- The transaction manifest and the authorization challenge (packages/core/src/manifest.ts). The
-- digest of the Web Crypto API, `sha256Hex`, is the parameter `hash`.
pub mod Canonical
pub mod Build
pub mod Clean
pub mod Tamper
pub mod Binding
use slvrn.Prelude.{
  ℕ, ◌*◌, Bool, true, false, not, ◌||◌, List, [], ◌∷◌, ◌++◌, map, Option, none, some, if◌then◌else◌,
  ltb, ◌==◌, length,
}
use slvrn.Prelude.Text.{Text, codes, text_eq, is_empty}
use slvrn.Prelude.Sorting.{sort}
use slvrn.Prelude.Decimal.{decimal}
use slvrn.Prelude.Join.{join}
use slvrn.Prelude.Number.{ℤ, Number, int, is_safe_integer, is_positive, number_text}
use slvrn.Money.{sum_cents}
use slvrn.Errors.{
  Result, ok, err, throw, ◌>>=◌, ◌>>◌, throw_if, validation_error, state_error, manifest_empty,
  manifest_approval_stale, manifest_duplicate_instruction, manifest_amount_invalid,
  challenge_nonce_weak, challenge_already_consumed, challenge_expired, challenge_actor_mismatch,
  challenge_batch_mismatch, manifest_changed,
}

abbrev pub manifest_version : Text
manifest_version = codes "SLV-MANIFEST-1"

-- The ASCII unit and record separators.
abbrev pub fs : ℕ
fs = 0x1f

abbrev pub rs : ℕ
rs = 0x1e

pub record ManifestInstruction : Type 0 where
  pub instruction_id : Text
  pub recipient_id : Text
  pub msisdn : Text
  pub amount_cents : Number

pub record ManifestInput : Type 0 where
  pub organization_id : Text
  pub batch_id : Text
  pub batch_reference : Text
  pub batch_version : ℕ
  pub approval_id : Text
  pub approved_batch_version : ℕ
  pub instructions : List ManifestInstruction

-- The id by which instructions are sorted.
abbrev pub id_of : ManifestInstruction → Text
id_of i = i.instruction_id

-- `[...instructions].sort(…)`.
abbrev pub sorted_instructions : List ManifestInstruction → List ManifestInstruction
sorted_instructions = sort id_of

unfoldable pub seen_before : Text → List Text → Bool
seen_before id [] = false
seen_before id (s ∷ seen) = text_eq id s || seen_before id seen

-- The loop over the sorted instructions, with the set of ids that it has seen.
unfoldable pub check_instructions : List Text → List ManifestInstruction → Result (Unit {0})
check_instructions seen [] = ok tt
check_instructions seen (i ∷ is) = do
  throw_if (seen_before i.instruction_id seen) (validation_error manifest_duplicate_instruction)
  throw_if (not (is_safe_integer i.amount_cents) || not (is_positive i.amount_cents))
      (validation_error manifest_amount_invalid)
  check_instructions (i.instruction_id ∷ seen) is

abbrev pub line : ManifestInstruction → Text
line i = join fs (i.instruction_id ∷ i.recipient_id ∷ i.msisdn ∷ number_text i.amount_cents ∷ [])

abbrev pub header_fields : ManifestInput → ℕ → ℤ → List Text
header_fields input count total =
    manifest_version
    ∷ input.organization_id
    ∷ input.batch_id
    ∷ input.batch_reference
    ∷ decimal input.batch_version
    ∷ input.approval_id
    ∷ decimal input.approved_batch_version
    ∷ decimal count
    ∷ number_text (int total)
    ∷ []

abbrev pub is_nil {ℓ} : {A : Type ℓ} → List A → Bool
is_nil [] = true
is_nil _ = false

unfoldable pub canonicalize_manifest : ManifestInput → Result Text
canonicalize_manifest input = do
  throw_if (is_nil input.instructions) (validation_error manifest_empty)
  throw_if (not (input.approved_batch_version == input.batch_version))
      (state_error manifest_approval_stale)
  let sorted = sorted_instructions input.instructions
  check_instructions [] sorted
  total ← sum_cents (map (λ (i : ManifestInstruction). i.amount_cents) sorted)
  ok (join fs (header_fields input (length sorted) total) ++ (rs ∷ join rs (map line sorted)))

pub record Manifest : Type 0 where
  pub version : Text
  pub organization_id : Text
  pub batch_id : Text
  pub batch_reference : Text
  pub batch_version : ℕ
  pub approval_id : Text
  pub approved_batch_version : ℕ
  pub recipient_count : ℕ
  pub total_amount_cents : ℤ
  pub manifest_hash : Text
  pub canonical_form : Text

unfoldable pub build_manifest : (Text → Text) → ManifestInput → Result Manifest
build_manifest hash input = do
  canonical_form ← canonicalize_manifest input
  total ← sum_cents (map (λ (i : ManifestInstruction). i.amount_cents) input.instructions)
  ok (record {
    version = manifest_version;
    organization_id = input.organization_id;
    batch_id = input.batch_id;
    batch_reference = input.batch_reference;
    batch_version = input.batch_version;
    approval_id = input.approval_id;
    approved_batch_version = input.approved_batch_version;
    recipient_count = length input.instructions;
    total_amount_cents = total;
    manifest_hash = hash canonical_form;
    canonical_form = canonical_form;
  })

-- `expiresAt` and `now` are epoch milliseconds.
pub record ChallengeInput : Type 0 where
  pub manifest : Manifest
  pub nonce : Text
  pub expires_at : ℕ
  pub authorizer_user_id : Text

-- The fields for the screen, `display`, repeat the manifest's.
pub record AuthorizationChallenge : Type 0 where
  pub challenge_hash : Text
  pub manifest_hash : Text
  pub nonce : Text
  pub expires_at : ℕ
  pub authorizer_user_id : Text
  pub batch_id : Text
  pub display_batch_reference : Text
  pub display_recipient_count : ℕ
  pub display_total_amount_cents : ℤ
  pub display_approval_id : Text

abbrev pub challenge_ttl_ms : ℕ
challenge_ttl_ms = 5 * 60 * 1000

abbrev pub challenge_fields : ChallengeInput → List Text
challenge_fields input =
    manifest_version
    ∷ input.manifest.organization_id
    ∷ input.manifest.batch_id
    ∷ number_text (int input.manifest.total_amount_cents)
    ∷ decimal input.manifest.recipient_count
    ∷ input.manifest.approval_id
    ∷ input.manifest.manifest_hash
    ∷ input.authorizer_user_id
    ∷ input.nonce
    ∷ decimal input.expires_at
    ∷ []

unfoldable pub build_challenge : (Text → Text) → ChallengeInput → Result AuthorizationChallenge
build_challenge hash input = do
  throw_if (ltb (length input.nonce) 16) (validation_error challenge_nonce_weak)
  ok (record {
    challenge_hash = hash (join fs (challenge_fields input));
    manifest_hash = input.manifest.manifest_hash;
    nonce = input.nonce;
    expires_at = input.expires_at;
    authorizer_user_id = input.authorizer_user_id;
    batch_id = input.manifest.batch_id;
    display_batch_reference = input.manifest.batch_reference;
    display_recipient_count = input.manifest.recipient_count;
    display_total_amount_cents = input.manifest.total_amount_cents;
    display_approval_id = input.manifest.approval_id;
  })

-- `stored` is the challenge with its `consumedAt`.
pub record ChallengeVerificationInput : Type 0 where
  pub stored : AuthorizationChallenge
  pub consumed_at : Option ℕ
  pub current : Manifest
  pub presenting_user_id : Text
  pub now : ℕ

abbrev pub is_set {ℓ} : {A : Type ℓ} → Option A → Bool
is_set none = false
is_set (some _) = true

unfoldable pub verify_challenge_binding : ChallengeVerificationInput → Result (Unit {0})
verify_challenge_binding input = do
  throw_if (is_set input.consumed_at) (state_error challenge_already_consumed)
  throw_if (ltb input.stored.expires_at input.now) (state_error challenge_expired)
  throw_if (not (text_eq input.stored.authorizer_user_id input.presenting_user_id))
      (state_error challenge_actor_mismatch)
  throw_if (not (text_eq input.stored.batch_id input.current.batch_id))
      (state_error challenge_batch_mismatch)
  throw_if (not (text_eq input.stored.manifest_hash input.current.manifest_hash))
      (state_error manifest_changed)
