-- ===== src/Tests/Records.antt =====
-- The theorems on the manifest, the challenge, the audit log and redaction at concrete inputs.
use mathlib.Core.List.{Permᴰ}
use slvrn.Prelude.{ℕ, ◌+◌, ◌≡◌, refl, true, List, [], ◌∷◌, map, none, some, arith}
use slvrn.Prelude.Text.{Text, codes}
use slvrn.Prelude.Join.{IsFree, join}
use slvrn.Prelude.Number.{pos, int}
use slvrn.Errors.{ok}
use slvrn.Manifest.{
  ManifestInstruction, ManifestInput, fs, canonicalize_manifest, build_manifest, ChallengeInput,
  build_challenge, AuthorizationChallenge, ChallengeVerificationInput, verify_challenge_binding,
  challenge_fields,
}
use slvrn.Manifest.Canonical.{IsPayable, form, canonicalize_manifest_iff, canonicalize_of_perm}
use slvrn.Manifest.Build.{manifest_of, build_manifest_iff}
use slvrn.Manifest.Clean.{IsCleanInput}
use slvrn.Manifest.Tamper.{SamePayment, manifest_hash_binds}
use slvrn.Manifest.Binding.{
  verify_challenge_binding_iff, IsCleanChallenge, SameChallenge, challenge_hash_binds,
}
use slvrn.Json.{Json, null, string, object, field, no_fields}
use slvrn.Json.Laws.{HasCleanNumbers}
use slvrn.Redaction.{redact_for_audit}
use slvrn.Redaction.Laws.{HasNoSecret, redact_for_audit-HasNoSecret}
use slvrn.Audit.{
  AuditEventInput, AuditEvent, payment, success, genesis_hash, verify_chain, write_audit_event,
  redact_input,
}
use slvrn.Audit.Chain.{IsChain, verify_chain_iff, write_audit_event-IsChain}
use slvrn.Audit.Events.{IsCleanEvent}
use slvrn.Audit.Tamper.{IsCleanLog, SameLog, verify_chain_tamper_evident}

-- A stand-in for the digest with no collisions, which prints no separator.
abbrev shift : Text → Text
shift t = map (λ c. c + 32) t

shift_inj : (s t : Text) → shift s ≡ shift t → s ≡ t
shift_inj [] [] e = refl
shift_inj [] (b ∷ t) e = cc
shift_inj (a ∷ s) [] e = cc
shift_inj (a ∷ s) (b ∷ t) e =
    let head : a + 32 ≡ b + 32 = cc in
    let tail : shift s ≡ shift t = cc in
    let same : a ≡ b = omega arith in cc (same, shift_inj s t tail)

shift-IsFree : (t : Text) → IsFree fs (shift t)
shift-IsFree [] = tt
shift-IsFree (c ∷ t) = (omega arith, shift-IsFree t)

abbrev instruction : Text → ℕ → ManifestInstruction
instruction id cents = record {
  instruction_id = id;
  recipient_id = codes "r";
  msisdn = codes "254712345678";
  amount_cents = int (pos cents);
}

abbrev first_paid : ManifestInstruction
first_paid = instruction (codes "i1") 120000

abbrev second_paid : ManifestInstruction
second_paid = instruction (codes "i2") 5000

abbrev batch : ManifestInput
batch = record {
  organization_id = codes "o";
  batch_id = codes "b";
  batch_reference = codes "PB-1";
  batch_version = 2;
  approval_id = codes "a";
  approved_batch_version = 2;
  instructions = second_paid ∷ first_paid ∷ [];
}

batch-IsPayable : IsPayable batch
batch-IsPayable = record {
  nonempty = ground arith;
  approved = refl;
  distinct = ((ground arith, tt), (tt, tt));
  paid = (omega arith, (omega arith, tt));
  total = omega arith;
}

batch-IsClean : IsCleanInput batch
batch-IsClean = record {
  organization = ground arith;
  batch = ground arith;
  reference = ground arith;
  approval = ground arith;
  instructions = (ground arith, (ground arith, tt));
}

canonicalize_manifest_iff_example : canonicalize_manifest batch ≡ ok (form batch)
canonicalize_manifest_iff_example =
    (canonicalize_manifest_iff batch (form batch)).1 (batch-IsPayable, refl)

canonicalize_of_perm_example :
    canonicalize_manifest (record batch { instructions = first_paid ∷ second_paid ∷ [] })
    ≡ canonicalize_manifest batch
canonicalize_of_perm_example =
    canonicalize_of_perm batch (first_paid ∷ second_paid ∷ []) batch-IsPayable.distinct
      (Permᴰ.swap refl refl)

build_manifest_iff_example : build_manifest shift batch ≡ ok (manifest_of shift batch)
build_manifest_iff_example =
    (build_manifest_iff shift batch (manifest_of shift batch)).1 (batch-IsPayable, refl)

manifest_hash_binds_example : SamePayment batch batch
manifest_hash_binds_example =
    manifest_hash_binds shift shift_inj batch batch (manifest_of shift batch)
      (manifest_of shift batch) batch-IsClean batch-IsClean build_manifest_iff_example
      build_manifest_iff_example refl

abbrev challenge_input : ChallengeInput
challenge_input = record {
  manifest = manifest_of shift batch;
  nonce = codes "0123456789abcdef";
  expires_at = 300000;
  authorizer_user_id = codes "u3";
}

challenge_input-IsClean : IsCleanChallenge challenge_input
challenge_input-IsClean = record {
  organization = ground arith;
  batch = ground arith;
  approval = ground arith;
  manifest = shift-IsFree (form batch);
  user = ground arith;
  nonce = ground arith;
}

abbrev challenge : AuthorizationChallenge
challenge = record {
  challenge_hash = shift (join fs (challenge_fields challenge_input));
  manifest_hash = shift (form batch);
  nonce = codes "0123456789abcdef";
  expires_at = 300000;
  authorizer_user_id = codes "u3";
  batch_id = codes "b";
  display_batch_reference = codes "PB-1";
  display_recipient_count = 2;
  display_total_amount_cents = pos 125000;
  display_approval_id = codes "a";
}

challenge_built : build_challenge shift challenge_input ≡ ok challenge
unfolding build_challenge
challenge_built = refl

challenge_hash_binds_example : SameChallenge challenge_input challenge_input
challenge_hash_binds_example =
    challenge_hash_binds shift shift_inj challenge_input challenge_input challenge challenge
      challenge_input-IsClean challenge_input-IsClean challenge_built challenge_built refl

abbrev presented : ChallengeVerificationInput
presented = record {
  stored = challenge;
  consumed_at = none;
  current = manifest_of shift batch;
  presenting_user_id = codes "u3";
  now = 200000;
}

verify_challenge_binding_iff_example : verify_challenge_binding presented ≡ ok tt
verify_challenge_binding_iff_example =
    (verify_challenge_binding_iff presented).1
      (record { unused = refl; fresh = omega arith; user = refl; batch = refl; manifest = refl })

abbrev event : AuditEventInput
event = record {
  event_id = codes "EVT-1";
  organization_id = codes "o";
  actor_id = codes "u3";
  actor_level = some (codes "L3");
  event_class = payment;
  action = codes "payment.release";
  object_type = codes "batch";
  object_id = some (codes "b");
  outcome = success;
  occurred_at = codes "2026-01-01T00:00:00.000Z";
  previous_state = null;
  new_state = string (codes "QUEUED");
  correlation_id = codes "c";
  security_context = field (codes "ip") (string (codes "10.0.0.1")) no_fields;
  detail = field (codes "apiKey") (string (codes "k")) no_fields;
}

abbrev log_of_one : List AuditEvent
log_of_one = write_audit_event shift [] event

one_verifies : (verify_chain shift log_of_one genesis_hash).valid ≡ true
unfolding IsChain
one_verifies = write_audit_event-IsChain shift [] event none_verifies
  where
    none_verifies : (verify_chain shift [] genesis_hash).valid ≡ true
    none_verifies = (verify_chain_iff shift [] genesis_hash).1 tt

write_audit_event-IsChain_example :
    (verify_chain shift (write_audit_event shift log_of_one event) genesis_hash).valid ≡ true
write_audit_event-IsChain_example = write_audit_event-IsChain shift log_of_one event one_verifies

verify_chain_iff_example : IsChain shift genesis_hash log_of_one
verify_chain_iff_example = (verify_chain_iff shift log_of_one genesis_hash).0 one_verifies

event-IsClean : IsCleanEvent (redact_input event)
unfolding redact_input HasCleanNumbers
event-IsClean = record {
  event_id = ground arith;
  organization = ground arith;
  actor = ground arith;
  level = ground arith;
  action = ground arith;
  object_type = ground arith;
  object_id = ground arith;
  occurred_at = ground arith;
  correlation = ground arith;
  previous_state = tt;
  new_state = tt;
  context = (tt, tt);
  detail = (tt, tt);
}

abbrev log_of_two : List AuditEvent
log_of_two = write_audit_event shift log_of_one event

two-IsClean : IsCleanLog log_of_two
unfolding write_audit_event
two-IsClean = (event-IsClean, (event-IsClean, tt))

verify_chain_tamper_evident_example : SameLog log_of_two log_of_two
verify_chain_tamper_evident_example =
    verify_chain_tamper_evident shift shift_inj shift-IsFree log_of_two log_of_two two-IsClean
      two-IsClean write_audit_event-IsChain_example write_audit_event-IsChain_example refl refl

abbrev nested : Json
nested = object (
    field (codes "user") (object (field (codes "Api-Key") (string (codes "k")) no_fields))
      no_fields)

redact_for_audit-HasNoSecret_example : HasNoSecret (redact_for_audit nested 0)
redact_for_audit-HasNoSecret_example = redact_for_audit-HasNoSecret nested 0
