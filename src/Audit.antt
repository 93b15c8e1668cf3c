-- ===== src/Audit.antt =====
-- The audit log (packages/core/src/audit.ts) and its writer (apps/api/src/db/audit-writer.ts): a hash
-- chain for each organization. `hash` is `sha256Hex`; instants and references are the caller's.
pub mod Chain
pub mod Events
pub mod Tamper
use slvrn.Prelude.{
  ℕ, suc, ◌+◌, ◌≡◌, Bool, true, false, List, [], ◌∷◌, ◌++◌, Option, none, some, if◌then◌else◌, not,
}
use slvrn.Prelude.Text.{Text, codes, text_eq}
use slvrn.Prelude.Decimal.{decimal}
use slvrn.Prelude.Join.{join}
use slvrn.Manifest.{fs}
use slvrn.Json.{null, undefined, Json, Fields, object, stable_stringify}
use slvrn.Redaction.{redact_for_audit, redact_fields}

abbrev pub audit_chain_version : Text
audit_chain_version = codes "SLV-AUDIT-1"

-- `'0'.repeat(64)`.
abbrev pub genesis_hash : Text
genesis_hash = codes "0000000000000000000000000000000000000000000000000000000000000000"

pub data AuditEventClass : Type 0 where
  identity authority payment integration data_export security backup administration :
      AuditEventClass

abbrev pub class_text : AuditEventClass → Text
class_text identity = codes "IDENTITY"
class_text authority = codes "AUTHORITY"
class_text payment = codes "PAYMENT"
class_text integration = codes "INTEGRATION"
class_text data_export = codes "DATA_EXPORT"
class_text security = codes "SECURITY"
class_text backup = codes "BACKUP"
class_text administration = codes "ADMINISTRATION"

pub data AuditOutcome : Type 0 where
  success denied failure : AuditOutcome

abbrev pub outcome_text : AuditOutcome → Text
outcome_text success = codes "SUCCESS"
outcome_text denied = codes "DENIED"
outcome_text failure = codes "FAILURE"

pub record AuditEventInput : Type 0 where
  pub event_id : Text
  pub organization_id : Text
  pub actor_id : Text
  pub actor_level : Option Text
  pub event_class : AuditEventClass
  pub action : Text
  pub object_type : Text
  pub object_id : Option Text
  pub outcome : AuditOutcome
  pub occurred_at : Text
  pub previous_state : Json
  pub new_state : Json
  pub correlation_id : Text
  pub security_context : Fields
  pub detail : Fields

-- The source's `AuditEvent` extends the input.
pub record AuditEvent : Type 0 where
  pub content : AuditEventInput
  pub previous_hash : Text
  pub event_hash : Text
  pub sequence : ℕ

-- `text ?? ''`.
abbrev pub or_empty : Option Text → Text
or_empty none = []
or_empty (some t) = t

abbrev pub audit_fields : AuditEventInput → Text → ℕ → List Text
audit_fields event previous_hash sequence =
    audit_chain_version
    ∷ decimal sequence
    ∷ previous_hash
    ∷ event.event_id
    ∷ event.organization_id
    ∷ event.actor_id
    ∷ or_empty event.actor_level
    ∷ class_text event.event_class
    ∷ event.action
    ∷ event.object_type
    ∷ or_empty event.object_id
    ∷ outcome_text event.outcome
    ∷ event.occurred_at
    ∷ event.correlation_id
    ∷ stable_stringify event.previous_state
    ∷ stable_stringify event.new_state
    ∷ stable_stringify (object event.security_context)
    ∷ stable_stringify (object event.detail)
    ∷ []

abbrev pub audit_canonical_form : AuditEventInput → Text → ℕ → Text
audit_canonical_form event previous_hash sequence =
    join fs (audit_fields event previous_hash sequence)

abbrev pub seal_audit_event : (Text → Text) → AuditEventInput → Text → ℕ → AuditEvent
seal_audit_event hash event previous_hash sequence = record {
  content = event;
  previous_hash = previous_hash;
  event_hash = hash (audit_canonical_form event previous_hash sequence);
  sequence = sequence;
}

-- The two reasons for a broken chain: an event that does not refer to the one before, and one that
-- does not hash to its digest.
pub data Break : Type 0 where
  unlinked altered : Break

pub record ChainVerification : Type 0 where
  pub valid : Bool
  pub broken_at_index : Option ℕ
  pub broken_event_id : Option Text
  pub reason : Option Break
  pub events_verified : ℕ

abbrev pub intact : ℕ → ChainVerification
intact count = record {
  valid = true;
  broken_at_index = none;
  broken_event_id = none;
  reason = none;
  events_verified = count;
}

abbrev pub broken : ℕ → AuditEvent → Break → ChainVerification
broken i event reason = record {
  valid = false;
  broken_at_index = some i;
  broken_event_id = some event.content.event_id;
  reason = some reason;
  events_verified = i;
}

abbrev pub recompute : (Text → Text) → AuditEvent → Text
recompute hash event = hash (audit_canonical_form event.content event.previous_hash event.sequence)

-- The loop of `verifyChain`, at index `i` after the event that hashes to `previous_hash`.
unfoldable pub verify_from : (Text → Text) → List AuditEvent → Text → ℕ → ChainVerification
verify_from hash [] previous_hash i = intact i
verify_from hash (event ∷ events) previous_hash i =
    let rest = verify_from hash events event.event_hash (suc i) in
    if not (text_eq event.previous_hash previous_hash)
    then broken i event unlinked
    else if not (text_eq (recompute hash event) event.event_hash)
    then broken i event altered
    else rest

unfoldable pub verify_chain : (Text → Text) → List AuditEvent → Text → ChainVerification
unfolding verify_from
verify_chain hash events expected_start_hash = verify_from hash events expected_start_hash 0

-- `value ?? null`.
abbrev pub or_null : Json → Json
or_null undefined = null
or_null value = value

-- What `writeAuditEvent` seals: the four payloads are redacted. `redactForAudit` of an object at depth 0
-- is the object of its redacted entries.
unfoldable pub redact_input : AuditEventInput → AuditEventInput
unfolding redact_for_audit
redact_input input = record {
  event_id = input.event_id;
  organization_id = input.organization_id;
  actor_id = input.actor_id;
  actor_level = input.actor_level;
  event_class = input.event_class;
  action = input.action;
  object_type = input.object_type;
  object_id = input.object_id;
  outcome = input.outcome;
  occurred_at = input.occurred_at;
  previous_state = redact_for_audit (or_null input.previous_state) 0;
  new_state = redact_for_audit (or_null input.new_state) 0;
  correlation_id = input.correlation_id;
  security_context = redact_fields input.security_context 1;
  detail = redact_fields input.detail 1;
}

-- The newest event of the organization's log, which is kept oldest first.
abbrev pub tail_of : List AuditEvent → Option AuditEvent
tail_of [] = none
tail_of (e ∷ []) = some e
tail_of (_ ∷ (e ∷ es)) = tail_of (e ∷ es)

abbrev pub next_event : (Text → Text) → Option AuditEvent → AuditEventInput → AuditEvent
next_event hash none input = seal_audit_event hash (redact_input input) genesis_hash 1
next_event hash (some tail) input =
    seal_audit_event hash (redact_input input) tail.event_hash (tail.sequence + 1)

-- `writeAuditEvent` on the log of one organization; the transaction makes it atomic.
unfoldable pub write_audit_event :
    (Text → Text) → List AuditEvent → AuditEventInput → List AuditEvent
unfolding redact_input
write_audit_event hash log input = log ++ next_event hash (tail_of log) input ∷ []
