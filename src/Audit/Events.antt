-- ===== src/Audit/Events.antt =====
-- What one sealed event determines (packages/core/src/audit.ts): its canonical form fixes every field.
use slvrn.Prelude.{ℕ, ◌≡◌, All, arith}
use slvrn.Prelude.Text.{Text}
use slvrn.Prelude.Decimal.{decimal_inj}
use slvrn.Prelude.Join.{join, IsFree, join_inj}
use slvrn.Manifest.{fs}
use slvrn.Manifest.Clean.{decimal-IsClean, cons_inj}
use slvrn.Json.{object, stable_stringify}
use slvrn.Json.Laws.{HasCleanNumbers, stable_stringify-IsFree}
use slvrn.Audit.{
  AuditEventInput, AuditEvent, audit_fields, or_empty, class_text, outcome_text, AuditOutcome,
  AuditEventClass,
}

-- What the source takes for granted of ids, names and instants: none holds the unit separator.
pub record IsCleanEvent (event : AuditEventInput) : Type 0 where
  pub event_id : IsFree fs event.event_id
  pub organization : IsFree fs event.organization_id
  pub actor : IsFree fs event.actor_id
  pub level : IsFree fs (or_empty event.actor_level)
  pub action : IsFree fs event.action
  pub object_type : IsFree fs event.object_type
  pub object_id : IsFree fs (or_empty event.object_id)
  pub occurred_at : IsFree fs event.occurred_at
  pub correlation : IsFree fs event.correlation_id
  pub previous_state : HasCleanNumbers event.previous_state
  pub new_state : HasCleanNumbers event.new_state
  pub context : HasCleanNumbers (object event.security_context)
  pub detail : HasCleanNumbers (object event.detail)

-- The two events say the same; an absent level or object and an empty one are one.
pub record SameEvent (a b : AuditEvent) : Type 0 where
  pub sequence : a.sequence ≡ b.sequence
  pub event_id : a.content.event_id ≡ b.content.event_id
  pub organization : a.content.organization_id ≡ b.content.organization_id
  pub actor : a.content.actor_id ≡ b.content.actor_id
  pub level : or_empty a.content.actor_level ≡ or_empty b.content.actor_level
  pub event_class : a.content.event_class ≡ b.content.event_class
  pub action : a.content.action ≡ b.content.action
  pub object_type : a.content.object_type ≡ b.content.object_type
  pub object_id : or_empty a.content.object_id ≡ or_empty b.content.object_id
  pub outcome : a.content.outcome ≡ b.content.outcome
  pub occurred_at : a.content.occurred_at ≡ b.content.occurred_at
  pub correlation : a.content.correlation_id ≡ b.content.correlation_id
  pub previous_state :
      stable_stringify a.content.previous_state ≡ stable_stringify b.content.previous_state
  pub new_state : stable_stringify a.content.new_state ≡ stable_stringify b.content.new_state
  pub context :
      stable_stringify (object a.content.security_context)
      ≡ stable_stringify (object b.content.security_context)
  pub detail :
      stable_stringify (object a.content.detail) ≡ stable_stringify (object b.content.detail)

class_text_inj : (a b : AuditEventClass) → class_text a ≡ class_text b → a ≡ b
class_text_inj a b e = ground arith

outcome_text_inj : (a b : AuditOutcome) → outcome_text a ≡ outcome_text b → a ≡ b
outcome_text_inj a b e = ground arith

class_text-IsFree : (c : AuditEventClass) → IsFree fs (class_text c)
class_text-IsFree c = ground arith

outcome_text-IsFree : (o : AuditOutcome) → IsFree fs (outcome_text o)
outcome_text-IsFree o = ground arith

audit_fields-IsFree :
    (event : AuditEventInput) (previous : Text) (n : ℕ)
    → IsCleanEvent event
    → IsFree fs previous
    → All (IsFree fs) (audit_fields event previous n)
audit_fields-IsFree event previous n c p = (
  ground arith,
  (
    (decimal-IsClean n).0,
    (
      p,
      (
        c.event_id,
        (
          c.organization,
          (
            c.actor,
            (
              c.level,
              (
                class_text-IsFree event.event_class,
                (
                  c.action,
                  (
                    c.object_type,
                    (
                      c.object_id,
                      (
                        outcome_text-IsFree event.outcome,
                        (
                          c.occurred_at,
                          (
                            c.correlation,
                            (
                              stable_stringify-IsFree event.previous_state c.previous_state,
                              (
                                stable_stringify-IsFree event.new_state c.new_state,
                                (
                                  stable_stringify-IsFree (object event.security_context) c.context,
                                  (stable_stringify-IsFree (object event.detail) c.detail, tt),
                                ),
                              ),
                            ),
                          ),
                        ),
                      ),
                    ),
                  ),
                ),
              ),
            ),
          ),
        ),
      ),
    ),
  ),
)

pub same_event :
    (a b : AuditEvent)
    → IsCleanEvent a.content
    → IsCleanEvent b.content
    → IsFree fs a.previous_hash
    → IsFree fs b.previous_hash
    → join fs (audit_fields a.content a.previous_hash a.sequence)
      ≡ join fs (audit_fields b.content b.previous_hash b.sequence)
    → (a.previous_hash ≡ b.previous_hash) × SameEvent a b
same_event a b ca cb pa pb e =
    let fields =
      join_inj fs _ _ _ _ (audit_fields-IsFree a.content a.previous_hash a.sequence ca pa)
        (audit_fields-IsFree b.content b.previous_hash b.sequence cb pb) e in
    let (n, f1) = cons_inj (cons_inj fields).1 in
    let (prev, f2) = cons_inj f1 in
    let (id, f3) = cons_inj f2 in
    let (org, f4) = cons_inj f3 in
    let (actor, f5) = cons_inj f4 in
    let (level, f6) = cons_inj f5 in
    let (class', f7) = cons_inj f6 in
    let (action, f8) = cons_inj f7 in
    let (otype, f9) = cons_inj f8 in
    let (oid, f10) = cons_inj f9 in
    let (outcome, f11) = cons_inj f10 in
    let (at', f12) = cons_inj f11 in
    let (corr, f13) = cons_inj f12 in
    let (before, f14) = cons_inj f13 in
    let (after, f15) = cons_inj f14 in
    let (context, f16) = cons_inj f15 in
    (
      prev,
      record {
        sequence = decimal_inj a.sequence b.sequence n;
        event_id = id;
        organization = org;
        actor = actor;
        level = level;
        event_class = class_text_inj a.content.event_class b.content.event_class class';
        action = action;
        object_type = otype;
        object_id = oid;
        outcome = outcome_text_inj a.content.outcome b.content.outcome outcome;
        occurred_at = at';
        correlation = corr;
        previous_state = before;
        new_state = after;
        context = context;
        detail = (cons_inj f16).0;
      },
    )
