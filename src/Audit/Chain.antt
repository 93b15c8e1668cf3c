-- ===== src/Audit/Chain.antt =====
-- When a slice of the log verifies, and that the writer's log does (packages/core/src/audit.ts,
-- apps/api/src/db/audit-writer.ts).
use slvrn.Prelude.{
  ℕ, zero, suc, ◌+◌, ◌≤◌, ◌≡◌, refl, sym, ap, ◌∙◌, ◌↔◌, true, List, [], ◌∷◌, ◌++◌, Option, none,
  some, arith,
}
use slvrn.Prelude.Text.{Text, text_eq_iff}
use slvrn.Audit.{
  AuditEvent, AuditEventInput, genesis_hash, recompute, verify_from, verify_chain, next_event,
  tail_of, write_audit_event,
}

module _ (hash : Text → Text) where
  -- Each event refers to the hash of the one before it and hashes to its own digest.
  unfoldable pub IsChain : Text → List AuditEvent → Type 0
  IsChain start [] = Unit
  IsChain start (e ∷ es) =
      (e.previous_hash ≡ start) × (recompute hash e ≡ e.event_hash) × IsChain e.event_hash es

  verify_from_iff :
      (events : List AuditEvent) (start : Text) (i : ℕ)
      → ((verify_from hash events start i).valid ≡ true) ↔ IsChain start events
  unfolding verify_from IsChain
  verify_from_iff [] start i = (λ _. tt, λ _. refl)
  verify_from_iff (e ∷ es) start i = ground (
    arith,
    text_eq_iff e.previous_hash start,
    text_eq_iff (recompute hash e) e.event_hash,
    verify_from_iff es e.event_hash (suc i),
  )

  -- A slice verifies exactly if it is a chain from the expected hash.
  pub verify_chain_iff :
      (events : List AuditEvent) (start : Text)
      → ((verify_chain hash events start).valid ≡ true) ↔ IsChain start events
  unfolding verify_chain
  verify_chain_iff events start = verify_from_iff events start 0

  -- The hash that the event after the slice has to refer to.
  abbrev pub last_hash : Text → List AuditEvent → Text
  last_hash start [] = start
  last_hash start (e ∷ es) = last_hash e.event_hash es

  abbrev pub hash_of : Option AuditEvent → Text
  hash_of none = genesis_hash
  hash_of (some e) = e.event_hash

  last_hash-tail :
      (start : Text) (e : AuditEvent) (es : List AuditEvent)
      → last_hash start (e ∷ es) ≡ hash_of (tail_of (e ∷ es))
  last_hash-tail start e [] = refl
  last_hash-tail start e (f ∷ es) = last_hash-tail e.event_hash f es

  last_hash-tail_of : (log : List AuditEvent) → last_hash genesis_hash log ≡ hash_of (tail_of log)
  last_hash-tail_of [] = refl
  last_hash-tail_of (e ∷ es) = last_hash-tail genesis_hash e es

  IsChain-append :
      (start : Text) (es : List AuditEvent) (e : AuditEvent)
      → IsChain start es
      → e.previous_hash ≡ last_hash start es
      → recompute hash e ≡ e.event_hash
      → IsChain start (es ++ e ∷ [])
  unfolding IsChain
  IsChain-append start [] e h p q = (p, q, tt)
  IsChain-append start (f ∷ es) e (a, b, h) p q = (a, b, IsChain-append f.event_hash es e h p q)

  next_event-links :
      (tail : Option AuditEvent) (input : AuditEventInput)
      → ((next_event hash tail input).previous_hash ≡ hash_of tail)
        × (recompute hash (next_event hash tail input) ≡ (next_event hash tail input).event_hash)
  next_event-links none input = (refl, refl)
  next_event-links (some t) input = (refl, refl)

  -- Writing to a log that verifies from the genesis hash leaves one that does.
  pub write_audit_event-IsChain :
      (log : List AuditEvent) (input : AuditEventInput)
      → (verify_chain hash log genesis_hash).valid ≡ true
      → (verify_chain hash (write_audit_event hash log input) genesis_hash).valid ≡ true
  unfolding write_audit_event
  write_audit_event-IsChain log input h =
      let (links, digest) = next_event-links (tail_of log) input in
      (verify_chain_iff _ genesis_hash).1 (
        IsChain-append genesis_hash log _ ((verify_chain_iff log genesis_hash).0 h)
          (links ∙ sym (last_hash-tail_of log)) digest)

  unfoldable pub first : ℕ → List AuditEvent → List AuditEvent
  first zero es = []
  first (suc n) [] = []
  first (suc n) (e ∷ es) = e ∷ first n es

  verify_from-later :
      (events : List AuditEvent) (start : Text) (i j : ℕ)
      → (verify_from hash events start i).broken_at_index ≡ some j
      → i ≤ j
  unfolding verify_from
  verify_from-later [] start i j h = cc
  verify_from-later (e ∷ es) start i j h =
      ground (arith, verify_from-later es e.event_hash (suc i) j)

  verify_from-breaks :
      (events : List AuditEvent) (start : Text) (i k : ℕ)
      → (verify_from hash events start i).broken_at_index ≡ some (i + k)
      → IsChain start (first k events) × ¬ IsChain start (first (suc k) events)
  unfolding verify_from IsChain first
  verify_from-breaks [] start i k h = cc
  verify_from-breaks (e ∷ es) start i zero h = ground (
    arith,
    text_eq_iff e.previous_hash start,
    text_eq_iff (recompute hash e) e.event_hash,
    verify_from-later es e.event_hash (suc i) i,
  )
  verify_from-breaks (e ∷ es) start i (suc k) h = ground (
    arith,
    text_eq_iff e.previous_hash start,
    text_eq_iff (recompute hash e) e.event_hash,
    verify_from-breaks es e.event_hash (suc i) k,
  )

  -- The index that is reported is the first break: the events before it are a chain, and with the
  -- event at the index they are none.
  pub verify_chain-first_break :
      (events : List AuditEvent) (start : Text) (i : ℕ)
      → (verify_chain hash events start).broken_at_index ≡ some i
      → IsChain start (first i events) × ¬ IsChain start (first (suc i) events)
  unfolding verify_chain
  verify_chain-first_break events start i h =
      verify_from-breaks events start 0 i (h ∙ ap some (omega arith))
