-- ===== src/Audit/Tamper.antt =====
-- Tamper-evidence of the audit log (packages/core/src/audit.ts): the last hash of a chain determines
-- what every event says.
use slvrn.Prelude.{◌≡◌, sym, ◌∙◌, List, [], ◌∷◌, All, arith, length, subst, true}
use slvrn.Prelude.Text.{Text}
use slvrn.Prelude.Join.{IsFree}
use slvrn.Manifest.{fs}
use slvrn.Audit.{AuditEvent, verify_chain, genesis_hash}
use slvrn.Audit.Chain.{IsChain, last_hash, verify_chain_iff}
use slvrn.Audit.Events.{IsCleanEvent, SameEvent, same_event}

-- Event by event, and of one length.
unfoldable pub SameLog : List AuditEvent → List AuditEvent → Type 0
SameLog [] [] = Unit
SameLog (a ∷ as') (b ∷ bs) = SameEvent a b × SameLog as' bs
SameLog _ _ = ⊥

-- The content of every event of the log is free of the separator.
abbrev pub IsCleanLog : List AuditEvent → Type 0
IsCleanLog = All (λ (e : AuditEvent). IsCleanEvent e.content)

module _ (hash : Text → Text) (no_collision : (s t : Text) → hash s ≡ hash t → s ≡ t)
    (hash-IsFree : (t : Text) → IsFree fs (hash t)) where
  same_log :
      (as' bs : List AuditEvent) (s t : Text)
      → IsFree fs s
      → IsFree fs t
      → IsCleanLog as'
      → IsCleanLog bs
      → IsChain hash s as'
      → IsChain hash t bs
      → length as' ≡ length bs
      → last_hash hash s as' ≡ last_hash hash t bs
      → (s ≡ t) × SameLog as' bs
  unfolding IsChain SameLog
  same_log [] [] s t fs' ft ca cb ha hb l e = (e, tt)
  same_log [] (b ∷ bs) s t fs' ft ca cb ha hb l e = absurd (omega arith)
  same_log (a ∷ as') [] s t fs' ft ca cb ha hb l e = absurd (omega arith)
  same_log (a ∷ as') (b ∷ bs) s t fs' ft (pa, ca) (pb, cb) (la, da, ha) (lb, db, hb) l e =
      let (heads, tails) =
        same_log as' bs a.event_hash b.event_hash (subst (IsFree fs) da (hash-IsFree _))
          (subst (IsFree fs) db (hash-IsFree _)) ca cb ha hb (omega arith) e in
      let (prev, same) =
        same_event a b pa pb (subst (IsFree fs) (sym la) fs') (subst (IsFree fs) (sym lb) ft)
          (no_collision _ _ (da ∙ heads ∙ sym db)) in
      (sym la ∙ prev ∙ lb, (same, tails))

  -- Two logs that both verify from the genesis hash, with as many events and the same last hash, say
  -- the same, event by event: an altered, replaced or reordered event changes the last hash or breaks
  -- the chain. The digest has no collisions and prints no separator, and the texts of the events are
  -- free of it; the four payloads need no such condition but that numbers print without it.
  pub verify_chain_tamper_evident :
      (as' bs : List AuditEvent)
      → IsCleanLog as'
      → IsCleanLog bs
      → (verify_chain hash as' genesis_hash).valid ≡ true
      → (verify_chain hash bs genesis_hash).valid ≡ true
      → length as' ≡ length bs
      → last_hash hash genesis_hash as' ≡ last_hash hash genesis_hash bs
      → SameLog as' bs
  verify_chain_tamper_evident as' bs ca cb ha hb l e =
      (same_log as' bs genesis_hash genesis_hash (ground arith) (ground arith) ca cb
        ((verify_chain_iff hash as' genesis_hash).0 ha)
        ((verify_chain_iff hash bs genesis_hash).0 hb) l e).1
