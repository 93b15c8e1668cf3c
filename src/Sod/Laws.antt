-- ===== src/Sod/Laws.antt =====
-- Who may approve and who may authorize (packages/core/src/sod.ts).
use slvrn.Prelude.{
  ℕ, ◌+◌, ◌*◌, ◌≤◌, ◌≡◌, ◌≢◌, refl, ◌↔◌, ◌⊎◌, inl, inr, true, false, List, [], ◌∷◌, Option, none,
  some, some_inj, All, arith, Bool-cases, subst,
}
use slvrn.Prelude.Text.{Text, text_eq, text_eq_iff, text_in, is_text}
use slvrn.Errors.{ok, throw_if-eq-ok, policy_error, sod_declared_conflict}
use slvrn.Sod.{
  SodContext, assert_not_self_approval, assert_not_self_authorization, assert_cooling_off,
  recipient, department, organization, ConflictRegistration, is_hit, scope_in, mine,
  check_conflicts, assert_no_declared_conflict,
}

pub text_in_iff : (t : Text) (ts : List Text) → (text_in t ts ≡ false) ↔ All (λ s. t ≢ s) ts
unfolding text_in
text_in_iff t [] = (λ _. tt, λ _. refl)
text_in_iff t (s ∷ ts) = ground (arith, text_eq_iff t s, text_in_iff t ts)

is_text_iff : (o : Option Text) (t : Text) → (is_text o t ≡ false) ↔ (o ≢ some t)
is_text_iff none t = ground arith
is_text_iff (some s) t = ground (arith, text_eq_iff s t)

-- Approval is open exactly to those who neither created, nor submitted, nor edited the batch.
pub assert_not_self_approval_iff :
    (ctx : SodContext)
    → (assert_not_self_approval ctx ≡ ok tt) ↔ (
        (ctx.participants.created_by_user_id ≢ ctx.actor_user_id)
        × (ctx.participants.submitted_by_user_id ≢ some ctx.actor_user_id)
        × All (λ (editor : Text). ctx.actor_user_id ≢ editor) ctx.participants.edited_by_user_ids)
unfolding assert_not_self_approval
assert_not_self_approval_iff ctx = ground (
  arith,
  text_eq_iff ctx.participants.created_by_user_id ctx.actor_user_id,
  is_text_iff ctx.participants.submitted_by_user_id ctx.actor_user_id,
  text_in_iff ctx.actor_user_id ctx.participants.edited_by_user_ids,
)

-- Authorization is open exactly to those who neither created, nor edited, nor approved the batch.
pub assert_not_self_authorization_iff :
    (ctx : SodContext)
    → (assert_not_self_authorization ctx ≡ ok tt) ↔ (
        (ctx.participants.created_by_user_id ≢ ctx.actor_user_id)
        × All (λ (editor : Text). ctx.actor_user_id ≢ editor) ctx.participants.edited_by_user_ids
        × (ctx.participants.approved_by_user_id ≢ some ctx.actor_user_id))
unfolding assert_not_self_authorization
assert_not_self_authorization_iff ctx = ground (
  arith,
  text_eq_iff ctx.participants.created_by_user_id ctx.actor_user_id,
  is_text_iff ctx.participants.approved_by_user_id ctx.actor_user_id,
  text_in_iff ctx.actor_user_id ctx.participants.edited_by_user_ids,
)

-- Submission after an edit waits out the window; no edit, or a window of zero, never waits.
pub assert_cooling_off_iff :
    (edit : Option ℕ) (now seconds : ℕ)
    → (assert_cooling_off edit now seconds ≡ ok tt)
      ↔ ((last : ℕ) → edit ≡ some last → (seconds ≡ 0) ⊎ (last + seconds * 1000 ≤ now))
unfolding assert_cooling_off
assert_cooling_off_iff none now seconds = (λ _ last e. cc, λ _. refl)
assert_cooling_off_iff (some last) now seconds = (
  λ h other e. subst (λ l. (seconds ≡ 0) ⊎ (l + seconds * 1000 ≤ now)) (some_inj e) (waited h),
  λ f. passes (f last refl),
)
  where
    waited :
        assert_cooling_off (some last) now seconds ≡ ok tt
        → (seconds ≡ 0) ⊎ (last + seconds * 1000 ≤ now)
    waited h = ground arith

    passes :
        (seconds ≡ 0) ⊎ (last + seconds * 1000 ≤ now)
        → assert_cooling_off (some last) now seconds ≡ ok tt
    passes h = ground arith

-- What a registered conflict covers.
abbrev pub Covers : List Text → List Text → ConflictRegistration → Type 0
Covers recipient_ids department_ids c =
    (c.scope_type ≡ organization)
    ⊎ (((c.scope_type ≡ recipient) × (scope_in c.scope_id recipient_ids ≡ true))
        ⊎ ((c.scope_type ≡ department) × (scope_in c.scope_id department_ids ≡ true)))

is_hit_iff :
    (c : ConflictRegistration) (rs ds : List Text)
    → (is_hit c.scope_type c.scope_id rs ds ≡ true) ↔ Covers rs ds c
is_hit_iff c rs ds = ground arith

not_hit :
    (c : ConflictRegistration) (rs ds : List Text)
    → ¬ Covers rs ds c
    → is_hit c.scope_type c.scope_id rs ds ≡ false
not_hit c rs ds n = elim (Bool-cases (is_hit c.scope_type c.scope_id rs ds)) [
  | inl hit ↦ absurd (n ((is_hit_iff c rs ds).0 hit))
  | inr miss ↦ miss
]

-- The check passes exactly if no conflict that is registered for the actor covers the batch.
pub assert_no_declared_conflict_iff :
    (actor : Text) (conflicts : List ConflictRegistration) (rs ds : List Text)
    → (assert_no_declared_conflict actor conflicts rs ds ≡ ok tt)
      ↔ All (λ (c : ConflictRegistration). c.user_id ≡ actor → ¬ Covers rs ds c) conflicts
unfolding assert_no_declared_conflict mine check_conflicts
assert_no_declared_conflict_iff actor [] rs ds = (λ _. tt, λ _. refl)
assert_no_declared_conflict_iff actor (c ∷ cs) rs ds =
    let ih = assert_no_declared_conflict_iff actor cs rs ds in
    elim (Bool-cases (text_eq c.user_id actor)) [
      | inl same ↦ (
        λ h.
            let (clear, rest) =
              throw_if-eq-ok (is_hit c.scope_type c.scope_id rs ds)
                (policy_error sod_declared_conflict) (check_conflicts rs ds (mine actor cs))
                (rw same at h) in
            ((λ _ covers. cc (clear, (is_hit_iff c rs ds).1 covers)), ih.0 rest),
        λ (p, all).
            let clear = not_hit c rs ds (p ((text_eq_iff c.user_id actor).0 same)) in
            rw (same, clear) (ih.1 all),
      )
      | inr other ↦ (
        λ h. ((λ e. absurd (cc (other, (text_eq_iff c.user_id actor).1 e))), ih.0 (rw other at h)),
        λ (_, all). rw other (ih.1 all),
      )
    ]
