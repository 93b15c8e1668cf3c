-- ===== src/Manifest/Binding.antt =====
-- The authorization challenge (packages/core/src/manifest.ts): when it still binds at release time,
-- and what its hash determines.
use slvrn.Prelude.{suc, ◌≤◌, ◌≡◌, sym, ap, ◌∙◌, ◌↔◌, none, All, arith}
use slvrn.Prelude.Text.{Text, text_eq_iff}
use slvrn.Prelude.Decimal.{decimal_inj}
use slvrn.Prelude.Join.{IsFree, join_inj}
use slvrn.Prelude.Number.{ℤ, pos, negsuc, int, number_text}
use slvrn.Errors.{ok, throw_if-eq-ok, ok_inj}
use slvrn.Manifest.{
  ChallengeInput, AuthorizationChallenge, ChallengeVerificationInput, build_challenge,
  verify_challenge_binding, challenge_fields, fs,
}
use slvrn.Manifest.Clean.{decimal-IsClean, version-IsClean, cons_inj}

-- A challenge that may be used: fresh, for this user, for this batch as it is now.
pub record Binds (input : ChallengeVerificationInput) : Type 0 where
  pub unused : input.consumed_at ≡ none
  pub fresh : input.now ≤ input.stored.expires_at
  pub user : input.stored.authorizer_user_id ≡ input.presenting_user_id
  pub batch : input.stored.batch_id ≡ input.current.batch_id
  pub manifest : input.stored.manifest_hash ≡ input.current.manifest_hash

-- The final gate opens exactly for a challenge that is unused, not expired, issued to the presenting
-- user, and for the batch and the manifest of this moment.
pub verify_challenge_binding_iff :
    (input : ChallengeVerificationInput) → (verify_challenge_binding input ≡ ok tt) ↔ Binds input
unfolding verify_challenge_binding
verify_challenge_binding_iff input = (
  λ h. ground (
    arith,
    text_eq_iff input.stored.authorizer_user_id input.presenting_user_id,
    text_eq_iff input.stored.batch_id input.current.batch_id,
    text_eq_iff input.stored.manifest_hash input.current.manifest_hash,
  ),
  λ b. ground (
    arith,
    text_eq_iff input.stored.authorizer_user_id input.presenting_user_id,
    text_eq_iff input.stored.batch_id input.current.batch_id,
    text_eq_iff input.stored.manifest_hash input.current.manifest_hash,
  ),
)

number_text-IsFree : (z : ℤ) → IsFree fs (number_text (int z))
unfolding number_text
number_text-IsFree (pos n) = (decimal-IsClean n).0
number_text-IsFree (negsuc n) = (omega arith, (decimal-IsClean (suc n)).0)

-- The texts of a challenge hold no unit separator.
pub record IsCleanChallenge (input : ChallengeInput) : Type 0 where
  pub organization : IsFree fs input.manifest.organization_id
  pub batch : IsFree fs input.manifest.batch_id
  pub approval : IsFree fs input.manifest.approval_id
  pub manifest : IsFree fs input.manifest.manifest_hash
  pub user : IsFree fs input.authorizer_user_id
  pub nonce : IsFree fs input.nonce

challenge_fields-IsFree :
    (input : ChallengeInput) → IsCleanChallenge input → All (IsFree fs) (challenge_fields input)
challenge_fields-IsFree input c = (
  version-IsClean.0,
  (
    c.organization,
    (
      c.batch,
      (
        number_text-IsFree input.manifest.total_amount_cents,
        (
          (decimal-IsClean input.manifest.recipient_count).0,
          (
            c.approval,
            (c.manifest, (c.user, (c.nonce, ((decimal-IsClean input.expires_at).0, tt)))),
          ),
        ),
      ),
    ),
  ),
)

-- What a challenge is for.
pub record SameChallenge (a b : ChallengeInput) : Type 0 where
  pub organization : a.manifest.organization_id ≡ b.manifest.organization_id
  pub batch : a.manifest.batch_id ≡ b.manifest.batch_id
  pub approval : a.manifest.approval_id ≡ b.manifest.approval_id
  pub manifest : a.manifest.manifest_hash ≡ b.manifest.manifest_hash
  pub user : a.authorizer_user_id ≡ b.authorizer_user_id
  pub nonce : a.nonce ≡ b.nonce
  pub expiry : a.expires_at ≡ b.expires_at

-- With a digest that has no collisions, one challenge hash stands for one organization, batch,
-- approval, manifest hash, authorizer, nonce and expiry.
pub challenge_hash_binds :
    (hash : Text → Text)
    → ((s t : Text) → hash s ≡ hash t → s ≡ t)
    → (a b : ChallengeInput) (x y : AuthorizationChallenge) → IsCleanChallenge a
    → IsCleanChallenge b
    → build_challenge hash a ≡ ok x
    → build_challenge hash b ≡ ok y
    → x.challenge_hash ≡ y.challenge_hash
    → SameChallenge a b
unfolding build_challenge
challenge_hash_binds hash no_collision a b x y ca cb ha hb e =
    let hash_of = λ (z : AuthorizationChallenge). z.challenge_hash in
    let (_, h1) = throw_if-eq-ok _ _ _ ha in
    let (_, h2) = throw_if-eq-ok _ _ _ hb in
    let payload = no_collision _ _ (ap hash_of (ok_inj h1) ∙ e ∙ sym (ap hash_of (ok_inj h2))) in
    let f0 =
      (cons_inj (
        join_inj fs _ _ _ _ (challenge_fields-IsFree a ca) (challenge_fields-IsFree b cb)
          payload)).1 in
    let f1 = (cons_inj f0).1 in
    let f2 = (cons_inj f1).1 in
    let f3 = (cons_inj f2).1 in
    let f4 = (cons_inj f3).1 in
    let f5 = (cons_inj f4).1 in
    let f6 = (cons_inj f5).1 in
    let f7 = (cons_inj f6).1 in
    let f8 = (cons_inj f7).1 in
    record {
      organization = (cons_inj f0).0;
      batch = (cons_inj f1).0;
      approval = (cons_inj f4).0;
      manifest = (cons_inj f5).0;
      user = (cons_inj f6).0;
      nonce = (cons_inj f7).0;
      expiry = decimal_inj a.expires_at b.expires_at (cons_inj f8).0;
    }
