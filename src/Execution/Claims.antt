-- ===== src/Execution/Claims.antt =====
-- Claims over time: a claim that was submitted or settled never becomes free again.
use slvrn.Prelude.{
  ◌≡◌, refl, ap, ◌∙◌, ◌⊎◌, inl, inr, true, false, List, [], ◌∷◌, some, Bool-cases, some_inj,
}
use slvrn.Prelude.Text.{Text, text_eq}
use slvrn.Idempotency.{IdempotencyState, submitted, settled}
use slvrn.Execution.Store.{Claim, claim_for, update_claims}

abbrev pub IsSent : IdempotencyState → Type 0
IsSent state = (state ≡ submitted) ⊎ (state ≡ settled)

-- The instruction has a claim; it has one under which a request may have been sent.
abbrev pub IsHeld : Text → List Claim → Type 0
IsHeld id claims = (c : Claim) × (claim_for id claims ≡ some c)

abbrev pub IsClosed : Text → List Claim → Type 0
IsClosed id claims = (c : Claim) × (claim_for id claims ≡ some c) × IsSent c.state

-- For every instruction, what is held stays so, and so does what is closed.
abbrev pub Advance : List Claim → List Claim → Type 0
Advance old new =
    (id : Text) → (IsHeld id old → IsHeld id new) × (IsClosed id old → IsClosed id new)

pub Advance-refl : (claims : List Claim) → Advance claims claims
Advance-refl claims id = (λ h. h, λ h. h)

pub Advance-trans : (a b c : List Claim) → Advance a b → Advance b c → Advance a c
Advance-trans a b c p q id = (λ h. (q id).0 ((p id).0 h), λ h. (q id).1 ((p id).1 h))

pub record Finishes (f : Claim → Claim) : Type 0 where
  pub instruction_id : (c : Claim) → (f c).instruction_id ≡ c.instruction_id
  pub sent : (c : Claim) → IsSent (f c).state

module _ (i : Text) (f : Claim → Claim) (finishes : Finishes f) where
  -- The update meets the claim that is found exactly if it is the instruction's own.
  claim_for-update :
      (id : Text) (claims : List Claim) (c : Claim)
      → claim_for id claims ≡ some c
      → (d : Claim) × (claim_for id (update_claims i f claims) ≡ some d)
        × ((d ≡ f c) ⊎ ((d ≡ c) × (text_eq c.instruction_id i ≡ false)))
  claim_for-update id [] c h = cc
  claim_for-update id (x ∷ xs) c h = elim (Bool-cases (text_eq x.instruction_id i)) [
    | inl own ↦ elim (Bool-cases (text_eq x.instruction_id id)) [
      | inl hit ↦
          let kept = ap (λ t. text_eq t id) (finishes.instruction_id x) ∙ hit in
          rw (own, kept) (f x, refl, inl (ap f (some_inj (rw hit at h))))
      | inr miss ↦
          let kept = ap (λ t. text_eq t id) (finishes.instruction_id x) ∙ miss in
          rw (own, kept) (claim_for-update id xs c (rw miss at h))
    ]
    | inr other ↦ elim (Bool-cases (text_eq x.instruction_id id)) [
      | inl hit ↦
          let e : x ≡ c = some_inj (rw hit at h) in
          rw (other, hit) (x, refl, inr (e, rw (← e) other))
      | inr miss ↦ rw (other, miss) (claim_for-update id xs c (rw miss at h))
    ]
  ]

  claim_for-own :
      (claims : List Claim) (c : Claim)
      → claim_for i claims ≡ some c
      → text_eq c.instruction_id i ≡ true
  claim_for-own [] c h = cc
  claim_for-own (x ∷ xs) c h = elim (Bool-cases (text_eq x.instruction_id i)) [
    | inl hit ↦ let e : x ≡ c = some_inj (rw hit at h) in rw (← e) hit
    | inr miss ↦ claim_for-own xs c (rw miss at h)
  ]

  pub update_claims-Advance : (claims : List Claim) → Advance claims (update_claims i f claims)
  update_claims-Advance claims id = (
    λ (c, e). let (d, found, how) = claim_for-update id claims c e in (d, found),
    λ (c, e, sent).
        let (d, found, how) = claim_for-update id claims c e in
        (d, found, elim how [ inl own ↦ rw own (finishes.sent c) | inr (same, _) ↦ rw same sent ]),
  )

  -- The instruction's own claim is closed by it.
  pub update_claims-IsClosed :
      (claims : List Claim) → IsHeld i claims → IsClosed i (update_claims i f claims)
  update_claims-IsClosed claims (c, e) =
      let (d, found, how) = claim_for-update i claims c e in
      (
        d,
        found,
        elim how [
          | inl own ↦ rw own (finishes.sent c)
          | inr (same, other) ↦ cc (other, claim_for-own claims c e)
        ],
      )
