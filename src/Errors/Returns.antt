-- ===== src/Errors/Returns.antt =====
-- Statements about the value that a call returns, if it does.
use slvrn.Prelude.{◌≡◌, refl, ◌⊎◌, inl, inr}
use slvrn.Errors.{SolvarenError, Result, ok, err, ◌>>=◌}

-- What holds of a value that is returned.
abbrev pub Returns {ℓ κ} : {A : Type ℓ} → Result A → (A → Type κ) → Type κ
Returns (err e) P = Unit
Returns (ok a) P = P a

module _ {ℓ κ} {A : Type ℓ} {B : Type κ} where
  pub Returns->>= {μ ν} :
      (m : Result A) (f : A → Result B) (Q : A → Type μ) (P : B → Type ν)
      → Returns m Q
      → ((a : A) → Q a → Returns (f a) P)
      → Returns (m >>= f) P
  Returns->>= (err e) f Q P h k = tt
  Returns->>= (ok a) f Q P h k = k a h

module _ {ℓ κ ν} {A : Type ℓ} (m : Result A) (P : A → Type κ) (Q : A → Type ν) where
  pub Returns-both : Returns m P → Returns m Q → Returns m (λ a. P a × Q a)
  Returns-both p q =
      elim m as (λ r. Returns r P → Returns r Q → Returns r (λ a. P a × Q a)) [
        | err e ↦ λ p q. tt
        | ok a ↦ λ p q. (p, q)
      ]
        p q

  pub Returns-map : Returns m P → ((a : A) → P a → Q a) → Returns m Q
  Returns-map p k =
      elim m as (λ r. Returns r P → Returns r Q) [ err e ↦ λ p. tt | ok a ↦ λ p. k a p ] p

pub Result-cases {ℓ} :
    {A : Type ℓ} (m : Result A) → ((e : SolvarenError) × (m ≡ err e)) ⊎ ((a : A) × (m ≡ ok a))
Result-cases (err e) = inl (e, refl)
Result-cases (ok a) = inr (a, refl)

pub Returns-any {ℓ} : {A : Type ℓ} (m : Result A) → Returns m (λ _. Unit {0})
Returns-any (err e) = tt
Returns-any (ok a) = tt
