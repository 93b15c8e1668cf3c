-- ===== src/Manifest/Clean.antt =====
-- Texts free of the two separators of the canonical form (packages/core/src/manifest.ts).
use slvrn.Prelude.{ℕ, zero, suc, ◌≡◌, refl, ap, ◌≢◌, ◌⊎◌, inl, inr, true, List, [], ◌∷◌, All, arith}
use slvrn.Prelude.Text.{Text, is_digit}
use slvrn.Prelude.Decimal.{decimal, decimal_inj, decimal-AllDigits, AllDigits}
use slvrn.Prelude.Join.{IsFree}
use slvrn.Prelude.Number.{pos, negsuc, Number, int, other, number_text}
use slvrn.Money.Totals.{IsAmount}
use slvrn.Manifest.{ManifestInstruction, ManifestInput, fs, rs, manifest_version}

-- Neither separator stands in the text.
abbrev pub IsClean : Text → Type 0
IsClean t = IsFree fs t × IsFree rs t

abbrev pub IsCleanInstruction : ManifestInstruction → Type 0
IsCleanInstruction i = IsClean i.instruction_id × IsClean i.recipient_id × IsClean i.msisdn

-- What the source takes for granted of ids, references and phone numbers.
pub record IsCleanInput (input : ManifestInput) : Type 0 where
  pub organization : IsClean input.organization_id
  pub batch : IsClean input.batch_id
  pub reference : IsClean input.batch_reference
  pub approval : IsClean input.approval_id
  pub instructions : All IsCleanInstruction input.instructions

pub cons_inj {ℓ} :
    {A : Type ℓ} {x y : A} {xs ys : List A}
    → ◌≡◌ {A = List A} (x ∷ xs) (y ∷ ys)
    → (x ≡ y) × (xs ≡ ys)
cons_inj e = (cc, cc)

digit-free : (sep c : ℕ) → (sep ≡ fs) ⊎ (sep ≡ rs) → is_digit c ≡ true → c ≢ sep
unfolding is_digit
digit-free sep c s h = ground arith

digits-free : (sep : ℕ) (t : Text) → (sep ≡ fs) ⊎ (sep ≡ rs) → AllDigits t → IsFree sep t
digits-free sep [] s h = tt
digits-free sep (c ∷ t) s (p, h) = (digit-free sep c s p, digits-free sep t s h)

pub decimal-IsClean : (n : ℕ) → IsClean (decimal n)
decimal-IsClean n = (
  digits-free fs (decimal n) (inl refl) (decimal-AllDigits n),
  digits-free rs (decimal n) (inr refl) (decimal-AllDigits n),
)

pub version-IsClean : IsClean manifest_version
version-IsClean = ground arith

pub amount-IsClean : (v : Number) → IsAmount v → IsClean (number_text v)
unfolding number_text
amount-IsClean (int (pos (suc n))) h = decimal-IsClean (suc n)
amount-IsClean (int (pos zero)) h = elim h [ ]
amount-IsClean (int (negsuc n)) h = elim h [ ]
amount-IsClean (other t) h = elim h [ ]

pub amount_inj : (v w : Number) → IsAmount v → IsAmount w → number_text v ≡ number_text w → v ≡ w
unfolding number_text
amount_inj (int (pos (suc m))) (int (pos (suc n))) h k e =
    ap (λ x. int (pos x)) (decimal_inj (suc m) (suc n) e)
amount_inj (int (pos zero)) w h k e = elim h [ ]
amount_inj (int (negsuc n)) w h k e = elim h [ ]
amount_inj (other t) w h k e = elim h [ ]
amount_inj v (int (pos zero)) h k e = elim k [ ]
amount_inj v (int (negsuc n)) h k e = elim k [ ]
amount_inj v (other t) h k e = elim k [ ]
