-- ===== src/Prelude/Trim.antt =====
-- What trimming and filtering leave alone: a text without white space, such as a row of digits.
use mathlib.Core.List.{[], ◌∷◌, ◌++◌, reverse, reverse-reverse, reverse-append, append-nil}
use mathlib.Core.List.Permᴰ
use mathlib.Core.Path.{◌≡◌, refl, sym, ap, ◌∙◌}
use mathlib.Core.Logic.{inl, inr}
use slvrn.Prelude.Tests.{Bool-cases}
use mathlib.Core.Bool.{Bool, true, false}
use Prim.Native.Nat.{ℕ}
use native.Mathlib.Omega.{arith}
use slvrn.Prelude.Lists.{All, keep_if}
use slvrn.Prelude.Text.{Text, trim, trim_start, is_space, is_digit}
use slvrn.Prelude.Decimal.{AllDigits}
use slvrn.Prelude.Sorting.{All-perm}

abbrev pub NoSpace : Text → Type 0
NoSpace = All (λ c. is_space c ≡ false)

trim_start-NoSpace : (t : Text) → NoSpace t → trim_start t ≡ t
unfolding trim_start
trim_start-NoSpace [] h = refl
trim_start-NoSpace (c ∷ t) (p, h) = rw p refl

pub trim-NoSpace : (t : Text) → NoSpace t → trim t ≡ t
unfolding trim
trim-NoSpace t h =
    ap (λ s. reverse (trim_start (reverse s))) (trim_start-NoSpace t h)
    ∙ ap reverse (trim_start-NoSpace (reverse t) (All-perm _ (Permᴰ.symm (Permᴰ.reverse t)) h))
    ∙ reverse-reverse t

pub keep_if-all : (p : ℕ → Bool) (t : Text) → All (λ c. p c ≡ true) t → keep_if p t ≡ t
keep_if-all p [] h = refl
keep_if-all p (c ∷ t) (q, h) = rw q (ap (λ s. c ∷ s) (keep_if-all p t h))

pub digit-NoSpace : (c : ℕ) → is_digit c ≡ true → is_space c ≡ false
unfolding is_digit is_space
digit-NoSpace c h = ground arith

pub digits-NoSpace : (ds : Text) → AllDigits ds → NoSpace ds
digits-NoSpace [] h = tt
digits-NoSpace (c ∷ s) (p, h) = (digit-NoSpace c p, digits-NoSpace s h)

keep_if-append : (p : ℕ → Bool) (s t : Text) → keep_if p (s ++ t) ≡ keep_if p s ++ keep_if p t
keep_if-append p [] t = refl
keep_if-append p (c ∷ s) t = elim (Bool-cases (p c)) [
  | inl hit ↦ rw hit (ap (λ r. c ∷ r) (keep_if-append p s t))
  | inr miss ↦ rw miss (keep_if-append p s t)
]

keep_if-reverse : (p : ℕ → Bool) (t : Text) → keep_if p (reverse t) ≡ reverse (keep_if p t)
keep_if-reverse p [] = refl
keep_if-reverse p (c ∷ t) =
    ap (keep_if p) (reverse-append (c ∷ []) t)
    ∙ keep_if-append p (reverse t) (c ∷ [])
    ∙ elim (Bool-cases (p c)) [
      | inl hit ↦ rw hit (
          ap (λ r. r ++ c ∷ []) (keep_if-reverse p t) ∙ sym (reverse-append (c ∷ []) (keep_if p t)))
      | inr miss ↦ rw miss (append-nil (keep_if p (reverse t)) ∙ keep_if-reverse p t)
    ]

-- A filter that drops white space does not see the trimming.
module _ (p : ℕ → Bool) (drops : (c : ℕ) → is_space c ≡ true → p c ≡ false) where
  trim_start-dropped : (t : Text) → keep_if p (trim_start t) ≡ keep_if p t
  unfolding trim_start
  trim_start-dropped [] = refl
  trim_start-dropped (c ∷ t) = elim (Bool-cases (is_space c)) [
    | inl space ↦ rw (space, drops c space) (trim_start-dropped t)
    | inr other ↦ rw other refl
  ]

  pub trim-dropped : (t : Text) → keep_if p (trim t) ≡ keep_if p t
  unfolding trim
  trim-dropped t =
      keep_if-reverse p (trim_start (reverse (trim_start t)))
      ∙ ap reverse (trim_start-dropped (reverse (trim_start t)) ∙ keep_if-reverse p (trim_start t))
      ∙ reverse-reverse (keep_if p (trim_start t))
      ∙ trim_start-dropped t
