-- ===== src/Money/Cleaning.antt =====
-- Amounts as text (packages/core/src/money.ts): what cleaning leaves of a formatted amount.
use mathlib.Core.Path.{ap₂}
use slvrn.Prelude.{
  ℕ, ◌≡◌, ◌≢◌, refl, ap, ◌∙◌, Bool, true, false, not, [], ◌∷◌, ◌++◌, arith, All, keep_if,
}
use slvrn.Prelude.Text.{Text, is_space, is_digit}
use slvrn.Prelude.Decimal.{AllDigits, All-append}
use slvrn.Prelude.Trim.{NoSpace, trim-NoSpace, keep_if-all, digit-NoSpace}
use slvrn.Money.{clean_amount, strip_kes, is_not_comma, is_not_space, span_digits, group_thousands}

keep_if-append : (p : ℕ → Bool) (s t : Text) → keep_if p (s ++ t) ≡ keep_if p s ++ keep_if p t
keep_if-append p [] t = refl
keep_if-append p (c ∷ s) t = ground (arith, keep_if-append p s t)

-- Without its commas a grouped number is the number.
ungroup : (ds : Text) → AllDigits ds → keep_if is_not_comma (group_thousands ds) ≡ ds
unfolding group_thousands is_digit
ungroup [] h = refl
ungroup (c ∷ s) (p, h) = ground (arith, ungroup s h)

comma-NoSpace : is_space b',' ≡ false
unfolding is_space
comma-NoSpace = refl

point-NoSpace : is_space b'.' ≡ false
unfolding is_space
point-NoSpace = refl

pub minus-NoSpace : is_space b'-' ≡ false
unfolding is_space
minus-NoSpace = refl

group-NoSpace : (ds : Text) → AllDigits ds → NoSpace (group_thousands ds)
unfolding group_thousands
group-NoSpace [] h = tt
group-NoSpace (c ∷ s) (p, h) = ground (arith, digit-NoSpace c p, comma-NoSpace, group-NoSpace s h)

strip_kes-other : (c : ℕ) (s : Text) → c ≢ b'K' → c ≢ b'k' → strip_kes (c ∷ s) ≡ c ∷ s
strip_kes-other c [] h k = refl
strip_kes-other c (d ∷ []) h k = refl
strip_kes-other c (d ∷ (e ∷ s)) h k = ground arith

pub clean_amount-start :
    (c : ℕ) (s : Text)
    → NoSpace (c ∷ s)
    → c ≢ b'K'
    → c ≢ b'k'
    → clean_amount (c ∷ s) ≡ keep_if is_not_space (keep_if is_not_comma (c ∷ s))
unfolding clean_amount
clean_amount-start c s h k l =
    ap (λ t. keep_if is_not_space (keep_if is_not_comma (strip_kes t))) (trim-NoSpace (c ∷ s) h)
    ∙ ap (λ t. keep_if is_not_space (keep_if is_not_comma t)) (strip_kes-other c s k l)

-- The point and the two digits after it.
abbrev pub tail : ℕ → ℕ → Text
tail d e = b'.' ∷ d ∷ e ∷ []

pub digit-kept : (d : ℕ) → is_digit d ≡ true → (is_not_comma d ≡ true) × (is_not_space d ≡ true)
unfolding is_digit
digit-kept d h = ground (arith, digit-NoSpace d)

digits-kept : (ds : Text) → AllDigits ds → All (λ c. is_not_space c ≡ true) ds
digits-kept [] h = tt
digits-kept (c ∷ s) (p, h) = ((digit-kept c p).1, digits-kept s h)

pub amount-kept :
    (ds : Text) (d e : ℕ)
    → AllDigits ds
    → is_digit d ≡ true
    → is_digit e ≡ true
    → keep_if is_not_space (keep_if is_not_comma (group_thousands ds ++ tail d e)) ≡ ds ++ tail d e
amount-kept ds d e h p q =
    ap (keep_if is_not_space) (
      keep_if-append is_not_comma (group_thousands ds) (tail d e)
      ∙ ap₂ ◌++◌ (ungroup ds h) (
          keep_if-all is_not_comma (tail d e)
            (refl, ((digit-kept d p).0, ((digit-kept e q).0, tt)))))
    ∙ keep_if-all is_not_space (ds ++ tail d e) (
        All-append _ ds (tail d e) (digits-kept ds h)
          (ap not point-NoSpace, ((digit-kept d p).1, ((digit-kept e q).1, tt))))

pub amount-NoSpace :
    (ds : Text) (d e : ℕ)
    → AllDigits ds
    → is_digit d ≡ true
    → is_digit e ≡ true
    → NoSpace (group_thousands ds ++ tail d e)
amount-NoSpace ds d e h p q =
    All-append _ (group_thousands ds) (tail d e) (group-NoSpace ds h)
      (point-NoSpace, (digit-NoSpace d p, (digit-NoSpace e q, tt)))

pub span_digits-append :
    (ds rest : Text) → AllDigits ds → span_digits (ds ++ b'.' ∷ rest) ≡ (ds, b'.' ∷ rest)
unfolding span_digits is_digit
span_digits-append [] rest h = refl
span_digits-append (c ∷ s) rest (p, h) = ground (arith, span_digits-append s rest h)
