-- ===== src/Money/RoundTrip.antt =====
-- Amounts as text (packages/core/src/money.ts): what is formatted parses back.
use mathlib.Core.Path.{ap₂}
use slvrn.Prelude.{
  subst, ◌&&◌, ℕ, suc, ◌+◌, ◌*◌, ◌/◌, ◌%◌, ◌<◌, ◌≤◌, ◌≡◌, ◌≢◌, refl, sym, ap, ◌∙◌, Bool, true,
  false, not, Bool-cases, inl, inr, [], ◌∷◌, ◌++◌, arith, length, leb, ◌==◌, keep_if, if◌then◌else◌,
  some,
}
use slvrn.Prelude.Text.{Text, is_digit, is_empty}
use slvrn.Prelude.Decimal.{
  decimal, value, AllDigits, decimal-AllDigits, value-decimal, decimal-ne-nil, length-decimal,
}
use slvrn.Prelude.Number.{ℤ, pos, negsuc, in_safe_range, max_safe, neg}
use slvrn.Errors.{ok}
use slvrn.Prelude.Trim.{NoSpace}
use slvrn.Money.{
  clean_amount, is_not_comma, is_not_space, fraction, matched_cents, unsigned_cents, signed_cents,
  parse_amount_to_cents, group_thousands, two_digits, format_abs, format_cents, safe_cents,
}
use slvrn.Money.Cleaning.{
  clean_amount-start, tail, amount-kept, amount-NoSpace, span_digits-append, minus-NoSpace,
}

fraction-tail :
    (d e : ℕ) → is_digit d ≡ true → is_digit e ≡ true → fraction (tail d e) ≡ some (d ∷ e ∷ [])
unfolding fraction
fraction-tail d e p q = rw (p, q) refl

matched_cents-amount :
    (ds : Text) (d e : ℕ)
    → 1 ≤ length ds
    → length ds ≤ 15
    → fraction (tail d e) ≡ some (d ∷ e ∷ [])
    → matched_cents (ds, tail d e) ≡ some (value ds * 100 + value (d ∷ e ∷ []))
unfolding matched_cents
matched_cents-amount ds d e short long f = rw f (ground arith)

unsigned_cents-amount :
    (ds : Text) (d e : ℕ)
    → AllDigits ds
    → 1 ≤ length ds
    → length ds ≤ 15
    → is_digit d ≡ true
    → is_digit e ≡ true
    → unsigned_cents (ds ++ tail d e) ≡ some (value ds * 100 + value (d ∷ e ∷ []))
unsigned_cents-amount ds d e h short long p q =
    ap matched_cents (span_digits-append ds (d ∷ e ∷ []) h)
    ∙ matched_cents-amount ds d e short long (fraction-tail d e p q)

two_digits-digit :
    (n : ℕ) → n < 100 → (is_digit (b'0' + n / 10) ≡ true) × (is_digit (b'0' + n % 10) ≡ true)
unfolding is_digit
two_digits-digit n h = ground arith

value-two_digits : (n : ℕ) → n < 100 → value (two_digits n) ≡ n
unfolding value
value-two_digits n h = omega arith

ne-nil_length : (ds : Text) → ds ≢ [] → 1 ≤ length ds
ne-nil_length [] h = absurd (h refl)
ne-nil_length (c ∷ s) h = omega arith

safe-whole : (n : ℕ) → n ≤ max_safe → length (decimal (n / 100)) ≤ 15
safe-whole n h = length-decimal (n / 100) 14 (ground arith)

unsigned_cents-format :
    (n : ℕ)
    → n ≤ max_safe
    → unsigned_cents (decimal (n / 100) ++ b'.' ∷ two_digits (n % 100)) ≡ some n
unsigned_cents-format n h =
    let (p, q) = two_digits-digit (n % 100) (omega arith) in
    unsigned_cents-amount (decimal (n / 100)) _ _ (decimal-AllDigits (n / 100))
      (ne-nil_length _ (decimal-ne-nil (n / 100))) (safe-whole n h) p q
    ∙ ap some (
        ap₂ ◌+◌ (ap (λ v. v * 100) (value-decimal (n / 100)))
          (value-two_digits (n % 100) (omega arith))
        ∙ omega arith)

group_thousands-head : (c : ℕ) (s : Text) → (t : Text) × (group_thousands (c ∷ s) ≡ c ∷ t)
unfolding group_thousands
group_thousands-head c s = elim (Bool-cases (length s % 3 == 0 && not (is_empty s))) [
  | inl comma ↦ (b',' ∷ group_thousands s, rw comma refl)
  | inr plain ↦ (group_thousands s, rw plain refl)
]

digit-not_k : (c : ℕ) → is_digit c ≡ true → (c ≢ b'K') × (c ≢ b'k')
unfolding is_digit
digit-not_k c h = ground arith

-- The text of a magnitude starts with a digit.
clean_amount-digits :
    (ds : Text) (d e : ℕ)
    → AllDigits ds
    → ds ≢ []
    → is_digit d ≡ true
    → is_digit e ≡ true
    → clean_amount (group_thousands ds ++ tail d e) ≡ ds ++ tail d e
clean_amount-digits [] d e h ne p q = absurd (ne refl)
clean_amount-digits (c ∷ s) d e h ne p q =
    let (t, head) = group_thousands-head c s in
    let kept = amount-kept (c ∷ s) d e h p q in
    let free = amount-NoSpace (c ∷ s) d e h p q in
    let (k, l) = digit-not_k c h.0 in
    ap (λ g. clean_amount (g ++ tail d e)) head
    ∙ clean_amount-start c (t ++ tail d e) (subst (λ g. NoSpace (g ++ tail d e)) head free) k l
    ∙ ap (λ g. keep_if is_not_space (keep_if is_not_comma (g ++ tail d e))) (sym head)
    ∙ kept

signed_cents-digits :
    (ds : Text) (d e : ℕ)
    → AllDigits ds
    → ds ≢ []
    → signed_cents (ds ++ tail d e) ≡ safe_cents false (unsigned_cents (ds ++ tail d e))
unfolding is_digit
signed_cents-digits [] d e h ne = absurd (ne refl)
signed_cents-digits (c ∷ s) d e (p, h) ne = ground arith

clean_amount-minus :
    (ds : Text) (d e : ℕ)
    → AllDigits ds
    → is_digit d ≡ true
    → is_digit e ≡ true
    → clean_amount (b'-' ∷ (group_thousands ds ++ tail d e)) ≡ b'-' ∷ (ds ++ tail d e)
clean_amount-minus ds d e h p q =
    clean_amount-start b'-' _ (minus-NoSpace, amount-NoSpace ds d e h p q) (omega arith)
      (omega arith)
    ∙ kept
  where
    kept :
        keep_if is_not_space (keep_if is_not_comma (b'-' ∷ (group_thousands ds ++ tail d e)))
        ≡ b'-' ∷ (ds ++ tail d e)
    kept = rw minus-NoSpace (ap (λ s. b'-' ∷ s) (amount-kept ds d e h p q))

safe_cents-fits :
    (negative : Bool) (n : ℕ)
    → n ≤ max_safe
    → safe_cents negative (some n) ≡ ok (if negative then neg n else pos n)
safe_cents-fits negative n h = ground arith

safe_le : (n : ℕ) → leb n max_safe ≡ true → n ≤ max_safe
safe_le n h = ground arith

-- A formatted amount parses back to itself, for every safe integer of cents and either sign.
pub parse_amount_to_cents-format_cents :
    (cents : ℤ) → in_safe_range cents ≡ true → parse_amount_to_cents (format_cents cents) ≡ ok cents
unfolding parse_amount_to_cents format_cents format_abs
parse_amount_to_cents-format_cents (pos n) h =
    let le = safe_le n h in
    let (p, q) = two_digits-digit (n % 100) (omega arith) in
    let ds = decimal (n / 100) in
    ap signed_cents
      (clean_amount-digits ds _ _ (decimal-AllDigits (n / 100)) (decimal-ne-nil (n / 100)) p q)
    ∙ signed_cents-digits ds _ _ (decimal-AllDigits (n / 100)) (decimal-ne-nil (n / 100))
    ∙ ap (safe_cents false) (unsigned_cents-format n le)
    ∙ safe_cents-fits false n le
parse_amount_to_cents-format_cents (negsuc n) h =
    let le = safe_le (suc n) h in
    let (p, q) = two_digits-digit (suc n % 100) (omega arith) in
    ap signed_cents
      (clean_amount-minus (decimal (suc n / 100)) _ _ (decimal-AllDigits (suc n / 100)) p q)
    ∙ ap (safe_cents true) (unsigned_cents-format (suc n) le)
    ∙ safe_cents-fits true (suc n) le
    ∙ ground arith
