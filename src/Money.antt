-- ===== src/Money.antt =====
-- Amounts as integer cents (packages/core/src/money.ts).
pub mod Totals
pub mod Cleaning
pub mod RoundTrip
pub mod Daraja
use slvrn.Prelude.{
  ℕ, zero, suc, ◌+◌, ◌*◌, ◌/◌, ◌%◌, Bool, true, false, not, ◌&&◌, ◌||◌, List, [], ◌∷◌, ◌++◌,
  if◌then◌else◌, ltb, leb, ◌==◌, keep_if, length, all, Option, none, some,
}
use slvrn.Prelude.Text.{Text, trim, trim_start, is_space, is_digit, is_empty}
use slvrn.Prelude.Decimal.{decimal, value}
use slvrn.Prelude.Number.{
  ℤ, pos, negsuc, ◌+ℤ◌, Number, int, other, is_safe_integer, in_safe_range, is_positive, neg,
  max_safe,
}
use slvrn.Errors.{
  Result, ok, err, throw, ◌>>=◌, ◌>>◌, throw_if, validation_error, amount_invalid,
  amount_out_of_range, amount_fractional,
}

abbrev pub daraja_b2c_min_cents : ℕ
daraja_b2c_min_cents = 1000

abbrev pub daraja_b2c_max_cents : ℕ
daraja_b2c_max_cents = 25000000

abbrev pub mpesa_customer_daily_limit_cents : ℕ
mpesa_customer_daily_limit_cents = 50000000

-- `replace(/^KES\s*/i, '')`.
abbrev pub strip_kes : Text → Text
strip_kes (k ∷ (e ∷ (t ∷ rest))) =
    if (k == b'K' || k == b'k') && (e == b'E' || e == b'e') && (t == b'S' || t == b's')
    then trim_start rest
    else k ∷ e ∷ t ∷ rest
strip_kes s = s

abbrev pub is_not_comma : ℕ → Bool
is_not_comma c = not (c == b',')

abbrev pub is_not_space : ℕ → Bool
is_not_space c = not (is_space c)

unfoldable pub clean_amount : Text → Text
unfolding is_space trim trim_start
clean_amount raw = keep_if is_not_space (keep_if is_not_comma (strip_kes (trim raw)))

-- The digits at the front, and the rest.
unfoldable pub span_digits : Text → Text × Text
unfolding is_digit
span_digits [] = ([], [])
span_digits (c ∷ s) =
    let (digits, rest) = span_digits s in if is_digit c then (c ∷ digits, rest) else ([], c ∷ s)

-- `(\.\d{1,2})?$`, padded to two digits: `(frac + '00').slice(0, 2)`.
unfoldable pub fraction : Text → Option Text
unfolding is_digit
fraction [] = some (b'0' ∷ b'0' ∷ [])
fraction (c ∷ (d ∷ [])) = if c == b'.' && is_digit d then some (d ∷ b'0' ∷ []) else none
fraction (c ∷ (d ∷ (e ∷ []))) =
    if c == b'.' && is_digit d && is_digit e then some (d ∷ e ∷ []) else none
fraction _ = none

-- `\d{1,15}(\.\d{1,2})?$`, and the amount in cents that it stands for.
unfoldable pub matched_cents : Text × Text → Option ℕ
unfolding fraction value
matched_cents (whole, rest) =
    if leb 1 (length whole) && leb (length whole) 15
    then elim (fraction rest) [ none ↦ none | some frac ↦ some (value whole * 100 + value frac) ]
    else none

abbrev pub unsigned_cents : Text → Option ℕ
unsigned_cents s = matched_cents (span_digits s)

-- A magnitude with its sign, if it is safe.
abbrev pub safe_cents : Bool → Option ℕ → Result ℤ
safe_cents negative none = throw (validation_error amount_invalid)
safe_cents negative (some cents) = do
  throw_if (not (leb cents max_safe)) (validation_error amount_out_of_range)
  ok (if negative then neg cents else pos cents)

abbrev pub signed_cents : Text → Result ℤ
signed_cents [] = safe_cents false none
signed_cents (c ∷ s) =
    if c == b'-'
    then safe_cents true (unsigned_cents s)
    else safe_cents false (unsigned_cents (c ∷ s))

-- On a string, or on `String(input)` of a number. A sum past the safe integers is inexact in the
-- source, and refused either way; -0 is 0 here.
unfoldable pub parse_amount_to_cents : Text → Result ℤ
unfolding clean_amount span_digits matched_cents
parse_amount_to_cents raw = signed_cents (clean_amount raw)

-- `replace(/\B(?=(\d{3})+(?!\d))/g, ',')` of a row of digits.
unfoldable pub group_thousands : Text → Text
group_thousands [] = []
group_thousands (c ∷ s) =
    let rest = group_thousands s in
    if length s % 3 == 0 && not (is_empty s) then c ∷ b',' ∷ rest else c ∷ rest

-- `padStart(2, '0')` of a number below 100.
abbrev pub two_digits : ℕ → Text
two_digits n = (b'0' + n / 10) ∷ (b'0' + n % 10) ∷ []

unfoldable pub format_abs : ℕ → Text
unfolding group_thousands decimal
format_abs n = group_thousands (decimal (n / 100)) ++ b'.' ∷ two_digits (n % 100)

-- Of an integer number of cents.
unfoldable pub format_cents : ℤ → Text
unfolding format_abs
format_cents (pos n) = format_abs n
format_cents (negsuc n) = b'-' ∷ format_abs (suc n)

unfoldable pub cents_to_daraja_amount : Number → Result Text
cents_to_daraja_amount (int (pos n)) = do
  throw_if (not (leb n max_safe) || not (leb 1 n)) (validation_error amount_invalid)
  throw_if (not (n % 100 == 0)) (validation_error amount_fractional)
  ok (decimal (n / 100))
cents_to_daraja_amount _ = throw (validation_error amount_invalid)

-- The loop of `sumCents`, on the running total.
unfoldable pub sum_from : ℤ → List Number → Result ℤ
sum_from total [] = ok total
sum_from total (other _ ∷ vs) = throw (validation_error amount_invalid)
sum_from total (int v ∷ vs) = do
  throw_if (not (in_safe_range v)) (validation_error amount_invalid)
  throw_if (not (in_safe_range (total +ℤ v))) (validation_error amount_out_of_range)
  sum_from (total +ℤ v) vs

unfoldable pub sum_cents : List Number → Result ℤ
unfolding sum_from
sum_cents values = sum_from (pos 0) values
