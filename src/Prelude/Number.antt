-- ===== src/Prelude/Number.antt =====
-- JavaScript numbers where the program does integer arithmetic: an integer, or any other double.
use Prim.Native.Nat.{ℕ, suc, ◌+◌, ◌-◌}
use mathlib.Core.Bool.{Bool, false}
use mathlib.Core.List.{◌∷◌}
use slvrn.Prelude.Tests.{leb, if◌then◌else◌}
use slvrn.Prelude.Text.{Text}
use slvrn.Prelude.Decimal.{decimal}

-- `negsuc n` is -(n + 1).
pub data ℤ : Type 0 where
  pos : ℕ → ℤ
  negsuc : ℕ → ℤ

abbrev pub pos_part : ℤ → ℕ
pos_part (pos n) = n
pos_part (negsuc n) = 0

abbrev pub neg_part : ℤ → ℕ
neg_part (pos n) = 0
neg_part (negsuc n) = suc n

abbrev pub sub_ℕ : ℕ → ℕ → ℤ
sub_ℕ a b = if leb b a then pos (a - b) else negsuc (b - a - 1)

infixl 65 ◌+ℤ◌
unfoldable pub ◌+ℤ◌ : ℤ → ℤ → ℤ
a +ℤ b = sub_ℕ (pos_part a + pos_part b) (neg_part a + neg_part b)

-- `-n`.
abbrev pub neg : ℕ → ℤ
neg n = sub_ℕ 0 n

-- An integer, or a fraction, an infinity or NaN with what `String` gives for it.
pub data Number : Type 0 where
  int : ℤ → Number
  other : Text → Number

-- `Number.MAX_SAFE_INTEGER`.
abbrev pub max_safe : ℕ
max_safe = 9007199254740991

abbrev pub in_safe_range : ℤ → Bool
in_safe_range (pos n) = leb n max_safe
in_safe_range (negsuc n) = leb (suc n) max_safe

abbrev pub is_safe_integer : Number → Bool
is_safe_integer (int z) = in_safe_range z
is_safe_integer (other _) = false

-- `n <= 0`; the tests before it leave only integers.
abbrev pub is_positive : Number → Bool
is_positive (int (pos n)) = leb 1 n
is_positive _ = false

-- `String(n)`, of an integer below 10 ^ 21 in size.
unfoldable pub number_text : Number → Text
number_text (int (pos n)) = decimal n
number_text (int (negsuc n)) = b'-' ∷ decimal (suc n)
number_text (other text) = text
