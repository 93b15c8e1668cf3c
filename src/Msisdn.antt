-- ===== src/Msisdn.antt =====
-- Kenyan phone numbers (packages/core/src/msisdn.ts). The reasons for a rejection are constructors.
pub mod Laws
use slvrn.Prelude.{
  ℕ, ◌≡◌, Bool, true, false, not, ◌&&◌, ◌||◌, List, [], ◌∷◌, ◌++◌, if◌then◌else◌, ltb, leb, ◌==◌,
  keep_if, length, all,
}
use slvrn.Prelude.Text.{Text, codes, trim, trim_start, is_space, is_digit, is_empty}
use slvrn.Errors.{Result, ok, throw, validation_error, msisdn_invalid}

pub data Reason : Type 0 where
  empty non_numeric wrong_length not_mobile : Reason

-- The result's `ok` with its `msisdn`, or its `reason`.
pub data MsisdnParseResult : Type 0 where
  accepted : Text → MsisdnParseResult
  rejected : Reason → MsisdnParseResult

-- What `replace(/[\s()\-.]/g, '')` keeps.
abbrev pub is_kept : ℕ → Bool
is_kept c = not (is_space c || c == b'(' || c == b')' || c == b'-' || c == b'.')

abbrev pub drop_plus : Text → Text
drop_plus [] = []
drop_plus (c ∷ s) = if c == b'+' then s else c ∷ s

-- `slice(1)`.
abbrev pub rest_of : Text → Text
rest_of [] = []
rest_of (_ ∷ s) = s

-- `startsWith`.
unfoldable pub starts_with : Text → Text → Bool
starts_with [] s = true
starts_with (p ∷ ps) [] = false
starts_with (p ∷ ps) (c ∷ s) = p == c && starts_with ps s

abbrev pub country : Text
country = codes "254"

-- The local forms in international form.
unfoldable pub to_international : Text → Text
unfolding starts_with
to_international digits =
    if length digits == 10 && starts_with (codes "0") digits
    then country ++ rest_of digits
    else if length digits == 9 && (starts_with (codes "7") digits || starts_with (codes "1") digits)
    then country ++ digits
    else if starts_with (codes "00254") digits
    then rest_of (rest_of digits)
    else digits

-- `KE_MOBILE`, of twelve code units.
unfoldable pub is_ke_mobile : Text → Bool
unfolding starts_with is_digit
is_ke_mobile digits =
    length digits == 12
    && all is_digit digits
    && (starts_with (codes "2547") digits || starts_with (codes "2541") digits)

abbrev pub check_mobile : Text → MsisdnParseResult
check_mobile digits =
    if not (length digits == 12)
    then rejected wrong_length
    else if not (is_ke_mobile digits)
    then rejected not_mobile
    else accepted digits

-- `/^\d+$/`, then the form.
abbrev pub normalize_digits : Text → MsisdnParseResult
normalize_digits digits =
    if not (not (is_empty digits) && all is_digit digits)
    then rejected non_numeric
    else check_mobile (to_international digits)

abbrev pub normalize_raw : Text → MsisdnParseResult
normalize_raw raw =
    if is_empty raw then rejected empty else normalize_digits (drop_plus (keep_if is_kept raw))

unfoldable pub try_normalize_msisdn : Text → MsisdnParseResult
unfolding trim trim_start is_space is_digit to_international is_ke_mobile
try_normalize_msisdn input = normalize_raw (trim input)

abbrev pub require_normalized : MsisdnParseResult → Result Text
require_normalized (accepted msisdn) =
    if is_empty msisdn then throw (validation_error msisdn_invalid) else ok msisdn
require_normalized (rejected reason) = throw (validation_error msisdn_invalid)

unfoldable pub normalize_msisdn : Text → Result Text
unfolding try_normalize_msisdn
normalize_msisdn input = require_normalized (try_normalize_msisdn input)
