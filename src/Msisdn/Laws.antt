-- ===== src/Msisdn/Laws.antt =====
-- What normalization gives (packages/core/src/msisdn.ts): a canonical number, and one for every way
-- to write it.
use slvrn.Prelude.{
  ℕ, ◌≡◌, refl, sym, ap, ◌∙◌, ◌↔◌, ◌⊎◌, Bool, true, false, not, ◌&&◌, [], ◌∷◌, ◌++◌, arith, All,
  length, all, ◌==◌, keep_if, if◌then◌else◌,
}
use slvrn.Prelude.Text.{Text, trim, is_space, is_digit, is_empty, codes}
use slvrn.Prelude.Decimal.{AllDigits}
use slvrn.Prelude.Trim.{trim-NoSpace, trim-dropped, keep_if-all, digit-NoSpace, digits-NoSpace}
use slvrn.Msisdn.{
  try_normalize_msisdn, accepted, rejected, is_kept, drop_plus, starts_with, to_international,
  is_ke_mobile, check_mobile, normalize_digits, normalize_raw, country, Reason, MsisdnParseResult,
  empty, non_numeric, wrong_length, not_mobile,
}

-- The nine digits of a mobile number after the country code.
pub record IsSubscriber (ds : Text) : Type 0 where
  pub digits : AllDigits ds
  pub nine : length ds ≡ 9
  pub prefix : (starts_with (codes "7") ds ≡ true) ⊎ (starts_with (codes "1") ds ≡ true)

all-AllDigits : (s : Text) → (all is_digit s ≡ true) ↔ AllDigits s
all-AllDigits [] = (λ _. tt, λ _. refl)
all-AllDigits (c ∷ s) = ground (arith, all-AllDigits s)

digit-kept : (d : ℕ) → is_digit d ≡ true → is_kept d ≡ true
unfolding is_digit
digit-kept d h = ground (arith, digit-NoSpace d)

digits-kept : (ds : Text) → AllDigits ds → All (λ c. is_kept c ≡ true) ds
digits-kept [] h = tt
digits-kept (c ∷ s) (p, h) = (digit-kept c p, digits-kept s h)

digit-not_plus : (c : ℕ) (s : Text) → is_digit c ≡ true → drop_plus (c ∷ s) ≡ c ∷ s
unfolding is_digit
digit-not_plus c s h = ground arith

normalize_digits-digits :
    (c : ℕ) (s : Text)
    → all is_digit (c ∷ s) ≡ true
    → normalize_digits (c ∷ s) ≡ check_mobile (to_international (c ∷ s))
normalize_digits-digits c s h = rw h refl

-- Digits alone are already clean.
clean-digits :
    (c : ℕ) (s : Text)
    → AllDigits (c ∷ s)
    → normalize_raw (trim (c ∷ s)) ≡ check_mobile (to_international (c ∷ s))
clean-digits c s h =
    ap normalize_raw (trim-NoSpace (c ∷ s) (digits-NoSpace (c ∷ s) h))
    ∙ ap (λ x. normalize_digits (drop_plus x)) (keep_if-all is_kept (c ∷ s) (digits-kept (c ∷ s) h))
    ∙ ap normalize_digits (digit-not_plus c s h.0)
    ∙ normalize_digits-digits c s ((all-AllDigits (c ∷ s)).1 h)

plus-kept : (is_space b'+' ≡ false) × (is_kept b'+' ≡ true)
unfolding is_space
plus-kept = (refl, refl)

clean-plus :
    (c : ℕ) (s : Text)
    → AllDigits (c ∷ s)
    → normalize_raw (trim (b'+' ∷ c ∷ s)) ≡ check_mobile (to_international (c ∷ s))
clean-plus c s h =
    ap normalize_raw (trim-NoSpace (b'+' ∷ c ∷ s) (plus-kept.0, digits-NoSpace (c ∷ s) h))
    ∙ ap (λ x. normalize_digits (drop_plus x))
        (keep_if-all is_kept (b'+' ∷ c ∷ s) (plus-kept.1, digits-kept (c ∷ s) h))
    ∙ normalize_digits-digits c s ((all-AllDigits (c ∷ s)).1 h)

-- The international form of the ways to write a number.
international :
    (ds : Text)
    → IsSubscriber ds
    → (to_international ds ≡ country ++ ds)
      × (to_international (b'0' ∷ ds) ≡ country ++ ds)
      × (to_international (country ++ ds) ≡ country ++ ds)
      × (to_international (codes "00254" ++ ds) ≡ country ++ ds)
unfolding to_international starts_with
international [] h = absurd (omega (arith, h.nine))
international (c ∷ s) h = ground (arith, h.nine, h.prefix)

mobile-accepted :
    (ds : Text) → IsSubscriber ds → check_mobile (country ++ ds) ≡ accepted (country ++ ds)
unfolding is_ke_mobile starts_with is_digit
mobile-accepted [] h = absurd (omega (arith, h.nine))
mobile-accepted (c ∷ s) h = ground (arith, h.nine, h.prefix, (all-AllDigits (c ∷ s)).1 h.digits)

zero_digit : is_digit b'0' ≡ true
unfolding is_digit
zero_digit = refl

country_digits : (ds : Text) → AllDigits ds → AllDigits (country ++ ds)
unfolding is_digit
country_digits ds h = (refl, (refl, (refl, h)))

gate_mobile :
    (b c : Bool) (d m : Text)
    → (if not b then rejected wrong_length else if not c then rejected not_mobile else accepted d)
      ≡ accepted m
    → (c ≡ true) × (d ≡ m)
gate_mobile true true d m h = (refl, cc)
gate_mobile true false d m h = cc
gate_mobile false c d m h = cc

check_mobile-accepted : (digits m : Text) → check_mobile digits ≡ accepted m → is_ke_mobile m ≡ true
check_mobile-accepted digits m h =
    let (mobile, same) = gate_mobile (length digits == 12) (is_ke_mobile digits) digits m h in
    ap is_ke_mobile (sym same) ∙ mobile

gate_reason :
    (b : Bool) (r : Reason) (k : MsisdnParseResult) (m : Text)
    → (if b then rejected r else k) ≡ accepted m
    → k ≡ accepted m
gate_reason true r k m h = cc
gate_reason false r k m h = h

accepted-mobile : (input m : Text) → try_normalize_msisdn input ≡ accepted m → is_ke_mobile m ≡ true
unfolding try_normalize_msisdn
accepted-mobile input m h =
    let digits = drop_plus (keep_if is_kept (trim input)) in
    check_mobile-accepted (to_international digits) m (
      gate_reason (not (not (is_empty digits) && all is_digit digits)) non_numeric _ m
        (gate_reason (is_empty (trim input)) empty _ m h))

is_ke_mobile_sound :
    (m : Text) → is_ke_mobile m ≡ true → (ds : Text) × IsSubscriber ds × (m ≡ country ++ ds)
unfolding is_ke_mobile starts_with
is_ke_mobile_sound [] h = cc
is_ke_mobile_sound (a ∷ []) h = ground arith
is_ke_mobile_sound (a ∷ (b ∷ [])) h = ground arith
is_ke_mobile_sound (a ∷ (b ∷ (c ∷ ds))) h = (
  ds,
  record {
    digits = (all-AllDigits ds).0 (ground arith);
    nine = ground arith;
    prefix = ground arith;
  },
  starts (a ∷ (b ∷ (c ∷ []))) ds (ground arith),
)
  where
    starts : (p t : Text) → p ≡ country → p ++ t ≡ country ++ t
    starts p t e = ap (λ x. x ++ t) e

-- The ways to write a number without formatting: bare, with the leading zero, the country code, its plus
-- or the international prefix.
pub data Form : Type 0 where
  bare trunk full plus prefixed : Form

abbrev pub written : Form → Text → Text
written bare ds = ds
written trunk ds = b'0' ∷ ds
written full ds = country ++ ds
written plus ds = b'+' ∷ (country ++ ds)
written prefixed ds = codes "00254" ++ ds

abbrev IsFormatting : ℕ → Type 0
IsFormatting c = (is_space c ≡ true) ⊎ ((c ≡ b'(') ⊎ ((c ≡ b')') ⊎ ((c ≡ b'-') ⊎ (c ≡ b'.'))))

-- The second text is the first with formatting put in: white space, brackets, dashes and dots.
pub data Formatted : Text → Text → Type 0 where
  done : Formatted [] []
  kept : (c : ℕ) {s t : Text} → Formatted s t → Formatted (c ∷ s) (c ∷ t)
  put : (c : ℕ) {s t : Text} → IsFormatting c → Formatted s t → Formatted s (c ∷ t)

formatting-dropped : (c : ℕ) → IsFormatting c → is_kept c ≡ false
formatting-dropped c h = ground arith

keep_if-Formatted : {s t : Text} → Formatted s t → keep_if is_kept t ≡ keep_if is_kept s
keep_if-Formatted done = refl
keep_if-Formatted (kept c f) = ap (λ r. if is_kept c then c ∷ r else r) (keep_if-Formatted f)
keep_if-Formatted (put c h f) = rw (formatting-dropped c h) (keep_if-Formatted f)

space-dropped : (c : ℕ) → is_space c ≡ true → is_kept c ≡ false
space-dropped c h = rw h refl

-- What is kept decides: two texts of which the same is kept have one result, if it is accepted.
normalize_raw-kept :
    (s t m : Text)
    → keep_if is_kept t ≡ keep_if is_kept s
    → normalize_raw s ≡ accepted m
    → normalize_raw t ≡ accepted m
normalize_raw-kept [] t m e h = cc
normalize_raw-kept (c ∷ s) [] m e h =
    let none_left : normalize_raw (c ∷ s) ≡ rejected non_numeric =
      ap (λ x. normalize_digits (drop_plus x)) (sym e) in
    cc (none_left, h)
normalize_raw-kept (c ∷ s) (d ∷ t) m e h = ap (λ x. normalize_digits (drop_plus x)) e ∙ h

-- Without formatting, every form gives the one number.
written-same :
    (form : Form) (ds : Text)
    → IsSubscriber ds
    → normalize_raw (trim (written form ds)) ≡ accepted (country ++ ds)
written-same form [] h = absurd (omega (arith, h.nine))
written-same bare (c ∷ s) h =
    clean-digits c s h.digits
    ∙ ap check_mobile (international (c ∷ s) h).0
    ∙ mobile-accepted (c ∷ s) h
written-same trunk (c ∷ s) h =
    clean-digits b'0' (c ∷ s) (zero_digit, h.digits)
    ∙ ap check_mobile (international (c ∷ s) h).1
    ∙ mobile-accepted (c ∷ s) h
written-same full (c ∷ s) h =
    clean-digits b'2' (b'5' ∷ b'4' ∷ c ∷ s) (country_digits (c ∷ s) h.digits)
    ∙ ap check_mobile (international (c ∷ s) h).2
    ∙ mobile-accepted (c ∷ s) h
written-same plus (c ∷ s) h =
    clean-plus b'2' (b'5' ∷ b'4' ∷ c ∷ s) (country_digits (c ∷ s) h.digits)
    ∙ ap check_mobile (international (c ∷ s) h).2
    ∙ mobile-accepted (c ∷ s) h
written-same prefixed (c ∷ s) h =
    clean-digits b'0' (b'0' ∷ b'2' ∷ b'5' ∷ b'4' ∷ c ∷ s)
      (zero_digit, (zero_digit, country_digits (c ∷ s) h.digits))
    ∙ ap check_mobile (international (c ∷ s) h).3
    ∙ mobile-accepted (c ∷ s) h

-- A subscriber's nine digits give the one number 254XXXXXXXXX, written with or without the leading
-- zero, the country code, its plus or the international prefix, and with white space, brackets, dashes
-- and dots anywhere between, before and after.
pub try_normalize_msisdn-same :
    (form : Form) (ds input : Text)
    → IsSubscriber ds
    → Formatted (written form ds) input
    → try_normalize_msisdn input ≡ accepted (country ++ ds)
unfolding try_normalize_msisdn
try_normalize_msisdn-same form ds input h f =
    normalize_raw-kept (trim (written form ds)) (trim input) (country ++ ds)
      (trim-dropped is_kept space-dropped input
        ∙ keep_if-Formatted f
        ∙ sym (trim-dropped is_kept space-dropped (written form ds)))
      (written-same form ds h)

Formatted-refl : (s : Text) → Formatted s s
Formatted-refl [] = done
Formatted-refl (c ∷ s) = kept c (Formatted-refl s)

-- A number that is accepted is canonical: normalizing it again gives it back.
pub try_normalize_msisdn-idempotent :
    (input msisdn : Text)
    → try_normalize_msisdn input ≡ accepted msisdn
    → ((ds : Text) × IsSubscriber ds × (msisdn ≡ country ++ ds))
      × (try_normalize_msisdn msisdn ≡ accepted msisdn)
try_normalize_msisdn-idempotent input msisdn h =
    let (ds, sub, e) = is_ke_mobile_sound msisdn (accepted-mobile input msisdn h) in
    let same =
      try_normalize_msisdn-same full ds (country ++ ds) sub (Formatted-refl (country ++ ds)) in
    ((ds, sub, e), ap try_normalize_msisdn e ∙ same ∙ ap accepted (sym e))
