-- ===== src/Export/Laws.antt =====
-- What a spreadsheet reads from an exported field (packages/core/src/export-csv.ts).
use slvrn.Prelude.{
  ℕ, ◌≡◌, refl, Bool, true, false, Bool-cases, inl, inr, [], ◌∷◌, ◌++◌, Option, none, some,
  if◌then◌else◌, ◌==◌, arith,
}
use slvrn.Prelude.Text.{Text}
use slvrn.Export.{
  starts_formula, has_special, double_quotes, guard_formula, quote_field, escape_csv_field,
}

abbrev prepend : ℕ → Option Text → Option Text
prepend c none = none
prepend c (some t) = some (c ∷ t)

-- The rest of a quoted field as a reader of CSV takes it (RFC 4180): two quotes stand for one, and one
-- quote ends the field. The flag tells that a quote was just read.
unfoldable read_quoted : Bool → Text → Option Text
read_quoted false [] = none
read_quoted true [] = some []
read_quoted false (c ∷ s) =
    let quote = read_quoted true s in
    let other = prepend c (read_quoted false s) in if c == b'"' then quote else other
read_quoted true (c ∷ s) =
    let quoted = prepend b'"' (read_quoted false s) in if c == b'"' then quoted else none

-- A field as such a reader takes it. `none` is text that is not one field.
unfoldable pub read_field : Text → Option Text
unfolding read_quoted has_special
read_field [] = some []
read_field (c ∷ s) =
    if c == b'"' then read_quoted false s else if has_special (c ∷ s) then none else some (c ∷ s)

read_quoted-double_quotes : (t : Text) → read_quoted false (double_quotes t ++ b'"' ∷ []) ≡ some t
unfolding read_quoted double_quotes
read_quoted-double_quotes [] = refl
read_quoted-double_quotes (c ∷ t) = elim (Bool-cases (c == b'"')) [
  | inl quote ↦ rw (quote, read_quoted-double_quotes t) (ground arith)
  | inr other ↦ rw (other, other, read_quoted-double_quotes t) refl
]

read_field-plain :
    (c : ℕ) (s : Text) → has_special (c ∷ s) ≡ false → read_field (c ∷ s) ≡ some (c ∷ s)
unfolding read_field has_special
read_field-plain c s h = ground arith

read_field-nil : read_field [] ≡ some []
unfolding read_field
read_field-nil = refl

read_field-quote_field : (c : ℕ) (s : Text) → read_field (quote_field (c ∷ s)) ≡ some (c ∷ s)
unfolding read_field
read_field-quote_field c s = elim (Bool-cases (has_special (c ∷ s))) [
  | inl special ↦ rw special (read_quoted-double_quotes (c ∷ s))
  | inr plain ↦ rw plain (read_field-plain c s plain)
]

guarded :
    (b : Bool) (c : ℕ) (s : Text)
    → read_field (quote_field (if b then b'\'' ∷ c ∷ s else c ∷ s))
      ≡ some (if b then b'\'' ∷ c ∷ s else c ∷ s)
guarded true c s = read_field-quote_field b'\'' (c ∷ s)
guarded false c s = read_field-quote_field c s

guard_formula-safe : (c : ℕ) (s : Text) → starts_formula (guard_formula (c ∷ s)) ≡ false
guard_formula-safe c s = ground arith

-- A reader of CSV takes an exported text for the one field that it is: the text itself, with an
-- apostrophe before it exactly if it would start a formula. What is read never starts one.
pub read_field-escape_csv_field :
    (text : Text)
    → (read_field (escape_csv_field (some text))
        ≡ some (if starts_formula text then b'\'' ∷ text else text))
      × (starts_formula (if starts_formula text then b'\'' ∷ text else text) ≡ false)
unfolding escape_csv_field
read_field-escape_csv_field [] = (read_field-nil, refl)
read_field-escape_csv_field (c ∷ s) = (guarded (starts_formula (c ∷ s)) c s, guard_formula-safe c s)
