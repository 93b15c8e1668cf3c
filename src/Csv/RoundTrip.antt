-- ===== src/Csv/RoundTrip.antt =====
-- The exported line of packages/core/src/export-csv.ts, read back by `parseCsvGrid` of
-- packages/core/src/csv.ts.
use slvrn.Prelude.{
  ℕ, ◌≡◌, refl, sym, ap, ◌∙◌, Bool, true, false, not, ◌||◌, ◌==◌, List, [], ◌∷◌, ◌++◌, map, some,
  All, Bool-cases, ◌⊎◌, inl, inr, arith,
}
use slvrn.Prelude.Text.{Text, is_empty, trim, trim_start}
use slvrn.Prelude.Join.{join}
use slvrn.Export.{
  has_special, double_quotes, quote_field, guard_formula, escape_csv_field, build_csv_line,
}
use slvrn.Csv.{
  Scan, push_field, push_row, is_blank_row, append_char, is_quote, is_separator, scan_quoted,
  scan_plain, scan_char, scan, initial, has_row, finish, strip_bom, parse_csv_grid,
}

abbrev state : List (List Text) → List Text → Text → Bool → Scan
state rows row field in_quotes = record {
  rows = rows;
  row = row;
  field = field;
  in_quotes = in_quotes;
}

pub record IsPlain (c : ℕ) : Type 0 where
  pub quote : (c == b'"') ≡ false
  pub separator : is_separator c ≡ false
  pub return : (c == 13) ≡ false
  pub newline : (c == 10) ≡ false

-- The reader takes a semicolon and a tab for separators, too: a text that holds one is read back if the
-- export has quoted it, which it does for another reason only.
abbrev pub IsReadable : Text → Type 0
IsReadable t = (has_special t ≡ true) ⊎ All IsPlain t

append_assoc {ℓ} : {A : Type ℓ} (xs ys zs : List A) → (xs ++ ys) ++ zs ≡ xs ++ (ys ++ zs)
append_assoc [] ys zs = refl
append_assoc (x ∷ xs) ys zs = ap (◌∷◌ x) (append_assoc xs ys zs)

append-nil {ℓ} : {A : Type ℓ} (xs : List A) → xs ++ [] ≡ xs
append-nil [] = refl
append-nil (x ∷ xs) = ap (◌∷◌ x) (append-nil xs)

scan_step :
    (c : ℕ) (s : Text) (st st' : Scan)
    → scan_char c s st ≡ (st', false)
    → scan false st (c ∷ s) ≡ scan false st' s
unfolding scan
scan_step c s st st' h = ap (λ (r : Scan × Bool). scan r.1 r.0 s) h

quoted_char :
    (c : ℕ) (s : Text) (st : Scan)
    → (c == b'"') ≡ false
    → scan_quoted c s st ≡ (append_char c st, false)
unfolding scan_quoted
quoted_char c s st h = rw h refl

plain_char : (c : ℕ) (st : Scan) → IsPlain c → scan_plain c st ≡ append_char c st
unfolding scan_plain
plain_char c st p =
    let quote = p.quote in
    let separator = p.separator in let return = p.return in let newline = p.newline in ground arith

module _ (rows : List (List Text)) (row : List Text) (rest : Text)
    (ends : is_quote rest ≡ false) where
  -- Inside of quotes, up to the quote that ends the field.
  scan-double_quotes :
      (f t : Text)
      → scan false (state rows row f true) (double_quotes t ++ (b'"' ∷ rest))
        ≡ scan false (state rows row (f ++ t) false) rest
  unfolding scan scan_char scan_quoted double_quotes
  scan-double_quotes f [] = rw (ends, append-nil f) refl
  scan-double_quotes f (c ∷ t) = elim (Bool-cases (c == b'"')) [
    | inl quote ↦
        let same : c ≡ b'"' = ground arith in
        rw same (
          scan-double_quotes (f ++ b'"' ∷ []) t
          ∙ ap (λ g. scan false (state rows row g false) rest) (append_assoc f (b'"' ∷ []) t))
    | inr other ↦ rw other (
        scan_step c (double_quotes t ++ (b'"' ∷ rest)) (state rows row f true)
          (state rows row (f ++ c ∷ []) true)
          (quoted_char c (double_quotes t ++ (b'"' ∷ rest)) (state rows row f true) other)
        ∙ scan-double_quotes (f ++ c ∷ []) t
        ∙ ap (λ g. scan false (state rows row g false) rest) (append_assoc f (c ∷ []) t))
  ]

  -- Outside of quotes.
  scan-plain :
      (f t : Text)
      → All IsPlain t
      → scan false (state rows row f false) (t ++ rest)
        ≡ scan false (state rows row (f ++ t) false) rest
  unfolding scan_char
  scan-plain f [] plain = rw (append-nil f) refl
  scan-plain f (c ∷ t) (p, ps) =
      scan_step c (t ++ rest) _ _
        (ap (λ (st : Scan). (st, false)) (plain_char c (state rows row f false) p))
      ∙ scan-plain (f ++ c ∷ []) t ps
      ∙ ap (λ g. scan false (state rows row g false) rest) (append_assoc f (c ∷ []) t)

  -- One exported field.
  scan-quote_field :
      (t : Text)
      → IsReadable t
      → scan false (state rows row [] false) (quote_field t ++ rest)
        ≡ scan false (state rows row t false) rest
  unfolding scan scan_char scan_plain trim trim_start
  scan-quote_field t (inl special) =
      rw (special, append_assoc (b'"' ∷ double_quotes t) (b'"' ∷ []) rest) (scan-double_quotes [] t)
  scan-quote_field t (inr plain) = elim (Bool-cases (has_special t)) [
    | inl special ↦
        rw (special, append_assoc (b'"' ∷ double_quotes t) (b'"' ∷ []) rest)
          (scan-double_quotes [] t)
    | inr simple ↦ rw simple (scan-plain [] t plain)
  ]

scan_end : (st : Scan) → scan false st [] ≡ st
unfolding scan
scan_end st = refl

at_comma :
    (s : Text) (st : Scan) → st.in_quotes ≡ false → scan_char b',' s st ≡ (push_field st, false)
unfolding scan_char scan_plain
at_comma s st e = rw e refl

-- The fields of a line, from the second one on each after a comma.
scan-line :
    (rows : List (List Text)) (row : List Text) (t : Text) (ts : List Text)
    → IsReadable t
    → All IsReadable ts
    → push_field (scan false (state rows row [] false) (join b',' (map quote_field (t ∷ ts))))
      ≡ state rows (row ++ (t ∷ ts)) [] false
unfolding join
scan-line rows row t [] r rs = ap push_field (
    ap (scan false (state rows row [] false)) (sym (append-nil (quote_field t)))
    ∙ scan-quote_field rows row [] refl t r
    ∙ scan_end (state rows row t false))
scan-line rows row t (u ∷ us) r (q, qs) =
    let others = join b',' (map quote_field (u ∷ us)) in
    ap push_field (
      scan-quote_field rows row (b',' ∷ others) refl t r
      ∙ scan_step b',' others (state rows row t false) (state rows (row ++ t ∷ []) [] false)
          (at_comma others (state rows row t false) refl))
    ∙ scan-line rows (row ++ t ∷ []) u us q qs
    ∙ ap (λ w. state rows w [] false) (append_assoc row (t ∷ []) (u ∷ us))

blank_rest :
    (row : List Text) (field : Text)
    → (not (is_empty field) || has_row row) ≡ false
    → is_blank_row (row ++ field ∷ []) ≡ true
unfolding trim trim_start
blank_rest [] [] h = refl
blank_rest [] (c ∷ s) h = cc
blank_rest (x ∷ xs) [] h = cc
blank_rest (x ∷ xs) (c ∷ s) h = cc

finish_row :
    (st : Scan) (cells : List Text)
    → push_field st ≡ state [] cells [] false
    → is_blank_row cells ≡ false
    → finish st ≡ cells ∷ []
unfolding finish push_row trim trim_start
finish_row st cells e full =
    let row : st.row ++ st.field ∷ [] ≡ cells = ap (λ x. x.row) e in
    let rows : st.rows ≡ [] = ap (λ x. x.rows) e in
    elim (Bool-cases (not (is_empty st.field) || has_row st.row)) [
      | inl wanted ↦ rw (wanted, row, full, rows) refl
      | inr nothing ↦ cc (blank_rest st.row st.field nothing, ap is_blank_row row, full)
    ]

guarded_line :
    (fields : List Text)
    → map escape_csv_field (map some fields) ≡ map quote_field (map guard_formula fields)
unfolding escape_csv_field has_special double_quotes
guarded_line [] = refl
guarded_line ([] ∷ fields) = ap (◌∷◌ []) (guarded_line fields)
guarded_line ((c ∷ s) ∷ fields) =
    ap (◌∷◌ (quote_field (guard_formula (c ∷ s)))) (guarded_line fields)

-- A line that the export writes, of texts whose semicolons and tabs it quotes, is read back by the
-- upload as one row of the same texts, with an apostrophe before those that would start a formula.
-- It is not the row of one blank text, which is no data, nor a line that starts with a byte order mark.
pub parse_csv_grid-build_csv_line :
    (field : Text) (fields : List Text)
    → All IsReadable (map guard_formula (field ∷ fields))
    → is_blank_row (map guard_formula (field ∷ fields)) ≡ false
    → strip_bom (build_csv_line (map some (field ∷ fields)))
      ≡ build_csv_line (map some (field ∷ fields))
    → parse_csv_grid (build_csv_line (map some (field ∷ fields)))
      ≡ map guard_formula (field ∷ fields) ∷ []
unfolding parse_csv_grid build_csv_line
parse_csv_grid-build_csv_line field fields (r, rs) full no_bom =
    ap (λ t. finish (scan false initial t))
      (no_bom ∙ ap (join b',') (guarded_line (field ∷ fields)))
    ∙ finish_row _ (map guard_formula (field ∷ fields))
        (scan-line [] [] (guard_formula field) (map guard_formula fields) r rs) full
