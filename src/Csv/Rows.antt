-- ===== src/Csv/Rows.antt =====
-- What is paid of an uploaded file (packages/core/src/csv.ts).
use slvrn.Prelude.{
  ℕ, suc, ◌≤◌, ◌%◌, ltb, ◌==◌, ◌≡◌, refl, ap, ◌≢◌, ◌⊎◌, inl, inr, false, List, [], ◌∷◌, ◌++◌, map,
  All, length, Bool-cases, subst, arith,
}
use slvrn.Prelude.Text.{Text, is_empty}
use slvrn.Prelude.Number.{ℤ, pos, negsuc}
use slvrn.Errors.{
  Result, ok, err, throw_if-eq-ok, ok_inj, validation_error, csv_missing_columns, csv_no_rows,
  csv_too_many_rows, csv_too_large,
}
use slvrn.Money.{parse_amount_to_cents, daraja_b2c_min_cents, daraja_b2c_max_cents}
use slvrn.Msisdn.{MsisdnParseResult, accepted, rejected, try_normalize_msisdn}
use slvrn.Msisdn.Laws.{try_normalize_msisdn-idempotent}
use slvrn.Export.{starts_formula}
use slvrn.Csv.{parse_csv_grid}
use slvrn.Csv.Columns.{map_columns, recipient_name, msisdn, amount, Mapping, cell_at}
use slvrn.Csv.Payments.{
  phone_reasons, amount_reasons, data_result, check_size, misses_required, max_csv_bytes, ParsedRow,
  RowError, RowReason, name_reasons, check_cents, check_parsed, check_amount, row_errors,
  accept_row, check_row, RowOutcome, is_blank_line, Checked, add_outcome, check_rows, total_amount,
  CsvParseResult, parse_data, parse_grid, parse_payment_csv,
}

-- A row that M-PESA can pay.
pub record IsPayable (r : ParsedRow) : Type 0 where
  pub name : is_empty r.recipient_name ≡ false
  pub short : length r.recipient_name ≤ 140
  pub phone : try_normalize_msisdn r.msisdn ≡ accepted r.msisdn
  pub whole : r.amount_cents % 100 ≡ 0
  pub least : daraja_b2c_min_cents ≤ r.amount_cents
  pub most : r.amount_cents ≤ daraja_b2c_max_cents

-- A row that is accepted is payable, and one that is not has an error to show.
abbrev pub IsSettled : RowOutcome → Type 0
IsSettled (inr r) = IsPayable r
IsSettled (inl errors) = errors ≢ []

abbrev IsPayableAmount : ℕ ⊎ RowReason → Type 0
IsPayableAmount (inl n) = (n % 100 ≡ 0) × (daraja_b2c_min_cents ≤ n) × (n ≤ daraja_b2c_max_cents)
IsPayableAmount (inr reason) = Unit {0}

check_cents-pays : (z : ℤ) → IsPayableAmount (check_cents z)
unfolding check_cents
check_cents-pays (negsuc n) = tt
check_cents-pays (pos n) = ground arith

check_parsed-pays : (r : Result ℤ) → IsPayableAmount (check_parsed r)
check_parsed-pays (err e) = tt
check_parsed-pays (ok z) = check_cents-pays z

check_amount-pays : (raw : Text) → IsPayableAmount (check_amount raw)
unfolding check_amount
check_amount-pays raw = elim (Bool-cases (starts_formula raw)) [
  | inl formula ↦ rw formula tt
  | inr number ↦ rw number (check_parsed-pays (parse_amount_to_cents raw))
]

name_pays : (name : Text) → name_reasons name ≡ [] → (is_empty name ≡ false) × (length name ≤ 140)
name_pays name h = ground arith

map-nil : (f : RowReason → RowError) (xs : List RowReason) → map f xs ≡ [] → xs ≡ []
map-nil f [] h = refl
map-nil f (x ∷ xs) h = cc

append-eq-nil : (xs ys : List RowError) → xs ++ ys ≡ [] → (xs ≡ []) × (ys ≡ [])
append-eq-nil [] ys h = (refl, h)
append-eq-nil (x ∷ xs) ys h = cc

-- Without an error, none of the three checks has one.
no_errors :
    (mapping : Mapping) (line : ℕ) (cells : List Text)
    → row_errors mapping line cells ≡ []
    → (name_reasons (cell_at mapping cells recipient_name) ≡ [])
      × (phone_reasons (try_normalize_msisdn (cell_at mapping cells msisdn)) ≡ [])
      × (amount_reasons (check_amount (cell_at mapping cells amount)) ≡ [])
no_errors mapping line cells h =
    let (names, others) = append-eq-nil _ _ h in
    let (phones, amounts) = append-eq-nil _ _ others in
    (map-nil _ _ names, map-nil _ _ phones, map-nil _ _ amounts)

module _ (mapping : Mapping) (line : ℕ) (cells : List Text) where
  accept_row-IsSettled :
      (names : List RowReason) (phone : MsisdnParseResult) (cents : ℕ ⊎ RowReason)
      → name_reasons (cell_at mapping cells recipient_name) ≡ names
      → try_normalize_msisdn (cell_at mapping cells msisdn) ≡ phone
      → check_amount (cell_at mapping cells amount) ≡ cents
      → IsSettled (accept_row mapping line cells names phone cents)
  accept_row-IsSettled [] (accepted number) (inl n) e f g =
      let (named, short) = name_pays (cell_at mapping cells recipient_name) e in
      let (whole, least, most) =
        subst IsPayableAmount g (check_amount-pays (cell_at mapping cells amount)) in
      record {
        name = named;
        short = short;
        phone = (try_normalize_msisdn-idempotent (cell_at mapping cells msisdn) number f).1;
        whole = whole;
        least = least;
        most = most;
      }
  accept_row-IsSettled [] (accepted number) (inr reason) e f g =
      λ h. let (_, _, fine) = no_errors mapping line cells h in cc (ap amount_reasons g, fine)
  accept_row-IsSettled [] (rejected reason) cents e f g =
      λ h. let (_, fine, _) = no_errors mapping line cells h in cc (ap phone_reasons f, fine)
  accept_row-IsSettled (x ∷ xs) phone cents e f g =
      λ h. let (fine, _, _) = no_errors mapping line cells h in cc (e, fine)

  pub check_row-IsSettled : IsSettled (check_row mapping line cells)
  unfolding check_row
  check_row-IsSettled = accept_row-IsSettled _ _ _ refl refl refl

check_rows-IsPayable :
    (mapping : Mapping) (line : ℕ) (grid : List (List Text))
    → All IsPayable (check_rows mapping line grid).rows
unfolding check_rows
check_rows-IsPayable mapping line [] = tt
check_rows-IsPayable mapping line (cells ∷ grid) = elim (Bool-cases (is_blank_line cells)) [
  | inl blank ↦ rw blank (check_rows-IsPayable mapping (suc line) grid)
  | inr full ↦ rw full (
      added (check_row mapping line cells) (check_rows mapping (suc line) grid)
        (check_row-IsSettled mapping line cells) (check_rows-IsPayable mapping (suc line) grid))
]
  where
    added :
        (o : RowOutcome) (rest : Checked)
        → IsSettled o
        → All IsPayable rest.rows
        → All IsPayable (add_outcome o rest).rows
    added (inl errors) rest h hs = hs
    added (inr r) rest h hs = (h, hs)

from_grid :
    (header : List Text) (grid : List (List Text)) (max_rows : ℕ) (result : CsvParseResult)
    → parse_grid (header ∷ grid) max_rows ≡ ok result
    → (length grid ≤ max_rows) × (data_result (map_columns header) grid ≡ result)
unfolding parse_data
from_grid header grid max_rows result h =
    let mapping = map_columns header in
    let found = data_result mapping grid in
    let (_, h1) =
      throw_if-eq-ok (misses_required mapping) (validation_error csv_missing_columns) _ h in
    let (_, h2) =
      throw_if-eq-ok (length grid == 0) (validation_error csv_no_rows)
        (check_size grid max_rows found) h1 in
    let (few, h3) =
      throw_if-eq-ok (ltb max_rows (length grid)) (validation_error csv_too_many_rows) (ok found)
        h2 in
    (ground (arith, few), ok_inj h3)

grid_pays :
    (grid : List (List Text)) (max_rows : ℕ) (result : CsvParseResult)
    → parse_grid grid max_rows ≡ ok result
    → All IsPayable result.rows
      × (result.total_amount_cents ≡ total_amount result.rows)
      × (result.row_count ≤ max_rows)
grid_pays [] max_rows result h = cc
grid_pays (header ∷ grid) max_rows result h =
    let (few, e) = from_grid header grid max_rows result h in
    (
      subst (λ (r : CsvParseResult). All IsPayable r.rows) e
          (check_rows-IsPayable (map_columns header) 2 grid),
      subst (λ (r : CsvParseResult). r.total_amount_cents ≡ total_amount r.rows) e refl,
      subst (λ (r : CsvParseResult). r.row_count ≤ max_rows) e few,
    )

module _ (text : Text) (max_rows : ℕ) (result : CsvParseResult) where
  from_text :
      parse_payment_csv text max_rows ≡ ok result
      → parse_grid (parse_csv_grid text) max_rows ≡ ok result
  unfolding parse_payment_csv
  from_text h =
      let (_, parsed) =
        throw_if-eq-ok (ltb max_csv_bytes (length text)) (validation_error csv_too_large)
          (parse_grid (parse_csv_grid text) max_rows) h in
      parsed

  -- An accepted file is its lines of data, checked under the columns of its first line.
  pub parse_payment_csv-data :
      (header : List Text) (grid : List (List Text))
      → parse_csv_grid text ≡ header ∷ grid
      → parse_payment_csv text max_rows ≡ ok result
      → data_result (map_columns header) grid ≡ result
  parse_payment_csv-data header grid read h =
      (from_grid header grid max_rows result
        (subst (λ g. parse_grid g max_rows ≡ ok result) read (from_text h))).1

-- What a file gives to pay is payable: each row has a name of at most 140 code units, a canonical number
-- and an amount in whole shillings within the provider's limits. The total is that of the rows, and the
-- count of the file's rows is within the limit.
pub parse_payment_csv-IsPayable :
    (text : Text) (max_rows : ℕ) (result : CsvParseResult)
    → parse_payment_csv text max_rows ≡ ok result
    → All IsPayable result.rows
      × (result.total_amount_cents ≡ total_amount result.rows)
      × (result.row_count ≤ max_rows)
parse_payment_csv-IsPayable text max_rows result h =
    grid_pays (parse_csv_grid text) max_rows result (from_text text max_rows result h)
