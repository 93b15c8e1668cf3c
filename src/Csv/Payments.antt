-- ===== src/Csv/Payments.antt =====
-- The payment batch in a CSV file (packages/core/src/csv.ts, `parsePaymentCsv`): the checks of
-- each row, duplicates and the total. The reasons are constructors.
use slvrn.Prelude.{
  ℕ, suc, ◌+◌, ◌%◌, ltb, ◌==◌, map, Bool, true, false, not, ◌||◌, List, [], ◌∷◌, ◌++◌, Option, none,
  some, all, length, keep_if, ◌⊎◌, inl, inr, if◌then◌else◌,
}
use slvrn.Prelude.Text.{Text, trim, is_empty, text_eq}
use slvrn.Prelude.Number.{ℤ, pos, negsuc}
use slvrn.Prelude.Decimal.{decimal}
use slvrn.Errors.{
  Result, ok, err, throw, ◌>>◌, throw_if, validation_error, csv_too_large, csv_empty,
  csv_missing_columns, csv_no_rows, csv_too_many_rows,
}
use slvrn.Money.{parse_amount_to_cents, daraja_b2c_min_cents, daraja_b2c_max_cents}
use slvrn.Msisdn.{MsisdnParseResult, accepted, rejected, Reason, try_normalize_msisdn}
use slvrn.Export.{starts_formula}
use slvrn.Csv.{parse_csv_grid}
use slvrn.Csv.Columns.{
  CsvColumnKey, recipient_name, msisdn, amount, department, reference, remarks, Mapping,
  map_columns, cell_at,
}

abbrev pub max_csv_rows : ℕ
max_csv_rows = 20000

abbrev pub max_csv_bytes : ℕ
max_csv_bytes = 8388608

pub record ParsedRow : Type 0 where
  pub line_number : ℕ
  pub recipient_name : Text
  pub msisdn : Text
  pub amount_cents : ℕ
  pub department : Option Text
  pub reference : Option Text
  pub remarks : Option Text

pub data RowReason : Type 0 where
  name_required name_too_long formula not_positive fractional below_minimum above_maximum
        not_a_number :
      RowReason
  bad_phone : Reason → RowReason

pub record RowError : Type 0 where
  pub line_number : ℕ
  pub column : CsvColumnKey
  pub value : Text
  pub reason : RowReason

abbrev pub name_reasons : Text → List RowReason
name_reasons name =
    if is_empty name
    then name_required ∷ []
    else if ltb 140 (length name)
    then name_too_long ∷ []
    else []

-- The checks of an amount that was read.
unfoldable pub check_cents : ℤ → ℕ ⊎ RowReason
check_cents (negsuc n) = inr not_positive
check_cents (pos n) =
    if n == 0
    then inr not_positive
    else if not (n % 100 == 0)
    then inr fractional
    else if ltb n daraja_b2c_min_cents
    then inr below_minimum
    else if ltb daraja_b2c_max_cents n
    then inr above_maximum
    else inl n

abbrev pub check_parsed : Result ℤ → ℕ ⊎ RowReason
check_parsed (err _) = inr not_a_number
check_parsed (ok cents) = check_cents cents

unfoldable pub check_amount : Text → ℕ ⊎ RowReason
check_amount raw =
    if starts_formula raw then inr formula else check_parsed (parse_amount_to_cents raw)

abbrev pub phone_reasons : MsisdnParseResult → List RowReason
phone_reasons (accepted _) = []
phone_reasons (rejected reason) = bad_phone reason ∷ []

abbrev pub amount_reasons : ℕ ⊎ RowReason → List RowReason
amount_reasons (inl _) = []
amount_reasons (inr reason) = reason ∷ []

abbrev pub row_error : ℕ → CsvColumnKey → Text → RowReason → RowError
row_error line_number column value reason = record {
  line_number = line_number;
  column = column;
  value = value;
  reason = reason;
}

-- `text || null`.
abbrev pub or_null : Text → Option Text
or_null [] = none
or_null (c ∷ s) = some (c ∷ s)

-- What becomes of a row: its errors, or the row that is paid.
abbrev pub RowOutcome : Type 0
RowOutcome = List RowError ⊎ ParsedRow

abbrev pub row_errors : Mapping → ℕ → List Text → List RowError
row_errors mapping line cells =
    let name = cell_at mapping cells recipient_name in
    let phone = cell_at mapping cells msisdn in
    let raw = cell_at mapping cells amount in
    map (row_error line recipient_name name) (name_reasons name)
    ++ (map (row_error line msisdn phone) (phone_reasons (try_normalize_msisdn phone))
        ++ map (row_error line amount raw) (amount_reasons (check_amount raw)))

abbrev pub parsed_row : Mapping → ℕ → List Text → Text → ℕ → ParsedRow
parsed_row mapping line cells number cents = record {
  line_number = line;
  recipient_name = cell_at mapping cells recipient_name;
  msisdn = number;
  amount_cents = cents;
  department = or_null (cell_at mapping cells department);
  reference = or_null (cell_at mapping cells reference);
  remarks = or_null (cell_at mapping cells remarks);
}

abbrev pub accept_row :
    Mapping → ℕ → List Text → List RowReason → MsisdnParseResult → ℕ ⊎ RowReason → RowOutcome
accept_row mapping line cells [] (accepted number) (inl cents) =
    inr (parsed_row mapping line cells number cents)
accept_row mapping line cells names phone cents = inl (row_errors mapping line cells)

unfoldable pub check_row : Mapping → ℕ → List Text → RowOutcome
check_row mapping line cells =
    accept_row mapping line cells (name_reasons (cell_at mapping cells recipient_name))
      (try_normalize_msisdn (cell_at mapping cells msisdn))
      (check_amount (cell_at mapping cells amount))

abbrev pub is_blank_line : List Text → Bool
is_blank_line = all (λ c. is_empty (trim c))

pub record Checked : Type 0 where
  pub rows : List ParsedRow
  pub errors : List RowError

abbrev pub add_outcome : RowOutcome → Checked → Checked
add_outcome (inl errors) rest = record rest { errors = errors ++ rest.errors }
add_outcome (inr row) rest = record rest { rows = row ∷ rest.rows }

-- The loop over the rows of data, with the number of the first one's line.
unfoldable pub check_rows : Mapping → ℕ → List (List Text) → Checked
check_rows mapping line [] = record { rows = []; errors = [] }
check_rows mapping line (cells ∷ grid) =
    let rest = check_rows mapping (suc line) grid in
    if is_blank_line cells then rest else add_outcome (check_row mapping line cells) rest

-- One entry of `byKey`: a recipient and an amount, with the lines that have both.
pub record Duplicate : Type 0 where
  pub key : Text
  pub msisdn : Text
  pub amount_cents : ℕ
  pub line_numbers : List ℕ

abbrev pub duplicate_key : ParsedRow → Text
duplicate_key r = r.msisdn ++ (b':' ∷ decimal r.amount_cents)

unfoldable pub add_line : ParsedRow → List Duplicate → List Duplicate
add_line r [] =
    record {
      key = duplicate_key r;
      msisdn = r.msisdn;
      amount_cents = r.amount_cents;
      line_numbers = r.line_number ∷ [];
    }
    ∷ []
add_line r (d ∷ ds) =
    let rest = d ∷ add_line r ds in
    if text_eq d.key (duplicate_key r)
    then record d { line_numbers = d.line_numbers ++ r.line_number ∷ [] } ∷ ds
    else rest

unfoldable pub group_rows : List ParsedRow → List Duplicate → List Duplicate
group_rows [] ds = ds
group_rows (r ∷ rs) ds = group_rows rs (add_line r ds)

unfoldable pub duplicate_warnings : List ParsedRow → List Duplicate
duplicate_warnings rows =
    keep_if (λ (d : Duplicate). ltb 1 (length d.line_numbers)) (group_rows rows [])

unfoldable pub total_amount : List ParsedRow → ℕ
total_amount [] = 0
total_amount (r ∷ rs) = r.amount_cents + total_amount rs

pub record CsvParseResult : Type 0 where
  pub rows : List ParsedRow
  pub errors : List RowError
  pub duplicates : List Duplicate
  pub total_amount_cents : ℕ
  pub column_mapping : Mapping
  pub row_count : ℕ

abbrev pub is_missing : Mapping → CsvColumnKey → Bool
is_missing mapping key = elim (mapping key) [ none ↦ true | some _ ↦ false ]

abbrev pub misses_required : Mapping → Bool
misses_required mapping =
    is_missing mapping recipient_name || is_missing mapping msisdn || is_missing mapping amount

abbrev pub data_result : Mapping → List (List Text) → CsvParseResult
data_result mapping grid =
    let checked = check_rows mapping 2 grid in
    record {
      rows = checked.rows;
      errors = checked.errors;
      duplicates = duplicate_warnings checked.rows;
      total_amount_cents = total_amount checked.rows;
      column_mapping = mapping;
      row_count = length grid;
    }

abbrev pub check_size : List (List Text) → ℕ → CsvParseResult → Result CsvParseResult
check_size grid max_rows result =
    throw_if (ltb max_rows (length grid)) (validation_error csv_too_many_rows) >> ok result

unfoldable pub parse_data : List Text → List (List Text) → ℕ → Result CsvParseResult
parse_data header grid max_rows = do
  throw_if (misses_required (map_columns header)) (validation_error csv_missing_columns)
  throw_if (length grid == 0) (validation_error csv_no_rows)
  check_size grid max_rows (data_result (map_columns header) grid)

abbrev pub parse_grid : List (List Text) → ℕ → Result CsvParseResult
parse_grid [] max_rows = throw (validation_error csv_empty)
parse_grid (header ∷ grid) max_rows = parse_data header grid max_rows

-- `options.maxRows` is `max_csv_rows` if it is left out.
unfoldable pub parse_payment_csv : Text → ℕ → Result CsvParseResult
parse_payment_csv text max_rows = do
  throw_if (ltb max_csv_bytes (length text)) (validation_error csv_too_large)
  parse_grid (parse_csv_grid text) max_rows
