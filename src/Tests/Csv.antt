-- ===== src/Tests/Csv.antt =====
-- The theorems on CSV files at small files.
use slvrn.Prelude.{◌≡◌, refl, inl, inr, ◌≤◌, All, List, [], ◌∷◌, ◌++◌, some}
use slvrn.Prelude.Text.{Text, codes, trim, text_in, text_eq}
use slvrn.Errors.{ok}
use slvrn.Prelude.Join.{join}
use slvrn.Export.{has_special, escape_csv_field, build_csv_line}
use slvrn.Csv.{parse_csv_grid, finish, scan, scan_char, scan_plain, scan_quoted, push_row}
use slvrn.Csv.RoundTrip.{IsPlain, parse_csv_grid-build_csv_line}
use slvrn.Csv.Columns.{map_columns, find_index, normalize_header, collapse}
use slvrn.Csv.Payments.{
  CsvParseResult, total_amount, parse_payment_csv, data_result, parse_data, max_csv_rows,
}
use slvrn.Csv.Rows.{IsPayable, parse_payment_csv-IsPayable}

-- A separator and quotes, which the export quotes, and a formula.
digits-IsPlain : All IsPlain (codes "'-2")
digits-IsPlain = (
  record { quote = refl; separator = refl; return = refl; newline = refl },
  (
    record { quote = refl; separator = refl; return = refl; newline = refl },
    (record { quote = refl; separator = refl; return = refl; newline = refl }, tt),
  ),
)

parse_csv_grid-build_csv_line_example :
    parse_csv_grid (build_csv_line (some (codes "a,\"b\"") ∷ some (codes "-2") ∷ []))
    ≡ (codes "a,\"b\"" ∷ codes "'-2" ∷ []) ∷ []
unfolding has_special build_csv_line escape_csv_field join
parse_csv_grid-build_csv_line_example =
    parse_csv_grid-build_csv_line (codes "a,\"b\"") (codes "-2" ∷ [])
      (inl refl, (inr digits-IsPlain, tt)) refl refl

abbrev file : Text
file = codes "Name,Phone,Amount" ++ (10 ∷ codes "Amina,0711000001,\"1,500\"")

abbrev parsed : CsvParseResult
parsed =
    data_result (map_columns (codes "Name" ∷ codes "Phone" ∷ codes "Amount" ∷ []))
      ((codes "Amina" ∷ codes "0711000001" ∷ codes "1,500" ∷ []) ∷ [])

file_parses : parse_payment_csv file max_csv_rows ≡ ok parsed
unfolding parse_payment_csv parse_csv_grid finish scan scan_char scan_plain push_row trim
    scan_quoted parse_data map_columns find_index text_in text_eq normalize_header collapse
file_parses = refl

parse_payment_csv-IsPayable_example :
    All IsPayable parsed.rows
    × (parsed.total_amount_cents ≡ total_amount parsed.rows)
    × (parsed.row_count ≤ max_csv_rows)
parse_payment_csv-IsPayable_example =
    parse_payment_csv-IsPayable file max_csv_rows parsed file_parses

-- A blank line of the file's second row, a row that is paid and one that has an amount of cents.
abbrev mixed : Text
mixed =
    codes "Name,Phone,Amount"
    ++ (10
        ∷ (codes " , ,"
            ++ (10 ∷ (codes "Amina,0711000001,15" ++ (10 ∷ codes "Baraka,0711000002,1.50")))))

abbrev header_cells : List Text
header_cells = codes "Name" ∷ codes "Phone" ∷ codes "Amount" ∷ []

abbrev mixed_cells : List (List Text)
mixed_cells =
    (codes " " ∷ codes " " ∷ codes "" ∷ [])
    ∷ (codes "Amina" ∷ codes "0711000001" ∷ codes "15" ∷ [])
    ∷ (codes "Baraka" ∷ codes "0711000002" ∷ codes "1.50" ∷ [])
    ∷ []

abbrev mixed_result : CsvParseResult
mixed_result = data_result (map_columns header_cells) mixed_cells
