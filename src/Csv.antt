-- ===== src/Csv.antt =====
-- The reader of uploaded CSV files (packages/core/src/csv.ts, `parseCsvGrid`): a scan of the code units
-- with quotes, separators and line breaks.
pub mod Columns
pub mod Payments
pub mod RoundTrip
pub mod Rows
pub mod Accounts
use slvrn.Prelude.{ℕ, Bool, true, false, not, ◌&&◌, ◌||◌, ◌==◌, List, [], ◌∷◌, ◌++◌, if◌then◌else◌}
use slvrn.Prelude.Text.{Text, trim, is_empty}

-- The variables of the scan.
pub record Scan : Type 0 where
  pub rows : List (List Text)
  pub row : List Text
  pub field : Text
  pub in_quotes : Bool

abbrev pub push_field : Scan → Scan
push_field st = record st { row = st.row ++ st.field ∷ []; field = [] }

-- A row of one blank field is no data.
abbrev pub is_blank_row : List Text → Bool
is_blank_row (cell ∷ []) = is_empty (trim cell)
is_blank_row _ = false

unfoldable pub push_row : Scan → Scan
push_row st =
    let pushed = push_field st in
    record pushed {
      rows = if is_blank_row pushed.row then pushed.rows else pushed.rows ++ pushed.row ∷ [];
      row = [];
    }

abbrev pub append_char : ℕ → Scan → Scan
append_char c st = record st { field = st.field ++ c ∷ [] }

abbrev pub is_quote : Text → Bool
is_quote [] = false
is_quote (c ∷ s) = c == b'"'

abbrev pub is_separator : ℕ → Bool
is_separator c = c == b',' || c == b';' || c == 9

-- One code unit, with what follows it; the flag tells to pass over the next one.
unfoldable pub scan_quoted : ℕ → Text → Scan → Scan × Bool
scan_quoted c next st =
    if c == b'"'
    then if is_quote next
      then (append_char b'"' st, true)
      else (record st { in_quotes = false }, false)
    else (append_char c st, false)

unfoldable pub scan_plain : ℕ → Scan → Scan
scan_plain c st =
    if c == b'"' && is_empty (trim st.field)
    then record st { in_quotes = true; field = [] }
    else if is_separator c
    then push_field st
    else if c == 13
    then st
    else if c == 10
    then push_row st
    else append_char c st

unfoldable pub scan_char : ℕ → Text → Scan → Scan × Bool
scan_char c next st = if st.in_quotes then scan_quoted c next st else (scan_plain c st, false)

unfoldable pub scan : Bool → Scan → Text → Scan
scan skip st [] = st
scan true st (c ∷ s) = scan false st s
scan false st (c ∷ s) = let (st', skip) = scan_char c s st in scan skip st' s

abbrev pub initial : Scan
initial = record { rows = []; row = []; field = []; in_quotes = false }

abbrev pub has_row : List Text → Bool
has_row [] = false
has_row _ = true

unfoldable pub finish : Scan → List (List Text)
finish st = if not (is_empty st.field) || has_row st.row then (push_row st).rows else st.rows

-- The byte order mark.
abbrev pub strip_bom : Text → Text
strip_bom [] = []
strip_bom (c ∷ s) = if c == 0xfeff then s else c ∷ s

unfoldable pub parse_csv_grid : Text → List (List Text)
parse_csv_grid text = finish (scan false initial (strip_bom text))
