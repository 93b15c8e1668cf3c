-- ===== src/Csv/Columns.antt =====
-- The columns of a payment file (packages/core/src/csv.ts, `mapColumns`): headers by their aliases, and
-- the cells of a row by their columns.
use slvrn.Prelude.{
  ℕ, zero, suc, ◌+◌, leb, ◌==◌, map, Bool, true, false, ◌&&◌, ◌||◌, List, [], ◌∷◌, Option, none,
  some, if◌then◌else◌,
}
use slvrn.Prelude.Text.{Text, codes, trim, is_space, text_in}

pub data CsvColumnKey : Type 0 where
  recipient_name msisdn amount department reference remarks : CsvColumnKey

abbrev pub csv_columns : CsvColumnKey → List Text
csv_columns recipient_name =
    codes "recipient name"
    ∷ codes "name"
    ∷ codes "employee name"
    ∷ codes "full name"
    ∷ codes "recipientname"
    ∷ []
csv_columns msisdn =
    codes "phone"
    ∷ codes "phone number"
    ∷ codes "msisdn"
    ∷ codes "mobile"
    ∷ codes "mobile number"
    ∷ codes "telephone"
    ∷ []
csv_columns amount =
    codes "amount"
    ∷ codes "amount kes"
    ∷ codes "amountkes"
    ∷ codes "kes"
    ∷ codes "gross"
    ∷ codes "net pay"
    ∷ codes "netpay"
    ∷ []
csv_columns department =
    codes "department"
    ∷ codes "dept"
    ∷ codes "category"
    ∷ codes "cost centre"
    ∷ codes "cost center"
    ∷ []
csv_columns reference =
    codes "reference"
    ∷ codes "ref"
    ∷ codes "employee id"
    ∷ codes "employee number"
    ∷ codes "staff id"
    ∷ codes "payroll id"
    ∷ []
csv_columns remarks =
    codes "remarks"
    ∷ codes "remark"
    ∷ codes "purpose"
    ∷ codes "description"
    ∷ codes "note"
    ∷ codes "notes"
    ∷ []

-- `toLowerCase`, as far as it matters to the headers, whose letters are ASCII: the Kelvin sign is a k.
abbrev pub lower : ℕ → ℕ
lower c = if leb b'A' c && leb c b'Z' then c + 32 else if c == 0x212a then b'k' else c

-- `replace(/[…]+/g, ' ')`; the flag tells that the code unit before was of the run.
unfoldable pub collapse : (ℕ → Bool) → Bool → Text → Text
collapse p in_run [] = []
collapse p in_run (c ∷ s) =
    let inside = collapse p true s in
    let outside = collapse p false s in
    if p c then if in_run then inside else b' ' ∷ inside else c ∷ outside

abbrev pub is_joiner : ℕ → Bool
is_joiner c = c == b'_' || c == b'-'

unfoldable pub normalize_header : Text → Text
normalize_header h = collapse is_space false (collapse is_joiner false (map lower (trim h)))

abbrev pub next_index : Option ℕ → Option ℕ
next_index none = none
next_index (some i) = some (suc i)

unfoldable pub find_index : List Text → List Text → Option ℕ
find_index aliases [] = none
find_index aliases (h ∷ hs) =
    let rest = next_index (find_index aliases hs) in if text_in h aliases then some 0 else rest

abbrev pub Mapping : Type 0
Mapping = CsvColumnKey → Option ℕ

unfoldable pub map_columns : List Text → Mapping
map_columns header key = find_index (csv_columns key) (map normalize_header header)

unfoldable pub cell : List Text → ℕ → Text
cell [] i = []
cell (c ∷ cells) zero = c
cell (c ∷ cells) (suc i) = cell cells i

unfoldable pub cell_at : Mapping → List Text → CsvColumnKey → Text
cell_at mapping cells key = elim (mapping key) [ none ↦ [] | some i ↦ trim (cell cells i) ]
