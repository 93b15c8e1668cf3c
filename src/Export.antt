-- ===== src/Export.antt =====
-- The export of failed transactions as CSV (packages/core/src/export-csv.ts).
pub mod Laws
use slvrn.Prelude.{
  ℕ, ◌≡◌, Bool, true, false, ◌||◌, List, [], ◌∷◌, ◌++◌, map, Option, none, some, if◌then◌else◌,
  ◌==◌,
}
use slvrn.Prelude.Text.{Text, codes}
use slvrn.Prelude.Decimal.{decimal}
use slvrn.Prelude.Join.{join}
use slvrn.Prelude.Number.{ℤ}
use slvrn.Money.{format_cents}
use slvrn.Txn.{
  TxnState, pending, submitted, awaiting_callback, processing, reconciling, success, failed,
  timeout, cancelled,
}

-- The name of a state in the source.
abbrev pub state_text : TxnState → Text
state_text pending = codes "PENDING"
state_text submitted = codes "SUBMITTED"
state_text awaiting_callback = codes "AWAITING_CALLBACK"
state_text processing = codes "PROCESSING"
state_text reconciling = codes "RECONCILING"
state_text success = codes "SUCCESS"
state_text failed = codes "FAILED"
state_text timeout = codes "TIMEOUT"
state_text cancelled = codes "CANCELLED"

pub record TransactionExportRow : Type 0 where
  pub batch_reference : Text
  pub batch_id : Text
  pub instruction_id : Text
  pub recipient_name : Text
  pub msisdn : Text
  pub department_name : Option Text
  pub amount_cents : ℤ
  pub status : TxnState
  pub failure_code : Option Text
  pub failure_reason : Option Text
  pub provider_result_description : Option Text
  pub mpesa_receipt_number : Option Text
  pub conversation_id : Option Text
  pub originator_conversation_id : Option Text
  pub submitted_at : Option Text
  pub last_updated_at : Text
  pub last_status_check_at : Option Text
  pub status_source : Option Text

abbrev pub failed_export_headers : List Text
failed_export_headers =
    codes "BatchReference"
    ∷ codes "BatchID"
    ∷ codes "InstructionID"
    ∷ codes "RecipientName"
    ∷ codes "MSISDN"
    ∷ codes "Department"
    ∷ codes "AmountKES"
    ∷ codes "Status"
    ∷ codes "FailureCode"
    ∷ codes "FailureReason"
    ∷ codes "ProviderResultDescription"
    ∷ codes "MPESAReceiptNo"
    ∷ codes "ConversationID"
    ∷ codes "OriginatorConversationID"
    ∷ codes "SubmittedAt"
    ∷ codes "LastUpdatedAt"
    ∷ codes "LastStatusCheckAt"
    ∷ codes "StatusSource"
    ∷ []

-- `[=+\-@\t\r]`.
abbrev pub is_trigger : ℕ → Bool
is_trigger c = c == b'=' || c == b'+' || c == b'-' || c == b'@' || c == 9 || c == 13

-- `FORMULA_TRIGGER.test(text)`.
abbrev pub starts_formula : Text → Bool
starts_formula [] = false
starts_formula (c ∷ _) = is_trigger c

-- `[",\n\r]`.
abbrev pub is_special : ℕ → Bool
is_special c = c == b'"' || c == b',' || c == 10 || c == 13

unfoldable pub has_special : Text → Bool
has_special [] = false
has_special (c ∷ s) = is_special c || has_special s

-- `replace(/"/g, '""')`.
unfoldable pub double_quotes : Text → Text
double_quotes [] = []
double_quotes (c ∷ s) =
    let rest = double_quotes s in if c == b'"' then b'"' ∷ b'"' ∷ rest else c ∷ rest

abbrev pub guard_formula : Text → Text
guard_formula text = if starts_formula text then b'\'' ∷ text else text

abbrev pub quote_field : Text → Text
quote_field text = if has_special text then b'"' ∷ (double_quotes text ++ b'"' ∷ []) else text

-- A field is a text, or null or undefined; a number is given by its text.
unfoldable pub escape_csv_field : Option Text → Text
unfolding has_special double_quotes
escape_csv_field none = []
escape_csv_field (some []) = []
escape_csv_field (some (c ∷ s)) = quote_field (guard_formula (c ∷ s))

unfoldable pub build_csv_line : List (Option Text) → Text
unfolding escape_csv_field join
build_csv_line fields = join b',' (map escape_csv_field fields)

pub record ExportMetadata : Type 0 where
  pub export_id : Text
  pub organization_id : Text
  pub generated_at : Text
  pub generated_by_user_id : Text
  pub generated_by_level : Text
  pub filter_description : Text
  pub row_count : ℕ

-- `replace(/[\r\n]+/g, ' ')`; the flag tells that the code unit before was a line break.
unfoldable pub one_line : Bool → Text → Text
one_line after_break [] = []
one_line after_break (c ∷ s) =
    let in_break = one_line true s in
    let outside = one_line false s in
    if c == 10 || c == 13 then if after_break then in_break else b' ' ∷ in_break else c ∷ outside

abbrev pub provenance : ExportMetadata → List Text
provenance metadata =
    (b'#' ∷ codes " SOLVAREN Payment Solutions " ++ 0x2014 ∷ codes " failed transactions export")
    ∷ (codes "# Export ID: " ++ metadata.export_id)
    ∷ (codes "# Generated at: " ++ metadata.generated_at)
    ∷ (codes "# Generated by: "
        ++ metadata.generated_by_user_id
        ++ codes " ("
        ++ metadata.generated_by_level
        ++ codes ")")
    ∷ (codes "# Filter: " ++ one_line false metadata.filter_description)
    ∷ (codes "# Rows: " ++ decimal metadata.row_count)
    ∷ codes "# Source: authoritative payment ledger. Amounts in KES."
    ∷ []

abbrev pub row_fields : TransactionExportRow → List (Option Text)
row_fields r =
    some r.batch_reference
    ∷ some r.batch_id
    ∷ some r.instruction_id
    ∷ some r.recipient_name
    ∷ some r.msisdn
    ∷ r.department_name
    ∷ some (format_cents r.amount_cents)
    ∷ some (state_text r.status)
    ∷ r.failure_code
    ∷ r.failure_reason
    ∷ r.provider_result_description
    ∷ r.mpesa_receipt_number
    ∷ r.conversation_id
    ∷ r.originator_conversation_id
    ∷ r.submitted_at
    ∷ some r.last_updated_at
    ∷ r.last_status_check_at
    ∷ r.status_source
    ∷ []

abbrev pub row_line : TransactionExportRow → Text
row_line r = build_csv_line (row_fields r)

-- `lines.join('\r\n') + '\r\n'`: every line with its line break.
unfoldable pub with_breaks : List Text → Text
with_breaks [] = []
with_breaks (l ∷ ls) = l ++ (13 ∷ 10 ∷ with_breaks ls)

unfoldable pub render_failed_transactions_csv :
    List TransactionExportRow → ExportMetadata → Bool → Text
unfolding with_breaks
render_failed_transactions_csv rows metadata include_provenance_header =
    let table = join b',' failed_export_headers ∷ map row_line rows in
    if include_provenance_header
    then with_breaks (provenance metadata ++ table)
    else with_breaks table
