-- ===== src/Daraja.antt =====
-- Daraja's result callbacks (packages/daraja/src/callbacks.ts): what the schema lets through, its
-- fields, and the meaning of a transaction status. Instants and the recipient's name are left out.
use slvrn.Prelude.{
  ℕ, ◌+◌, leb, ◌==◌, map, Bool, ◌&&◌, List, [], ◌∷◌, ◌++◌, Option, none, some, if◌then◌else◌,
}
use slvrn.Prelude.Text.{Text, codes, trim, is_empty, text_eq, text_in}
use slvrn.Prelude.Number.{Number, number_text, ℤ, pos}

-- `string | number`.
pub data Value : Type 0 where
  string : Text → Value
  number : Number → Value

-- `String(value)`.
abbrev pub value_text : Value → Text
value_text (string s) = s
value_text (number n) = number_text n

-- `{ Key: string; Value?: string | number }`.
abbrev pub Entry : Type 0
Entry = Text × Option Value

-- `Result`; a parameter that stands alone is a list of one, an absent one the empty list.
pub record ResultCallback : Type 0 where
  pub result_code : Value
  pub result_desc : Option Text
  pub originator_conversation_id : Option Text
  pub conversation_id : Option Text
  pub transaction_id : Option Text
  pub result_parameters : List Entry
  pub reference_items : List Entry

-- The record is filled in order, so the last entry of a key counts.
abbrev pub normalize_result_parameters : ResultCallback → List Entry
normalize_result_parameters callback = callback.result_parameters ++ callback.reference_items

unfoldable pub param : Text → List Entry → Option Value
param key [] = none
param key ((k, value) ∷ entries) =
    let rest = param key entries in
    if text_in key (map (λ (e : Entry). e.0) entries)
    then rest
    else if text_eq key k
    then value
    else none

abbrev pub non_empty : Text → Option Text
non_empty s = if is_empty s then none else some s

unfoldable pub to_string_value : Option Value → Option Text
to_string_value none = none
to_string_value (some value) = non_empty (trim (value_text value))

-- `a ?? b`.
abbrev pub or_else {ℓ} : {A : Type ℓ} → Option A → Option A → Option A
or_else none b = b
or_else (some a) b = some a

abbrev pub text_value : Option Text → Option Text
text_value none = none
text_value (some t) = to_string_value (some (string t))

abbrev pub description_of : Option Text → Text
description_of none = []
description_of (some t) = trim t

pub record ParsedB2cResult : Type 0 where
  pub result_code : Text
  pub result_description : Text
  pub originator_conversation_id : Option Text
  pub conversation_id : Option Text
  pub transaction_receipt : Option Text
  pub utility_account_balance_cents : Option ℤ
  pub working_account_balance_cents : Option ℤ
  pub charges_paid_account_balance_cents : Option ℤ
  pub succeeded : Bool

pub record ParsedTransactionStatusResult : Type 0 where
  pub result_code : Text
  pub result_description : Text
  pub originator_conversation_id : Option Text
  pub conversation_id : Option Text
  pub receipt_number : Option Text
  pub transaction_status : Option Text

abbrev pub code_of : ResultCallback → Text
code_of callback = trim (value_text callback.result_code)

-- `to_cents` is `toCents`, which goes through `Number` and rounds.
unfoldable pub parse_b2c_result : (Option Value → Option ℤ) → ResultCallback → ParsedB2cResult
parse_b2c_result to_cents callback =
    let params = normalize_result_parameters callback in
    record {
      result_code = code_of callback;
      result_description = description_of callback.result_desc;
      originator_conversation_id = text_value callback.originator_conversation_id;
      conversation_id = text_value callback.conversation_id;
      transaction_receipt =
          or_else (to_string_value (param (codes "TransactionReceipt") params))
            (text_value callback.transaction_id);
      utility_account_balance_cents =
          to_cents (param (codes "B2CUtilityAccountAvailableFunds") params);
      working_account_balance_cents =
          to_cents (param (codes "B2CWorkingAccountAvailableFunds") params);
      charges_paid_account_balance_cents =
          to_cents (param (codes "B2CChargesPaidAccountAvailableFunds") params);
      succeeded = text_eq (code_of callback) (codes "0");
    }

unfoldable pub parse_transaction_status_result : ResultCallback → ParsedTransactionStatusResult
parse_transaction_status_result callback =
    let params = normalize_result_parameters callback in
    record {
      result_code = code_of callback;
      result_description = description_of callback.result_desc;
      originator_conversation_id =
          or_else (to_string_value (param (codes "OriginatorConversationID") params))
            (text_value callback.originator_conversation_id);
      conversation_id =
          or_else (to_string_value (param (codes "ConversationID") params))
            (text_value callback.conversation_id);
      receipt_number =
          or_else (to_string_value (param (codes "ReceiptNo") params))
            (text_value callback.transaction_id);
      transaction_status = to_string_value (param (codes "TransactionStatus") params);
    }

pub data StatusOutcome : Type 0 where
  success failed pending unknown : StatusOutcome

-- `toLowerCase`, on the letters that the words below have.
abbrev pub lower : ℕ → ℕ
lower c = if leb b'A' c && leb c b'Z' then c + 32 else c

abbrev pub failed_words : List Text
failed_words = codes "cancelled" ∷ codes "declined" ∷ codes "expired" ∷ []

abbrev pub pending_words : List Text
pending_words = codes "initiated" ∷ codes "authorized" ∷ codes "pending authorized" ∷ []

unfoldable pub classify_status : Text → StatusOutcome
classify_status word =
    if text_eq word (codes "completed")
    then success
    else if text_in word failed_words
    then failed
    else if text_in word pending_words
    then pending
    else unknown

unfoldable pub interpret_transaction_status : Option Text → StatusOutcome
interpret_transaction_status none = unknown
interpret_transaction_status (some status) =
    if is_empty status then unknown else classify_status (map lower (trim status))

-- `resolveFailure(code, …).failureCode` (packages/core/src/failure-reasons.ts).
unfoldable pub resolved_failure_code : Option Text → Text
resolved_failure_code none = codes "SLV_UNSPECIFIED"
resolved_failure_code (some raw) = if is_empty (trim raw) then codes "SLV_UNSPECIFIED" else trim raw

pub record OrganizationAccountBalance : Type 0 where
  pub account_type : Text
  pub currency : Text
  pub available_balance_cents : ℤ
  pub uncleared_balance_cents : ℤ
  pub reserved_balance_cents : ℤ

-- `text.split(c)`.
abbrev pub on_first : (Text → Text) → List Text → List Text
on_first f [] = []
on_first f (x ∷ xs) = f x ∷ xs

unfoldable pub split : ℕ → Text → List Text
split sep [] = [] ∷ []
split sep (c ∷ s) = let rest = split sep s in if c == sep then [] ∷ rest else on_first (◌∷◌ c) rest

abbrev pub field_cents : (Option Value → Option ℤ) → Option Text → ℤ
field_cents to_cents field = elim field [
  | none ↦ pos 0
  | some text ↦ elim (to_cents (some (string text))) [ none ↦ pos 0 | some cents ↦ cents ]
]

abbrev pub first_field : List Text → Option Text
first_field [] = none
first_field (x ∷ xs) = some x

abbrev pub drop_first : List Text → List Text
drop_first [] = []
drop_first (x ∷ xs) = xs

-- The accounts of one segment: none if it has fewer than three fields.
abbrev pub account_of : (Option Value → Option ℤ) → List Text → List OrganizationAccountBalance
account_of to_cents (name ∷ currency ∷ available ∷ more) =
    record {
      account_type = trim name;
      currency = trim currency;
      available_balance_cents = field_cents to_cents (some available);
      uncleared_balance_cents = field_cents to_cents (first_field more);
      reserved_balance_cents = field_cents to_cents (first_field (drop_first more));
    }
    ∷ []
account_of to_cents _ = []

unfoldable pub parse_segments :
    (Option Value → Option ℤ) → List Text → List OrganizationAccountBalance
parse_segments to_cents [] = []
parse_segments to_cents (segment ∷ segments) =
    let rest = parse_segments to_cents segments in
    if is_empty (trim segment) then rest else account_of to_cents (split b'|' segment) ++ rest

unfoldable pub parse_account_balances :
    (Option Value → Option ℤ) → Option Value → List OrganizationAccountBalance
parse_account_balances to_cents raw = elim (to_string_value raw) [
  | none ↦ []
  | some s ↦ parse_segments to_cents (split b'&' s)
]
