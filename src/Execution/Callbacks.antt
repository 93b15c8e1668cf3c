-- ===== src/Execution/Callbacks.antt =====
-- Callbacks of the provider (apps/api/src/queues/callback-processor.ts): the stored callback of a
-- message, each applied by its type in one database transaction.
pub mod B2c
pub mod Status
pub mod Replay
use slvrn.Prelude.{◌+◌, Bool, true, false, ◌++◌, map, Option, none, some, if◌then◌else◌}
use slvrn.Prelude.Text.{Text, codes, text_eq}
use slvrn.Prelude.Number.{ℤ}
use slvrn.Errors.{Result, ok}
use slvrn.Daraja.{
  Value, ResultCallback, parse_b2c_result, parse_transaction_status_result, param,
  parse_account_balances, normalize_result_parameters, OrganizationAccountBalance,
}
use slvrn.Execution.Store.{
  Store, ProviderCallback, CallbackType, b2c_result, b2c_timeout, transaction_status,
  account_balance, applied, find, close_callback,
}
use slvrn.Execution.Callbacks.B2c.{CallbackQueueMessage, apply_b2c_result}
use slvrn.Execution.Callbacks.Status.{apply_transaction_status}

abbrev pub account_snapshot : OrganizationAccountBalance → Text × ℤ
account_snapshot account = (account.account_type, account.available_balance_cents)

unfoldable pub apply_account_balance :
    (Option Value → Option ℤ) → Text → ResultCallback → Store → Store
apply_account_balance to_cents callback_id payload s =
    close_callback callback_id applied (record s {
      balances =
          s.balances
          ++ map account_snapshot (
              parse_account_balances to_cents
                (param (codes "AccountBalance") (normalize_result_parameters payload)));
    })

unfoldable pub apply_callback :
    (Option Value → Option ℤ)
    → CallbackQueueMessage
    → CallbackType
    → ResultCallback
    → Store
    → Result Store
apply_callback to_cents message b2c_result payload s =
    apply_b2c_result message (parse_b2c_result to_cents payload) false s
apply_callback to_cents message b2c_timeout payload s =
    apply_b2c_result message (parse_b2c_result to_cents payload) true s
apply_callback to_cents message transaction_status payload s =
    apply_transaction_status message (parse_transaction_status_result payload) s
apply_callback to_cents message account_balance payload s =
    ok (apply_account_balance to_cents message.callback_id payload s)

-- The stored callback of the message.
abbrev pub callback_for : CallbackQueueMessage → Store → Option ProviderCallback
callback_for message s =
    if text_eq s.organization_id message.organization_id
    then find (λ (c : ProviderCallback). text_eq c.id message.callback_id) s.callbacks
    else none

abbrev pub is_processed : ProviderCallback → Bool
is_processed c = elim c.processing_outcome [ none ↦ false | some _ ↦ true ]

-- A callback that was processed is left alone: a redelivery by the queue.
unfoldable pub process_callback :
    (Option Value → Option ℤ) → CallbackQueueMessage → Store → Result Store
process_callback to_cents message s = elim (callback_for message s) [
  | none ↦ ok s
  | some c ↦
      if is_processed c
      then ok s
      else apply_callback to_cents message c.callback_type c.raw_payload s
]
