-- ===== src/Execution/Ledger.antt =====
-- Updates of the transactions table under its trigger guard_transaction_update
-- (db/migrations/0003_audit_immutability.sql): an update that the trigger forbids raises, and with it
-- the whole database transaction is undone.
use slvrn.Prelude.{
  Bool, true, false, ◌&&◌, ◌||◌, not, List, [], ◌∷◌, Option, none, some, if◌then◌else◌,
}
use slvrn.Prelude.Text.{Text, text_eq}
use slvrn.Errors.{Result, ok, throw, solvaren_error, internal, immutability_violation, ◌>>=◌}
use slvrn.Txn.{is_settled, state_eq}
use slvrn.Execution.Store.{Transaction}

-- `OLD.x IS NOT NULL AND NEW.x IS DISTINCT FROM OLD.x`.
abbrev pub rewrites : Option Text → Option Text → Bool
rewrites none new = false
rewrites (some t) none = true
rewrites (some t) (some u) = not (text_eq t u)

-- The identifying columns are in no update.
unfoldable pub is_forbidden : Transaction → Transaction → Bool
is_forbidden old new =
    is_settled old.status && not (state_eq new.status old.status)
    || rewrites old.mpesa_receipt_number new.mpesa_receipt_number
    || rewrites old.failure_code new.failure_code && is_settled old.status

unfoldable pub update_transactions :
    (Transaction → Bool)
    → (Transaction → Transaction)
    → List Transaction
    → Result (List Transaction)
update_transactions p f [] = ok []
update_transactions p f (t ∷ ts) = do
  rest ← update_transactions p f ts
  if p t
      then (if is_forbidden t (f t)
          then throw (solvaren_error internal immutability_violation)
          else ok (f t ∷ rest))
      else ok (t ∷ rest)
