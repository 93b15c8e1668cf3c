-- ===== src/Execution/Reconcile.antt =====
-- Queries of a transaction's outcome (apps/api/src/queues/reconciliation-worker.ts). The rows that a
-- sweep picks depend on instants, and are an argument.
pub mod Sweeps
use slvrn.Prelude.{
  ℕ, suc, leb, Bool, false, not, ◌&&◌, ◌||◌, List, [], ◌∷◌, ◌++◌, Option, none, some, if◌then◌else◌,
}
use slvrn.Prelude.Text.{Text, codes, text_eq}
use slvrn.Errors.{Result, ok, err}
use slvrn.Txn.{TxnState, state_eq, is_settled}
use slvrn.Execution.Store.{
  Store, Transaction, Case, opened, escalated, find, update, note, insert_case, is_active_for,
}
use slvrn.Execution.Ledger.{update_transactions}
use slvrn.Execution.Callbacks.Status.{set_case, count_query}

abbrev pub max_query_attempts : ℕ
max_query_attempts = 8

-- No client or configuration; the provider took the query; the query itself failed.
pub data QueryResult : Type 0 where
  unavailable asked query_failed : QueryResult

abbrev pub attempts_of : Option Case → ℕ
attempts_of none = 0
attempts_of (some c) = c.query_attempts

abbrev pub is_unsettled : Text → Transaction → Bool
is_unsettled id t = text_eq t.id id && not (is_settled t.status)

abbrev pub mark_reconciling : Transaction → Transaction
mark_reconciling t = record t {
  status =
      if state_eq t.status TxnState.timeout || state_eq t.status TxnState.awaiting_callback
      then TxnState.reconciling
      else t.status;
}

abbrev pub count_failure : Case → Case
count_failure c = record c { query_attempts = suc c.query_attempts }

abbrev pub set_cases : Text → (Case → Case) → Store → Store
set_cases id f s = record s { cases = update (is_active_for id) f s.cases }

unfoldable pub escalate : Text → Store → Store
escalate id s = note (codes "reconciliation.escalated") (set_cases id (set_case escalated) s)

-- The cases were updated before; a throw of this update is caught like one of the query.
abbrev pub mark_asked : Text → Result (List Transaction) → Store → Store
mark_asked id (err _) s = set_cases id count_failure s
mark_asked id (ok transactions) s = record s { transactions = transactions }

unfoldable pub query : Text → QueryResult → Store → Store
query id unavailable s = s
query id asked s =
    mark_asked id (update_transactions (is_unsettled id) mark_reconciling s.transactions)
      (set_cases id count_query s)
query id query_failed s = set_cases id count_failure s

unfoldable pub query_transaction_status : Text → QueryResult → Store → Store
query_transaction_status id result s =
    if leb max_query_attempts (attempts_of (find (is_active_for id) s.cases))
    then escalate id s
    else query id result s

-- A sweep's first loop; `token` is `randomToken(10)`.
unfoldable pub open_missing_case : Text → Text → Store → Store
open_missing_case id token s = record s {
  cases =
      insert_case
        (record {
          transaction_id = id;
          reference = codes "REC-" ++ token;
          state = opened;
          discrepancy = false;
          query_attempts = 0;
        })
        s.cases;
}

unfoldable pub open_missing_cases : List (Text × Text) → Store → Store
open_missing_cases [] s = s
open_missing_cases ((id, token) ∷ stuck) s = open_missing_cases stuck (open_missing_case id token s)

unfoldable pub query_all : List (Text × Text) → (Text → QueryResult) → Store → Store
query_all [] answers s = s
query_all ((id, _) ∷ stuck) answers s =
    query_all stuck answers (query_transaction_status id (answers id) s)

unfoldable pub sweep_organization : List (Text × Text) → (Text → QueryResult) → Store → Store
sweep_organization stuck answers s = query_all stuck answers (open_missing_cases stuck s)
