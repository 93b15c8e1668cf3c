-- ===== src/Execution/Sound/Queries.antt =====
-- What the queries of reconciliation keep (apps/api/src/queues/reconciliation-worker.ts).
use slvrn.Prelude.{
  ◌≡◌, refl, ◌≢◌, inl, inr, false, ◌||◌, List, [], ◌∷◌, Bool-cases, leb, arith, if◌then◌else◌,
}
use slvrn.Prelude.Text.{Text}
use slvrn.Errors.Returns.{Result-cases}
use slvrn.Txn.{TxnState, TxnState-discrete, is_settled, state_eq}
use slvrn.Txn.Paths.{Reaches, stop, one_move}
use slvrn.Execution.Store.{Store, Transaction, find, is_active_for}
use slvrn.Execution.Ledger.{update_transactions}
use slvrn.Execution.Rows.{Live, Moves, Grows}
use slvrn.Execution.Rows.Updates.{update_rows}
use slvrn.Execution.Claims.{Advance-refl}
use slvrn.Execution.Reconcile.{
  QueryResult, unavailable, asked, query_failed, is_unsettled, mark_reconciling, query, escalate,
  query_transaction_status, attempts_of, max_query_attempts, open_missing_case, open_missing_cases,
  query_all, sweep_organization,
}
use slvrn.Batch.Driven.{Driven-refl}
use slvrn.Execution.Sound.{Follows, Follows-refl, Follows-trans, aside}

abbrev asks : TxnState → TxnState
asks s =
    if state_eq s TxnState.timeout || state_eq s TxnState.awaiting_callback
    then TxnState.reconciling
    else s

asks-Reaches : (s : TxnState) → Reaches s (asks s)
unfolding state_eq TxnState-discrete
asks-Reaches TxnState.timeout = one_move refl
asks-Reaches TxnState.awaiting_callback = one_move refl
asks-Reaches _ = stop

asks_open :
    (s : TxnState) → is_settled s ≡ false → (asks s ≢ TxnState.success) × (asks s ≢ TxnState.failed)
unfolding is_settled state_eq TxnState-discrete
asks_open s h = ground arith

reconciling-Moves : (t : Transaction) → is_settled t.status ≡ false → Moves mark_reconciling t
reconciling-Moves t moving = record {
  id = refl;
  instruction_id = refl;
  batch_id = refl;
  originator = refl;
  status = asks-Reaches t.status;
  backed = record {
    paid = λ e. absurd ((asks_open t.status moving).0 e);
    explained = λ e. absurd ((asks_open t.status moving).1 e);
  };
}

module _ (id : Text) (s : Store) (live : Live s.transactions) where
  asked-Follows : Follows s (query id asked s)
  unfolding query
  asked-Follows =
      let updated = update_transactions (is_unsettled id) mark_reconciling s.transactions in
      let kept =
        update_rows (is_unsettled id) mark_reconciling s.transactions live (λ t. refl)
          (λ t m hit permitted. reconciling-Moves t (ground arith)) in
      elim (Result-cases updated) [
        | inl (e, h) ↦ rw h (aside s _ live refl refl refl)
        | inr (us, h) ↦
            let result : Grows s.transactions us × Live us = rw h at kept in
            rw h (record {
              rows = result.0;
              live = result.1;
              claims = Advance-refl s.claims;
              batch = Driven-refl s.state;
            })
      ]

  query-Follows : (result : QueryResult) → Follows s (query id result s)
  unfolding query
  query-Follows unavailable = Follows-refl s live
  query-Follows asked = asked-Follows
  query-Follows query_failed = aside s _ live refl refl refl

  query_transaction_status-Follows :
      (result : QueryResult) → Follows s (query_transaction_status id result s)
  unfolding query_transaction_status escalate
  query_transaction_status-Follows result =
      elim (Bool-cases (leb max_query_attempts (attempts_of (find (is_active_for id) s.cases)))) [
        | inl spent ↦ rw spent (aside s _ live refl refl refl)
        | inr more ↦ rw more (query-Follows result)
      ]

open_missing_cases-Follows :
    (stuck : List (Text × Text)) (s : Store)
    → Live s.transactions
    → Follows s (open_missing_cases stuck s)
unfolding open_missing_cases open_missing_case
open_missing_cases-Follows [] s live = Follows-refl s live
open_missing_cases-Follows ((id, token) ∷ stuck) s live =
    let opened_one = aside s (open_missing_case id token s) live refl refl refl in
    Follows-trans s _ _ opened_one
      (open_missing_cases-Follows stuck (open_missing_case id token s) opened_one.live)

query_all-Follows :
    (stuck : List (Text × Text)) (answers : Text → QueryResult) (s : Store)
    → Live s.transactions
    → Follows s (query_all stuck answers s)
unfolding query_all
query_all-Follows [] answers s live = Follows-refl s live
query_all-Follows ((id, token) ∷ stuck) answers s live =
    let one = query_transaction_status-Follows id s live (answers id) in
    Follows-trans s _ _ one
      (query_all-Follows stuck answers (query_transaction_status id (answers id) s) one.live)

pub sweep_organization-Follows :
    (stuck : List (Text × Text)) (answers : Text → QueryResult) (s : Store)
    → Live s.transactions
    → Follows s (sweep_organization stuck answers s)
unfolding sweep_organization
sweep_organization-Follows stuck answers s live =
    let first = open_missing_cases-Follows stuck s live in
    Follows-trans s _ _ first
      (query_all-Follows stuck answers (open_missing_cases stuck s) first.live)
