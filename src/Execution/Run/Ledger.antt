-- ===== src/Execution/Run/Ledger.antt =====
-- The ledger under every interleaving of the workers (apps/api/src/queues).
use slvrn.Prelude.{◌≡◌, refl, true, List, [], ◌∷◌, Memᴰ, Option, some}
use slvrn.Prelude.Text.{Text}
use slvrn.Prelude.Number.{ℤ}
use slvrn.Errors.{Result, ok, err}
use slvrn.Errors.Returns.{Returns}
use slvrn.Daraja.{Value}
use slvrn.Txn.{is_settled}
use slvrn.Txn.Paths.{settled_stays}
use slvrn.Batch.Driven.{Driven}
use slvrn.Execution.Store.{Store, Transaction}
use slvrn.Execution.Rows.{Live, Grows, Evolves}
use slvrn.Execution.Submit.{Prepared}
use slvrn.Execution.Sound.{Follows, Follows-refl, Follows-trans}
use slvrn.Execution.Sound.Submission.{Prepares, prepare_submission-Prepares}
use slvrn.Execution.Sound.Answers.{record_answer-Follows, mark_for_reconciliation-Follows}
use slvrn.Execution.Sound.Results.{process_callback-Follows}
use slvrn.Execution.Sound.Queries.{sweep_organization-Follows}
use slvrn.Execution.Run.{
  Event, prepared, answered, given_up, delivered, swept, or_undone, store_after, apply, run,
}

undone-Follows :
    (s : Store) (r : Result Store)
    → Live s.transactions
    → Returns r (Follows s)
    → Follows s (or_undone s r)
undone-Follows s (err e) live h = Follows-refl s live
undone-Follows s (ok s') live h = h

store_after-Follows :
    (s : Store) (r : Result (Store × Prepared))
    → Live s.transactions
    → Returns r (Prepares s)
    → Follows s (store_after s r)
store_after-Follows s (err e) live h = Follows-refl s live
store_after-Follows s (ok (s', p)) live h = h.0

module _ (hash : Text → Text) (to_cents : Option Value → Option ℤ) where
  pub apply-Follows :
      (e : Event) (s : Store) → Live s.transactions → Follows s (apply hash to_cents e s)
  unfolding apply
  apply-Follows (prepared message config fresh token) s live =
      store_after-Follows s _ live
        (prepare_submission-Prepares message config fresh token s live hash)
  apply-Follows (answered message context answer) s live =
      undone-Follows s _ live (record_answer-Follows message context answer s live)
  apply-Follows (given_up message) s live =
      undone-Follows s _ live (mark_for_reconciliation-Follows message.instruction_id _ s live)
  apply-Follows (delivered message) s live =
      undone-Follows s _ live (process_callback-Follows message s live to_cents)
  apply-Follows (swept stuck answers) s live = sweep_organization-Follows stuck answers s live

  run-Follows :
      (es : List Event) (s : Store) → Live s.transactions → Follows s (run hash to_cents es s)
  unfolding run
  run-Follows [] s live = Follows-refl s live
  run-Follows (e ∷ es) s live =
      let one = apply-Follows e s live in
      Follows-trans s _ _ one (run-Follows es (apply hash to_cents e s) one.live)

  -- Whatever the workers do, and in whatever order, the ledger only grows: every row stays in its
  -- place with its identity and its receipt, its status moves along the transaction machine, and new
  -- rows start as SUBMITTED. The ledger stays live, if it is at first: ids are unique, no row is
  -- PENDING, and each SUCCESS has its receipt and each FAILED its code.
  pub run-Grows :
      (es : List Event) (s : Store)
      → Live s.transactions
      → Grows s.transactions (run hash to_cents es s).transactions
        × Live (run hash to_cents es s).transactions
  run-Grows es s live = let f = run-Follows es s live in (f.rows, f.live)

  -- From a live ledger, the workers take the batch only where commands of a worker take the batch
  -- machine.
  pub run-Driven :
      (es : List Event) (s : Store)
      → Live s.transactions
      → Driven s.state (run hash to_cents es s).state
  run-Driven es s live = (run-Follows es s live).batch

row_after :
    (ts us : List Transaction) (t : Transaction)
    → Grows ts us
    → Memᴰ t ts
    → (u : Transaction) × Memᴰ u us × Evolves t u
row_after [] us t g m = elim m [ ]
row_after (x ∷ xs) [] t g m = absurd g
row_after (x ∷ xs) (y ∷ ys) t (d, g) (Memᴰ.head e) = (y, Memᴰ.head refl, rw e d)
row_after (x ∷ xs) (y ∷ ys) t (d, g) (Memᴰ.tail m) =
    let (u, mu, ev) = row_after xs ys t g m in (u, Memᴰ.tail mu, ev)

-- A settled transaction of a live ledger is final: after any events it is there with the same id and the
-- same outcome, and with its receipt if it has one.
pub settled_row_is_final :
    (hash : Text → Text) (to_cents : Option Value → Option ℤ) (es : List Event) (s : Store)
    (t : Transaction)
    → Live s.transactions
    → Memᴰ t s.transactions
    → is_settled t.status ≡ true
    → (u : Transaction) × Memᴰ u (run hash to_cents es s).transactions
      × (u.id ≡ t.id)
      × (u.status ≡ t.status)
      × ((r : Text) → t.mpesa_receipt_number ≡ some r → u.mpesa_receipt_number ≡ some r)
settled_row_is_final hash to_cents es s t live m settled =
    let (u, mu, ev) = row_after s.transactions _ t (run-Grows hash to_cents es s live).0 m in
    (u, mu, ev.id, settled_stays settled ev.status, ev.receipt)
