-- ===== src/Execution/Sound.antt =====
-- What each operation of the execution keeps: the machine of every transaction, the claims, the life
-- of the batch.
pub mod Submission
pub mod Answers
pub mod Results
pub mod Queries
use slvrn.Prelude.{◌≡◌, ◌≢◌, sym, ◌⊎◌, Bool, true, false, List, Memᴰ, none, subst, arith}
use slvrn.Errors.{ok, ◌>>=◌}
use slvrn.Errors.Returns.{Returns, Returns->>=}
use slvrn.Txn.{pending, failed, timeout}
use slvrn.Txn.Paths.{permitted-Reaches}
use slvrn.Batch.Driven.{Driven, Driven-refl, Driven-trans}
use slvrn.Execution.Store.{Store, Transaction}
use slvrn.Execution.Ledger.{is_forbidden, update_transactions}
use slvrn.Execution.Rows.{Grows, Grows-refl, Grows-trans, Live, Moves}
use slvrn.Execution.Rows.Updates.{update_rows}
use slvrn.Execution.Claims.{Advance, Advance-refl, Advance-trans}

pub record Follows (old new : Store) : Type 0 where
  pub rows : Grows old.transactions new.transactions
  pub live : Live new.transactions
  pub claims : Advance old.claims new.claims
  pub batch : Driven old.state new.state

pub Follows-refl : (s : Store) → Live s.transactions → Follows s s
Follows-refl s live = record {
  rows = Grows-refl s.transactions;
  live = live;
  claims = Advance-refl s.claims;
  batch = Driven-refl s.state;
}

pub Follows-trans : (s t u : Store) → Follows s t → Follows t u → Follows s u
Follows-trans s t u f g = record {
  rows = Grows-trans s.transactions t.transactions u.transactions f.rows g.rows;
  live = g.live;
  claims = Advance-trans s.claims t.claims u.claims f.claims g.claims;
  batch = Driven-trans s.state t.state u.state f.batch g.batch;
}

-- An update of the ledger that follows the machine, with the writes `k` beside it.
module _ (p : Transaction → Bool) (f : Transaction → Transaction) (s : Store)
    (live : Live s.transactions) (kept : (t : Transaction) → (f t).id ≡ t.id)
    (moves : (t : Transaction)
      → Memᴰ t s.transactions
      → p t ≡ true
      → is_forbidden t (f t) ≡ false
      → Moves f t) where
  pub write-Follows :
      (k : List Transaction → Store)
      → ((us : List Transaction) → (k us).transactions ≡ us)
      → ((us : List Transaction) → Advance s.claims (k us).claims)
      → ((us : List Transaction) → (k us).state ≡ s.state)
      → Returns (update_transactions p f s.transactions >>= λ us. ok (k us)) (Follows s)
  write-Follows k rows claims state =
      Returns->>= (update_transactions p f s.transactions) _
        (λ us. Grows s.transactions us × Live us) (Follows s)
        (update_rows p f s.transactions live kept moves)
        (λ us (grows, alive). record {
          rows = subst (Grows s.transactions) (sym (rows us)) grows;
          live = subst Live (sym (rows us)) alive;
          claims = claims us;
          batch = subst (Driven s.state) (sym (state us)) (Driven-refl s.state);
        })

-- What an unguarded write may do under the trigger.
pub permitted-Moves :
    (f : Transaction → Transaction) (t : Transaction)
    → ((f t).id ≡ t.id)
      × ((f t).instruction_id ≡ t.instruction_id)
      × ((f t).batch_id ≡ t.batch_id)
      × ((f t).originator_conversation_id ≡ t.originator_conversation_id)
    → t.status ≢ pending
    → ((f t).status ≡ failed) ⊎ ((f t).status ≡ timeout)
    → (f t).failure_code ≢ none
    → is_forbidden t (f t) ≡ false
    → Moves f t
unfolding is_forbidden
permitted-Moves f t (id, instruction, batch, originator) sent which reason permitted = record {
  id = id;
  instruction_id = instruction;
  batch_id = batch;
  originator = originator;
  status = permitted-Reaches t.status (f t).status sent (ground arith) which;
  backed = record { paid = λ e. ground arith; explained = λ _. reason };
}

-- Writes to the other tables.
pub aside :
    (s u : Store)
    → Live s.transactions
    → u.transactions ≡ s.transactions
    → u.claims ≡ s.claims
    → u.state ≡ s.state
    → Follows s u
aside s u live rows claims state = record {
  rows = subst (Grows s.transactions) (sym rows) (Grows-refl s.transactions);
  live = subst Live (sym rows) live;
  claims = subst (Advance s.claims) (sym claims) (Advance-refl s.claims);
  batch = subst (Driven s.state) (sym state) (Driven-refl s.state);
}
