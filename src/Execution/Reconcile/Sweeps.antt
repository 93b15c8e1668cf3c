-- ===== src/Execution/Reconcile/Sweeps.antt =====
-- What sweeps do to the cases of one transaction (`sweepOrganization`,
-- apps/api/src/queues/reconciliation-worker.ts).
use slvrn.Prelude.{◌<◌, ◌≡◌, true, false, List, [], ◌∷◌, ◌++◌, none, some, Memᴰ}
use slvrn.Prelude.Text.{Text, codes}
use slvrn.Execution.Store.{Store, Case, opened, escalated, find, is_active_for}
use slvrn.Execution.Reconcile.{QueryResult, sweep_organization}

-- Sweeps that pick the transaction, each with the token that it draws and how its query goes.
unfoldable pub sweeps : Text → List (Text × QueryResult) → Store → Store
sweeps id [] s = s
sweeps id ((token, r) ∷ rs) s = sweeps id rs (sweep_organization ((id, token) ∷ []) (λ _. r) s)

-- The transaction has no case that is open or being queried.
abbrev pub IsRetired : Text → List Case → Type 0
IsRetired id cases = find (is_active_for id) cases ≡ none

-- A write under which an active case stays active.
abbrev StaysActive : Text → (Case → Case) → Type 0
StaysActive id f = (c : Case) → is_active_for id c ≡ true → is_active_for id (f c) ≡ true

-- What a query that is tried does to the cases of its transaction.
abbrev Counts : Text → List Case → List Case → Type 0
Counts id old new =
    (IsRetired id old → IsRetired id new)
    × ((c : Case)
        → find (is_active_for id) old ≡ some c
        → (d : Case) × (find (is_active_for id) new ≡ some d)
          × (c.query_attempts < d.query_attempts))

abbrev pub new_case : Text → Text → Case
new_case id token = record {
  transaction_id = id;
  reference = codes "REC-" ++ token;
  state = opened;
  discrepancy = false;
  query_attempts = 0;
}

-- The transaction's cases are closed to queries, and one of them is escalated.
pub record IsEscalated (id : Text) (cases : List Case) : Type 0 where
  pub retired : IsRetired id cases
  pub case : (c : Case) × Memᴰ c cases × (c.transaction_id ≡ id) × (c.state ≡ escalated)

-- Some first ones of the sweeps escalate the transaction.
abbrev EndsWithin : Text → List (Text × QueryResult) → Store → Type 0
EndsWithin id rs s =
    (now : List (Text × QueryResult)) × (later : List (Text × QueryResult)) × (rs ≡ now ++ later)
    × IsEscalated id (sweeps id now s).cases
