-- ===== src/Batch/Driven.antt =====
-- What workers do to a batch: sequences of commands that they issue themselves
-- (packages/core/src/batch-state.ts).
use slvrn.Prelude.{◌≡◌, refl, ap, List, [], ◌∷◌, ◌++◌, map}
use slvrn.Errors.{ok, >>=-eq-ok}
use slvrn.Batch.{BatchState, BatchCommand, assert_transition, check_edge, edge_index}
use slvrn.Batch.Runs.{Order, worker, options_of, run}

abbrev pub issued : BatchCommand → Order
issued command = record { issuer = worker; command = command }

abbrev pub orders : List BatchCommand → List Order
orders = map issued

-- The machine goes from the one state to the other by commands of a worker.
abbrev pub Driven : BatchState → BatchState → Type 0
Driven s t = (commands : List BatchCommand) × (run s (orders commands) ≡ ok t)

pub Driven-refl : (s : BatchState) → Driven s s
Driven-refl s = ([], refl)

state_inj : {s t : BatchState} → ok s ≡ ok t → s ≡ t
state_inj e = cc

run-append :
    (s t u : BatchState) (xs ys : List Order)
    → run s xs ≡ ok t
    → run t ys ≡ ok u
    → run s (xs ++ ys) ≡ ok u
run-append s t u [] ys h k = let same : s ≡ t = state_inj h in rw same k
run-append s t u (x ∷ xs) ys h k =
    let (edge, e, rest) =
      >>=-eq-ok (assert_transition s x.command (options_of x.issuer)) (λ y. run y.to xs) h in
    rw e (run-append edge.to t u xs ys rest k)

map-orders : (xs ys : List BatchCommand) → orders (xs ++ ys) ≡ orders xs ++ orders ys
map-orders [] ys = refl
map-orders (x ∷ xs) ys = ap (◌∷◌ (issued x)) (map-orders xs ys)

pub Driven-trans : (s t u : BatchState) → Driven s t → Driven t u → Driven s u
Driven-trans s t u (xs, h) (ys, k) =
    (xs ++ ys, rw (map-orders xs ys) (run-append s t u (orders xs) (orders ys) h k))

-- The start of an execution, from each state that it may start in.
pub starts :
    Driven BatchState.authorized BatchState.processing
    × Driven BatchState.queued BatchState.processing
    × Driven BatchState.submitted BatchState.processing
unfolding assert_transition edge_index check_edge
starts = (
  (BatchCommand.enqueue ∷ BatchCommand.mark_processing ∷ [], refl),
  (BatchCommand.mark_processing ∷ [], refl),
  (BatchCommand.mark_processing ∷ [], refl),
)

pub settles :
    Driven BatchState.processing BatchState.success
    × Driven BatchState.processing BatchState.partial_success
    × Driven BatchState.processing BatchState.failed
    × Driven BatchState.processing BatchState.timeout
unfolding assert_transition edge_index check_edge
settles = (
  (BatchCommand.settle_success ∷ [], refl),
  (BatchCommand.settle_partial ∷ [], refl),
  (BatchCommand.settle_failed ∷ [], refl),
  (BatchCommand.settle_timeout ∷ [], refl),
)
