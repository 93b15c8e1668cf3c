-- ===== src/Tests/Queue.antt =====
-- The theorems on the job queue at one payment job.
use mathlib.Core.List.{Memᴰ}
use slvrn.Prelude.{
  Bool, subst, ◌+◌, ◌≤◌, ◌≡◌, refl, sym, ◌∙◌, inr, false, List, [], ◌∷◌, some, none, arith,
}
use slvrn.Prelude.Text.{Text, codes, text_eq, text_in}
use slvrn.Prelude.Sorting.{sort, insert}
use slvrn.Queue.{
  claim_batch, claimable, queue_policies, QueueName-discrete, recover_expired_leases, send,
  settle_batch, Job, payments, pending, dead_lettered,
}
use slvrn.Queue.Table.{IsJob, IsTable}
use slvrn.Queue.Runs.{Step, sent, claimed, settled, recovered, apply, run, run-IsTable}
use slvrn.Queue.Deliveries.{deliveries, deliveries_end, done_for_good}

abbrev waiting_job : Job
waiting_job = record {
  id = codes "j1";
  queue = payments;
  instruction_id = some (codes "i1");
  status = pending;
  run_after = 0;
  claimed_until = none;
  claimed_by = none;
  attempts = 1;
  max_attempts = 3;
  last_error = none;
}

abbrev dead_job : Job
dead_job = record waiting_job {
  status = dead_lettered;
  attempts = 3;
  last_error = some (codes "lost");
}

abbrev unlocked : Text → Bool
unlocked id = false

-- Claimed; the lease runs out; claimed again by another worker, and sent once more.
abbrev steps : List Step
steps =
    claimed payments (codes "w1") 10 unlocked
    ∷ recovered 500
    ∷ claimed payments (codes "w2") 510 unlocked
    ∷ sent payments (some (codes "i1")) 0 (codes "j2") 520
    ∷ settled payments [] none 530
    ∷ []

only : (j a : Job) → Memᴰ a (j ∷ []) → a ≡ j
only j a (Memᴰ.head e) = e
only j a (Memᴰ.tail m) = elim m [ ]

jobs-IsTable : (j : Job) → IsJob j → IsTable (j ∷ [])
jobs-IsTable j row = record {
  rows = λ a m. subst IsJob (sym (only j a m)) row;
  keyed = λ a b m n e. only j a m ∙ sym (only j b n);
  single = λ a b m n r. only j a m ∙ sym (only j b n);
}

waiting-IsTable : IsTable (waiting_job ∷ [])
waiting-IsTable = jobs-IsTable waiting_job (record {
  within = omega arith;
  waiting = λ e. omega arith;
  leased = λ e. cc (e);
  explained = λ e. cc (e);
})

dead-IsTable : IsTable (dead_job ∷ [])
dead-IsTable = jobs-IsTable dead_job (record {
  within = omega arith;
  waiting = λ e. cc (e);
  leased = λ e. cc (e);
  explained = λ e f. cc (f);
})

run-IsTable_example : IsTable (run steps (waiting_job ∷ []))
run-IsTable_example = run-IsTable steps (waiting_job ∷ []) waiting-IsTable

deliveries_end_example : deliveries (codes "j1") steps (waiting_job ∷ []) + 1 ≤ 3
deliveries_end_example =
    deliveries_end steps waiting_job (waiting_job ∷ []) waiting-IsTable (Memᴰ.head refl)

done_for_good_example :
    (k : Job) × Memᴰ k (run steps (dead_job ∷ []))
    × (k.id ≡ codes "j1")
    × (k.status ≡ dead_lettered)
    × (deliveries (codes "j1") steps (dead_job ∷ []) ≡ 0)
done_for_good_example =
    done_for_good steps dead_job (dead_job ∷ []) dead-IsTable (Memᴰ.head refl) (inr refl)

-- Delivered twice.
steps_deliver : deliveries (codes "j1") steps (waiting_job ∷ []) ≡ 2
unfolding deliveries apply claim_batch claimable queue_policies QueueName-discrete text_in text_eq
    recover_expired_leases send settle_batch sort insert
steps_deliver = refl
