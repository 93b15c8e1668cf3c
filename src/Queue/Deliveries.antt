-- ===== src/Queue/Deliveries.antt =====
-- How often a job is delivered, and what becomes of it (apps/api/src/queue/queue.ts).
use slvrn.Prelude.{
  ℕ, ◌+◌, ◌≤◌, ◌≡◌, refl, sym, ◌∙◌, ◌⊎◌, inl, inr, Bool, true, false, List, [], ◌∷◌, ◌++◌, Memᴰ,
  Option, Bool-cases, subst, arith, if◌then◌else◌,
}
use slvrn.Prelude.Text.{Text, text_in}
use slvrn.Execution.Store.{update, any}
use slvrn.Queue.{
  QueueName, QueuePolicy, queue_policies, Job, JobStatus, succeeded, dead_lettered, is_in_flight,
  clashes, send, claimable, mark_claimed, is_among, claim_batch, Disposition, ack, retry,
  ClaimedMessage, decision, holds, mark_succeeded, mark_retried, retry_delay, settle_by,
  settle_batch, is_expired, mark_expired, recover_expired_leases,
}
use slvrn.Queue.Table.{IsTable, rewritten, Mem-update}
use slvrn.Queue.Steps.{claimed_was_claimable}
use slvrn.Queue.Runs.{
  Step, sent, claimed, settled, recovered, apply, run, run-IsTable, apply-IsTable,
}

-- Does the step deliver the job to a consumer?
abbrev delivers : Text → Step → List Job → Bool
delivers id (claimed queue worker now locked) jobs =
    text_in id (claimable queue now locked (queue_policies queue).batch_size jobs)
delivers id _ jobs = false

abbrev one_if : Bool → ℕ
one_if b = if b then 1 else 0

unfoldable pub deliveries : Text → List Step → List Job → ℕ
deliveries id [] jobs = 0
deliveries id (s ∷ ss) jobs = one_if (delivers id s jobs) + deliveries id ss (apply s jobs)

-- A job that has come to an end.
abbrev pub IsDone : JobStatus → Type 0
IsDone status = (status ≡ succeeded) ⊎ (status ≡ dead_lettered)

-- One row over `n` deliveries.
pub record Later (n : ℕ) (old new : Job) : Type 0 where
  pub id : new.id ≡ old.id
  pub limit : new.max_attempts ≡ old.max_attempts
  pub attempts : new.attempts ≡ old.attempts + n
  pub done : IsDone old.status → (new.status ≡ old.status) × (n ≡ 0)

abbrev Followed : ℕ → Job → List Job → Type 0
Followed n j jobs = (k : Job) × Memᴰ k jobs × Later n j k

Later-refl : (j : Job) → Later 0 j j
Later-refl j = record { id = refl; limit = refl; attempts = omega arith; done = λ d. (refl, refl) }

Later-trans : (n m : ℕ) (a b c : Job) → Later n a b → Later m b c → Later (n + m) a c
Later-trans n m a b c p q = record {
  id = q.id ∙ p.id;
  limit = q.limit ∙ p.limit;
  attempts = omega (arith, p.attempts, q.attempts);
  done = λ d.
      let (same, none_yet) = p.done d in
      let (still, no_more) = q.done (subst IsDone (sym same) d) in
      (still ∙ same, omega (arith, none_yet, no_more));
}

updated :
    (n : ℕ) (p : Job → Bool) (f : Job → Job) (j : Job) (jobs : List Job)
    → Memᴰ j jobs
    → Later n j (rewritten p f j)
    → Followed n j (update p f jobs)
updated n p f j jobs m later = (rewritten p f j, Mem-update p f jobs j m, later)

module _ (j : Job) (jobs : List Job) (m : Memᴰ j jobs) where
  -- Only a claim counts an attempt.
  untouched :
      (p : Job → Bool) (f : Job → Job)
      → (p j ≡ true
          → ((f j).id ≡ j.id)
            × ((f j).max_attempts ≡ j.max_attempts)
            × ((f j).attempts ≡ j.attempts)
            × (is_in_flight j ≡ true))
      → Followed 0 j (update p f jobs)
  untouched p f writes = elim (Bool-cases (p j)) [
    | inl hit ↦
        let (id, limit, attempts, flying) = writes hit in
        updated 0 p f j jobs m (
          rw hit (record {
            id = id;
            limit = limit;
            attempts = omega (arith, attempts);
            done = λ d. absurd (ground arith);
          }))
    | inr miss ↦ updated 0 p f j jobs m (rw miss (Later-refl j))
  ]

  claim_follows :
      (queue : QueueName) (worker : Text) (now : ℕ) (locked : Text → Bool) (p : QueuePolicy)
      → IsTable jobs
      → Followed
          (one_if (text_in j.id (claimable queue now locked p.batch_size jobs)))
          j
          (claim_batch queue worker now locked p jobs)
  unfolding claim_batch
  claim_follows queue worker now locked p table =
      let picked = is_among (claimable queue now locked p.batch_size jobs) in
      elim (Bool-cases (picked j)) [
        | inl hit ↦
            let free = claimed_was_claimable queue now locked p.batch_size jobs j table m hit in
            rw hit (
              updated 1 picked (mark_claimed worker now p.visibility_timeout_seconds) j jobs m (
                rw hit (record {
                  id = refl;
                  limit = refl;
                  attempts = refl;
                  done = λ d. absurd (ground arith);
                })))
        | inr miss ↦ rw miss (
            updated 0 picked (mark_claimed worker now p.visibility_timeout_seconds) j jobs m
              (rw miss (Later-refl j)))
      ]

  settle_follows :
      (d : Disposition) (p : QueuePolicy) (error : Option Text) (now : ℕ) (message : ClaimedMessage)
      → Followed 0 j (settle_by d p error now message jobs)
  unfolding settle_by
  settle_follows ack p error now message =
      untouched (holds message.id) mark_succeeded (λ hit. (refl, refl, refl, ground arith))
  settle_follows (retry delay) p error now message =
      untouched (holds message.id) (mark_retried error (now + retry_delay p message.attempts delay))
        (λ hit. (refl, refl, refl, ground arith))

  recover_follows : (now : ℕ) → Followed 0 j (recover_expired_leases now jobs)
  unfolding recover_expired_leases
  recover_follows now =
      untouched (is_expired now) (mark_expired now) (λ hit. (refl, refl, refl, ground arith))

Mem-append : (xs ys : List Job) (j : Job) → Memᴰ j xs → Memᴰ j (xs ++ ys)
Mem-append [] ys j m = elim m [ ]
Mem-append (x ∷ xs) ys j (Memᴰ.head e) = Memᴰ.head e
Mem-append (x ∷ xs) ys j (Memᴰ.tail m) = Memᴰ.tail (Mem-append xs ys j m)

settle_batch_follows :
    (messages : List ClaimedMessage) (p : QueuePolicy) (error : Option Text) (now : ℕ) (j : Job)
    (jobs : List Job)
    → Memᴰ j jobs
    → Followed 0 j (settle_batch messages p error now jobs)
unfolding settle_batch
settle_batch_follows [] p error now j jobs m = (j, m, Later-refl j)
settle_batch_follows (message ∷ messages) p error now j jobs m =
    let (k, mk, first) = settle_follows j jobs m (decision message) p error now message in
    let (l, ml, rest) = settle_batch_follows messages p error now k _ mk in
    (l, ml, Later-trans 0 0 j k l first rest)

step_follows :
    (s : Step) (j : Job) (jobs : List Job)
    → IsTable jobs
    → Memᴰ j jobs
    → Followed (one_if (delivers j.id s jobs)) j (apply s jobs)
unfolding apply send
step_follows (sent queue instruction_id delay fresh now) j jobs table m =
    elim (Bool-cases (any (clashes queue instruction_id fresh) jobs)) [
      | inl taken ↦ rw taken (j, m, Later-refl j)
      | inr free ↦ rw free (j, Mem-append jobs _ j m, Later-refl j)
    ]
step_follows (claimed queue worker now locked) j jobs table m =
    claim_follows j jobs m queue worker now locked (queue_policies queue) table
step_follows (settled queue messages error now) j jobs table m =
    settle_batch_follows messages (queue_policies queue) error now j jobs m
step_follows (recovered now) j jobs table m = recover_follows j jobs m now

run_follows :
    (ss : List Step) (j : Job) (jobs : List Job)
    → IsTable jobs
    → Memᴰ j jobs
    → Followed (deliveries j.id ss jobs) j (run ss jobs)
unfolding deliveries run
run_follows [] j jobs table m = (j, m, Later-refl j)
run_follows (s ∷ ss) j jobs table m =
    let (k, mk, first) = step_follows s j jobs table m in
    let (l, ml, rest) = run_follows ss k (apply s jobs) (apply-IsTable s jobs table) mk in
    let counted : Later (deliveries j.id ss (apply s jobs)) k l =
      subst (λ id. Later (deliveries id ss (apply s jobs)) k l) first.id rest in
    (l, ml, Later-trans _ _ j k l first counted)

-- A job of a table that meets its constraints is not delivered for ever: whatever workers do, its
-- deliveries and the attempts that it had before stay within its limit.
pub deliveries_end :
    (ss : List Step) (j : Job) (jobs : List Job)
    → IsTable jobs
    → Memᴰ j jobs
    → deliveries j.id ss jobs + j.attempts ≤ j.max_attempts
deliveries_end ss j jobs table m =
    let (k, mk, later) = run_follows ss j jobs table m in
    omega (arith, later.limit, later.attempts, ((run-IsTable ss jobs table).rows k mk).within)

-- In a table that meets its constraints, a job that has succeeded or is a dead letter stays so, with its
-- id, and is never delivered again.
pub done_for_good :
    (ss : List Step) (j : Job) (jobs : List Job)
    → IsTable jobs
    → Memᴰ j jobs
    → IsDone j.status
    → (k : Job) × Memᴰ k (run ss jobs)
      × (k.id ≡ j.id)
      × (k.status ≡ j.status)
      × (deliveries j.id ss jobs ≡ 0)
done_for_good ss j jobs table m done =
    let (k, mk, later) = run_follows ss j jobs table m in
    (k, mk, later.id, (later.done done).0, (later.done done).1)
