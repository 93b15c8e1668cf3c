-- ===== src/Queue/Runs.antt =====
-- Any sequence of the queue's operations, by any number of workers (apps/api/src/queue/queue.ts).
use slvrn.Prelude.{
  ℕ, ◌<◌, ◌≡◌, refl, sym, ap, ◌∙◌, ◌≢◌, ◌⊎◌, inl, inr, Bool, true, false, ◌&&◌, List, [], ◌∷◌, ◌++◌,
  Memᴰ, Option, some, Bool-cases, subst, arith,
}
use slvrn.Prelude.Text.{Text, text_eq_iff}
use slvrn.Execution.Store.{any}
use slvrn.Queue.{
  QueueName, QueueName-discrete, payments, callbacks, reconciliation, backups, QueuePolicy,
  queue_policies, same_queue, Job, is_live, is_about, clashes, new_job, send, claim_batch,
  ClaimedMessage, decision, settle_batch, recover_expired_leases, id_of,
}
use slvrn.Queue.Table.{IsJob, IsTable, Rivals}
use slvrn.Queue.Steps.{claim_batch-IsTable, recover_expired_leases-IsTable, settle_by-IsTable}

-- A settlement may come late, from a worker whose lease has expired.
pub data Step : Type 0 where
  sent : QueueName → Option Text → ℕ → Text → ℕ → Step
  claimed : QueueName → Text → ℕ → (Text → Bool) → Step
  settled : QueueName → List ClaimedMessage → Option Text → ℕ → Step
  recovered : ℕ → Step

unfoldable pub apply : Step → List Job → List Job
apply (sent queue instruction_id delay fresh now) jobs =
    send queue instruction_id delay fresh now jobs
apply (claimed queue worker now locked) jobs =
    claim_batch queue worker now locked (queue_policies queue) jobs
apply (settled queue messages error now) jobs =
    settle_batch messages (queue_policies queue) error now jobs
apply (recovered now) jobs = recover_expired_leases now jobs

unfoldable pub run : List Step → List Job → List Job
run [] jobs = jobs
run (s ∷ ss) jobs = run ss (apply s jobs)

append_cases : (xs : List Job) (j k : Job) → Memᴰ k (xs ++ j ∷ []) → Memᴰ k xs ⊎ (k ≡ j)
append_cases [] j k (Memᴰ.head e) = inr e
append_cases [] j k (Memᴰ.tail m) = elim m [ ]
append_cases (x ∷ xs) j k (Memᴰ.head e) = inl (Memᴰ.head e)
append_cases (x ∷ xs) j k (Memᴰ.tail m) = elim (append_cases xs j k m) [
  | inl old ↦ inl (Memᴰ.tail old)
  | inr new ↦ inr new
]

any-false : (p : Job → Bool) (xs : List Job) (j : Job) → any p xs ≡ false → Memᴰ j xs → p j ≡ false
any-false p [] j h m = elim m [ ]
any-false p (x ∷ xs) j h (Memᴰ.head e) = rw e (ground arith)
any-false p (x ∷ xs) j h (Memᴰ.tail m) = any-false p xs j (ground arith) m

new_job-IsJob :
    (queue : QueueName) (instruction_id : Option Text) (delay : ℕ) (fresh : Text) (now : ℕ)
    → IsJob (new_job queue instruction_id delay fresh now)
unfolding queue_policies
new_job-IsJob queue instruction_id delay fresh now = record {
  within = omega arith;
  waiting = λ e. has_attempts queue;
  leased = λ e. cc (e);
  explained = λ e. cc (e);
}
  where
    has_attempts : (q : QueueName) → 0 < (queue_policies q).max_attempts
    has_attempts payments = omega arith
    has_attempts callbacks = omega arith
    has_attempts reconciliation = omega arith
    has_attempts backups = omega arith

-- A row that pays for the instruction of a new job stands in its way.
rival_clashes :
    (queue : QueueName) (instruction_id : Option Text) (fresh : Text) (a : Job) (t : Text)
    → queue ≡ payments
    → instruction_id ≡ some t
    → a.queue ≡ payments
    → is_live a ≡ true
    → a.instruction_id ≡ some t
    → clashes queue instruction_id fresh a ≡ true
unfolding QueueName-discrete
rival_clashes queue instruction_id fresh a t e f g live h =
    let same : is_about instruction_id a ≡ true = rw (f, h) ((text_eq_iff t t).1 refl) in
    let both : (same_queue queue payments && same_queue a.queue payments) ≡ true = rw (e, g) refl in
    ground arith

module _ (queue : QueueName) (instruction_id : Option Text) (delay : ℕ) (fresh : Text) (now : ℕ)
    (jobs : List Job) (table : IsTable jobs)
    (free : any (clashes queue instruction_id fresh) jobs ≡ false) where
  new_is_fresh : (a : Job) → Memᴰ a jobs → a.id ≢ fresh
  new_is_fresh a m e =
      let no = any-false (clashes queue instruction_id fresh) jobs a free m in
      ground (arith, (text_eq_iff a.id fresh).1 e)

  new_has_no_rival :
      (a : Job) → Memᴰ a jobs → ¬ (Rivals a (new_job queue instruction_id delay fresh now))
  new_has_no_rival a m r =
      let (t, first, second) = r.instruction in
      let no = any-false (clashes queue instruction_id fresh) jobs a free m in
      cc (
        no,
        rival_clashes queue instruction_id fresh a t r.second.0 second r.first.0 r.first.1 first,
      )

  append-IsTable : IsTable (jobs ++ new_job queue instruction_id delay fresh now ∷ [])
  append-IsTable =
      let job = new_job queue instruction_id delay fresh now in
      record {
        rows = λ k m. elim (append_cases jobs job k m) [
          | inl old ↦ table.rows k old
          | inr new ↦ subst IsJob (sym new) (new_job-IsJob queue instruction_id delay fresh now)
        ];
        keyed = λ a b ma mb e. elim (append_cases jobs job a ma) [
          | inl old_a ↦ elim (append_cases jobs job b mb) [
            | inl old_b ↦ table.keyed a b old_a old_b e
            | inr new_b ↦ absurd (new_is_fresh a old_a (e ∙ ap id_of new_b))
          ]
          | inr new_a ↦ elim (append_cases jobs job b mb) [
            | inl old_b ↦ absurd (new_is_fresh b old_b (sym e ∙ ap id_of new_a))
            | inr new_b ↦ new_a ∙ sym new_b
          ]
        ];
        single = λ a b ma mb r. elim (append_cases jobs job a ma) [
          | inl old_a ↦ elim (append_cases jobs job b mb) [
            | inl old_b ↦ table.single a b old_a old_b r
            | inr new_b ↦ absurd (new_has_no_rival a old_a (subst (Rivals a) new_b r))
          ]
          | inr new_a ↦ elim (append_cases jobs job b mb) [
            | inl old_b ↦ absurd (
                new_has_no_rival b old_b (
                  subst (Rivals b) new_a (record {
                    first = r.second;
                    second = r.first;
                    instruction = (r.instruction.0, r.instruction.2, r.instruction.1);
                  })))
            | inr new_b ↦ new_a ∙ sym new_b
          ]
        ];
      }

send-IsTable :
    (queue : QueueName) (instruction_id : Option Text) (delay : ℕ) (fresh : Text) (now : ℕ)
    (jobs : List Job)
    → IsTable jobs
    → IsTable (send queue instruction_id delay fresh now jobs)
unfolding send
send-IsTable queue instruction_id delay fresh now jobs table =
    elim (Bool-cases (any (clashes queue instruction_id fresh) jobs)) [
      | inl taken ↦ rw taken table
      | inr free ↦ rw free (append-IsTable queue instruction_id delay fresh now jobs table free)
    ]

settle_batch-IsTable :
    (messages : List ClaimedMessage) (p : QueuePolicy) (error : Option Text) (now : ℕ)
    (jobs : List Job)
    → IsTable jobs
    → IsTable (settle_batch messages p error now jobs)
unfolding settle_batch
settle_batch-IsTable [] p error now jobs table = table
settle_batch-IsTable (m ∷ messages) p error now jobs table =
    settle_batch-IsTable messages p error now _
      (settle_by-IsTable jobs table (decision m) p error now m)

pub apply-IsTable : (s : Step) (jobs : List Job) → IsTable jobs → IsTable (apply s jobs)
unfolding apply
apply-IsTable (sent queue instruction_id delay fresh now) jobs table =
    send-IsTable queue instruction_id delay fresh now jobs table
apply-IsTable (claimed queue worker now locked) jobs table =
    claim_batch-IsTable jobs table queue worker now locked (queue_policies queue)
apply-IsTable (settled queue messages error now) jobs table =
    settle_batch-IsTable messages (queue_policies queue) error now jobs table
apply-IsTable (recovered now) jobs table = recover_expired_leases-IsTable jobs table now

-- Every sequence of sends, claims, settlements and recoveries keeps the table's constraints: ids are
-- unique, an instruction has at most one live payment job, no job has more attempts than its limit, a
-- job that waits has one left, a job in flight has its lease, and a dead letter has a reason.
pub run-IsTable : (ss : List Step) (jobs : List Job) → IsTable jobs → IsTable (run ss jobs)
unfolding run
run-IsTable [] jobs table = table
run-IsTable (s ∷ ss) jobs table = run-IsTable ss (apply s jobs) (apply-IsTable s jobs table)
