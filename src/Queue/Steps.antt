-- ===== src/Queue/Steps.antt =====
-- Every operation of the queue keeps the table well-formed (apps/api/src/queue/queue.ts).
use mathlib.Core.List.Permᴰ
use slvrn.Prelude.{
  ℕ, zero, suc, ◌+◌, ◌≡◌, refl, sym, ◌≢◌, inl, inr, Bool, true, List, [], ◌∷◌, map, Memᴰ, Option,
  none, some, keep_if, All, All-Mem, Bool-cases, subst, arith,
}
use slvrn.Prelude.Text.{Text, text_eq, text_eq_iff, text_in}
use slvrn.Prelude.Sorting.{sort, sort-perm, All-perm}
use slvrn.Queue.{
  QueueName, QueuePolicy, Job, pending, is_in_flight, is_claimable, by_turn, take, id_of, claimable,
  mark_claimed, is_among, claim_batch, Disposition, ack, retry, ClaimedMessage, holds,
  mark_succeeded, mark_retried, retry_delay, settle_by, is_expired, mark_expired,
  recover_expired_leases, status_after, or_else_error,
}
use slvrn.Queue.Table.{IsJob, IsTable, Fits, update-IsTable}

has_reason : (error last : Option Text) → or_else_error error last ≢ none
has_reason (some e) last = λ f. cc (f)
has_reason none (some e) = λ f. cc (f)
has_reason none none = λ f. cc (f)

take-Mem : (n : ℕ) (xs : List Job) (j : Job) → Memᴰ j (take n xs) → Memᴰ j xs
take-Mem zero xs j m = elim m [ ]
take-Mem (suc n) [] j m = elim m [ ]
take-Mem (suc n) (x ∷ xs) j (Memᴰ.head e) = Memᴰ.head e
take-Mem (suc n) (x ∷ xs) j (Memᴰ.tail m) = Memᴰ.tail (take-Mem n xs j m)

keep_if-Mem :
    (p : Job → Bool) (xs : List Job) (j : Job) → Memᴰ j (keep_if p xs) → Memᴰ j xs × (p j ≡ true)
keep_if-Mem p [] j m = elim m [ ]
keep_if-Mem p (x ∷ xs) j m = elim (Bool-cases (p x)) [
  | inl hit ↦ kept_cons p x xs j hit (keep_if-Mem p xs j) (rw hit at m)
  | inr miss ↦ let (n, ok) = keep_if-Mem p xs j (rw miss at m) in (Memᴰ.tail n, ok)
]
  where
    kept_cons :
        (p : Job → Bool) (x : Job) (xs : List Job) (j : Job)
        → p x ≡ true
        → (Memᴰ j (keep_if p xs) → Memᴰ j xs × (p j ≡ true))
        → Memᴰ j (x ∷ keep_if p xs)
        → Memᴰ j (x ∷ xs) × (p j ≡ true)
    kept_cons p x xs j hit rest (Memᴰ.head e) = (Memᴰ.head e, rw e hit)
    kept_cons p x xs j hit rest (Memᴰ.tail m) = (Memᴰ.tail (rest m).0, (rest m).1)

named :
    (t : Text) (xs : List Job)
    → text_in t (map id_of xs) ≡ true
    → (c : Job) × Memᴰ c xs × (t ≡ c.id)
unfolding text_in
named t [] h = cc
named t (x ∷ xs) h = elim (Bool-cases (text_eq t x.id)) [
  | inl hit ↦ (x, Memᴰ.head refl, (text_eq_iff t x.id).0 hit)
  | inr miss ↦ let (c, m, e) = named t xs (rw miss at h) in (c, Memᴰ.tail m, e)
]

all_of_Mem : (P : Job → Type 0) (xs : List Job) → ((x : Job) → Memᴰ x xs → P x) → All P xs
all_of_Mem P [] h = tt
all_of_Mem P (x ∷ xs) h = (h x (Memᴰ.head refl), all_of_Mem P xs (λ y m. h y (Memᴰ.tail m)))

-- What is claimed was claimable.
pub claimed_was_claimable :
    (queue : QueueName) (now : ℕ) (locked : Text → Bool) (size : ℕ) (jobs : List Job) (j : Job)
    → IsTable jobs
    → Memᴰ j jobs
    → is_among (claimable queue now locked size jobs) j ≡ true
    → is_claimable queue now locked j ≡ true
unfolding claimable
claimed_was_claimable queue now locked size jobs j table m hit =
    let fits = is_claimable queue now locked in
    let pool = keep_if fits jobs in
    let P : Job → Type 0 = λ x. Memᴰ x jobs × (fits x ≡ true) in
    let (c, chosen, same) = named j.id (take size (sort by_turn pool)) hit in
    let sorted : All P (sort by_turn pool) =
      All-perm P (Permᴰ.symm (sort-perm by_turn pool))
        (all_of_Mem P pool (λ x n. keep_if-Mem fits jobs x n)) in
    let (in_jobs, fine) = All-Mem P (sort by_turn pool) sorted (take-Mem size _ c chosen) in
    let one : j ≡ c = table.keyed j c m in_jobs same in subst (λ x. fits x ≡ true) (sym one) fine

claimed-Fits :
    (queue : QueueName) (worker : Text) (now : ℕ) (locked : Text → Bool) (timeout : ℕ) (j : Job)
    → IsJob j
    → is_claimable queue now locked j ≡ true
    → Fits (mark_claimed worker now timeout) j
claimed-Fits queue worker now locked timeout j row free =
    let waits : j.status ≡ pending = ground arith in
    record {
      valid = record {
        within = omega (arith, row.waiting waits);
        waiting = λ e. cc (e);
        leased = λ e. ((λ f. cc (f)), (λ f. cc (f)));
        explained = λ e. cc (e);
      };
      queue = refl;
      instruction_id = refl;
      live = λ e. rw waits refl;
    }

succeeded-Fits : (id : Text) (j : Job) → IsJob j → Fits mark_succeeded j
succeeded-Fits id j row = record {
  valid = record {
    within = row.within;
    waiting = λ e. cc (e);
    leased = λ e. cc (e);
    explained = λ e. cc (e);
  };
  queue = refl;
  instruction_id = refl;
  live = λ e. cc (e);
}

-- A job that comes back waits again with an attempt left, or is a dead letter with a reason.
returned-Fits :
    (f : Job → Job) (j : Job)
    → IsJob j
    → is_in_flight j ≡ true
    → ((f j).queue ≡ j.queue)
      × ((f j).instruction_id ≡ j.instruction_id)
      × ((f j).attempts ≡ j.attempts)
      × ((f j).max_attempts ≡ j.max_attempts)
      × ((f j).status ≡ status_after j)
      × ((f j).last_error ≢ none)
    → Fits f j
returned-Fits f j row flying (queue, instruction, attempts, limit, status, reason) = record {
  valid = record {
    within = omega (arith, row.within, attempts, limit);
    waiting = λ e. ground arith;
    leased = λ e. absurd (ground arith);
    explained = λ e. reason;
  };
  queue = queue;
  instruction_id = instruction;
  live = λ e. ground arith;
}

module _ (jobs : List Job) (table : IsTable jobs) where
  pub claim_batch-IsTable :
      (queue : QueueName) (worker : Text) (now : ℕ) (locked : Text → Bool) (p : QueuePolicy)
      → IsTable (claim_batch queue worker now locked p jobs)
  unfolding claim_batch
  claim_batch-IsTable queue worker now locked p =
      update-IsTable (is_among (claimable queue now locked p.batch_size jobs))
        (mark_claimed worker now p.visibility_timeout_seconds) (λ j. refl) jobs table
        (λ j m hit.
          claimed-Fits queue worker now locked p.visibility_timeout_seconds j (table.rows j m)
            (claimed_was_claimable queue now locked p.batch_size jobs j table m hit))

  pub recover_expired_leases-IsTable : (now : ℕ) → IsTable (recover_expired_leases now jobs)
  unfolding recover_expired_leases
  recover_expired_leases-IsTable now =
      update-IsTable (is_expired now) (mark_expired now) (λ j. refl) jobs table
        (λ j m hit.
          returned-Fits (mark_expired now) j (table.rows j m) (ground arith)
            (refl, refl, refl, refl, refl, λ e. cc (e)))

  pub settle_by-IsTable :
      (d : Disposition) (p : QueuePolicy) (error : Option Text) (now : ℕ) (message : ClaimedMessage)
      → IsTable (settle_by d p error now message jobs)
  unfolding settle_by
  settle_by-IsTable ack p error now message =
      update-IsTable (holds message.id) mark_succeeded (λ j. refl) jobs table
        (λ j m hit. succeeded-Fits message.id j (table.rows j m))
  settle_by-IsTable (retry delay) p error now message =
      let f = mark_retried error (now + retry_delay p message.attempts delay) in
      update-IsTable (holds message.id) f (λ j. refl) jobs table
        (λ j m hit.
          returned-Fits f j (table.rows j m) (ground arith)
            (refl, refl, refl, refl, refl, has_reason error j.last_error))
