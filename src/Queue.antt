-- ===== src/Queue.antt =====
-- The job queue on a table (apps/api/src/queue/queue.ts, and one round of `runQueueLoop` in
-- apps/api/src/queue/runner.ts). Instants and delays are seconds; a body is the instruction that it is
-- about, if any.
pub mod Table
pub mod Steps
pub mod Runs
pub mod Deliveries
use slvrn.Prelude.{
  ℕ, zero, suc, ◌+◌, ◌-◌, ◌*◌, ◌^◌, ltb, leb, map, Bool, true, false, not, ◌&&◌, ◌||◌, List, [],
  ◌∷◌, ◌++◌, Option, none, some, keep_if, is_yes, if◌then◌else◌,
}
use slvrn.Prelude.Text.{Text, codes, text_eq, text_in, is_text}
use slvrn.Prelude.Sorting.{sort}
use slvrn.Execution.Store.{update, any}

pub data QueueName : Type 0 where
  payments callbacks reconciliation backups : QueueName

unfoldable pub QueueName-discrete : Discrete QueueName
QueueName-discrete = hlevel

abbrev pub same_queue : QueueName → QueueName → Bool
same_queue a b = is_yes (QueueName-discrete a b)

pub record QueuePolicy : Type 0 where
  pub batch_size : ℕ
  pub visibility_timeout_seconds : ℕ
  pub max_attempts : ℕ
  pub retry_backoff_seconds : ℕ

abbrev pub policy : ℕ → ℕ → ℕ → ℕ → QueuePolicy
policy size timeout attempts backoff = record {
  batch_size = size;
  visibility_timeout_seconds = timeout;
  max_attempts = attempts;
  retry_backoff_seconds = backoff;
}

unfoldable pub queue_policies : QueueName → QueuePolicy
queue_policies payments = policy 10 120 3 10
queue_policies callbacks = policy 25 60 5 5
queue_policies reconciliation = policy 10 180 3 30
queue_policies backups = policy 1 900 2 60

pub data JobStatus : Type 0 where
  pending in_flight succeeded dead_lettered : JobStatus

pub record Job : Type 0 where
  pub id : Text
  pub queue : QueueName
  pub instruction_id : Option Text
  pub status : JobStatus
  pub run_after : ℕ
  pub claimed_until : Option ℕ
  pub claimed_by : Option Text
  pub attempts : ℕ
  pub max_attempts : ℕ
  pub last_error : Option Text

abbrev pub is_pending : Job → Bool
is_pending j = elim j.status [ pending ↦ true | _ ↦ false ]

abbrev pub is_in_flight : Job → Bool
is_in_flight j = elim j.status [ in_flight ↦ true | _ ↦ false ]

abbrev pub is_live : Job → Bool
is_live j = is_pending j || is_in_flight j

abbrev pub is_about : Option Text → Job → Bool
is_about none j = false
is_about (some id) j = is_text j.instruction_id id

-- The unique index job_queue_one_live_payment_per_instruction (db/migrations/0008_job_queue.sql).
abbrev pub pays_for : QueueName → Option Text → Job → Bool
pays_for queue instruction_id j =
    same_queue queue payments
    && same_queue j.queue payments
    && is_live j
    && is_about instruction_id j

abbrev pub clashes : QueueName → Option Text → Text → Job → Bool
clashes queue instruction_id fresh j = text_eq j.id fresh || pays_for queue instruction_id j

abbrev pub new_job : QueueName → Option Text → ℕ → Text → ℕ → Job
new_job queue instruction_id delay_seconds fresh now = record {
  id = fresh;
  queue = queue;
  instruction_id = instruction_id;
  status = pending;
  run_after = now + delay_seconds;
  claimed_until = none;
  claimed_by = none;
  attempts = 0;
  max_attempts = (queue_policies queue).max_attempts;
  last_error = none;
}

-- `fresh` is the row's generated id. Any conflict inserts nothing.
unfoldable pub send : QueueName → Option Text → ℕ → Text → ℕ → List Job → List Job
send queue instruction_id delay_seconds fresh now jobs =
    if any (clashes queue instruction_id fresh) jobs
    then jobs
    else jobs ++ new_job queue instruction_id delay_seconds fresh now ∷ []

-- `locked` are rows that another statement holds.
abbrev pub is_claimable : QueueName → ℕ → (Text → Bool) → Job → Bool
is_claimable queue now locked j =
    same_queue j.queue queue && is_pending j && leb j.run_after now && not (locked j.id)

-- `ORDER BY run_after, id`: by the instant, then by the id.
abbrev pub by_turn : Job → List ℕ
by_turn j = j.run_after ∷ j.id

abbrev pub take {ℓ} : {A : Type ℓ} → ℕ → List A → List A
take zero xs = []
take (suc n) [] = []
take (suc n) (x ∷ xs) = x ∷ take n xs

abbrev pub id_of : Job → Text
id_of j = j.id

unfoldable pub claimable : QueueName → ℕ → (Text → Bool) → ℕ → List Job → List Text
claimable queue now locked batch_size jobs =
    map id_of (take batch_size (sort by_turn (keep_if (is_claimable queue now locked) jobs)))

abbrev pub mark_claimed : Text → ℕ → ℕ → Job → Job
mark_claimed worker now timeout j = record j {
  status = in_flight;
  attempts = j.attempts + 1;
  claimed_by = some worker;
  claimed_until = some (now + timeout);
}

abbrev pub is_among : List Text → Job → Bool
is_among ids j = text_in j.id ids

-- The table after `claimBatch`, whose messages are the jobs of `claimable`.
unfoldable pub claim_batch :
    QueueName → Text → ℕ → (Text → Bool) → QueuePolicy → List Job → List Job
claim_batch queue worker now locked p jobs =
    update (is_among (claimable queue now locked p.batch_size jobs))
      (mark_claimed worker now p.visibility_timeout_seconds) jobs

pub data Disposition : Type 0 where
  ack : Disposition
  retry : Option ℕ → Disposition

-- A `ClaimedMessage`: `attempts` as claimed, and what its consumer has decided.
pub record ClaimedMessage : Type 0 where
  pub id : Text
  pub attempts : ℕ
  pub disposition : Option Disposition

-- `??=`: the first call wins.
unfoldable pub dispose : Disposition → ClaimedMessage → ClaimedMessage
dispose d message = record message {
  disposition = elim message.disposition [ none ↦ some d | some e ↦ some e ];
}

abbrev pub holds : Text → Job → Bool
holds id j = text_eq j.id id && is_in_flight j

abbrev pub mark_succeeded : Job → Job
mark_succeeded j = record j { status = succeeded; claimed_until = none; claimed_by = none }

abbrev pub status_after : Job → JobStatus
status_after j = if leb j.max_attempts j.attempts then dead_lettered else pending

abbrev pub or_else_error : Option Text → Option Text → Option Text
or_else_error (some e) last = some e
or_else_error none (some e) = some e
or_else_error none none = some (codes "Consumer requested retry without recording an error")

abbrev pub mark_retried : Option Text → ℕ → Job → Job
mark_retried error run_after j = record j {
  status = status_after j;
  run_after = run_after;
  last_error = or_else_error error j.last_error;
  claimed_until = none;
  claimed_by = none;
}

-- `retryBackoffSeconds * 2 ** Math.max(0, attempts - 1)` unless the consumer gave a delay.
unfoldable pub retry_delay : QueuePolicy → ℕ → Option ℕ → ℕ
retry_delay p attempts (some delay) = delay
retry_delay p attempts none = p.retry_backoff_seconds * 2 ^ (attempts - 1)

abbrev pub decision : ClaimedMessage → Disposition
decision message = elim message.disposition [ none ↦ retry none | some d ↦ d ]

unfoldable pub settle_by :
    Disposition → QueuePolicy → Option Text → ℕ → ClaimedMessage → List Job → List Job
settle_by ack p error now message jobs = update (holds message.id) mark_succeeded jobs
settle_by (retry delay) p error now message jobs =
    update (holds message.id) (mark_retried error (now + retry_delay p message.attempts delay)) jobs

-- `error` is what the consumer threw, described.
unfoldable pub settle_batch :
    List ClaimedMessage → QueuePolicy → Option Text → ℕ → List Job → List Job
settle_batch [] p error now jobs = jobs
settle_batch (message ∷ messages) p error now jobs =
    settle_batch messages p error now (settle_by (decision message) p error now message jobs)

abbrev pub is_before : Option ℕ → ℕ → Bool
is_before none now = false
is_before (some until) now = ltb until now

abbrev pub is_expired : ℕ → Job → Bool
is_expired now j = is_in_flight j && is_before j.claimed_until now

abbrev pub mark_expired : ℕ → Job → Job
mark_expired now j = record j {
  status = status_after j;
  run_after = now;
  last_error = some (
      codes
        "Worker lease expired: the process holding this job stopped without recording an outcome");
  claimed_until = none;
  claimed_by = none;
}

unfoldable pub recover_expired_leases : ℕ → List Job → List Job
recover_expired_leases now jobs = update (is_expired now) (mark_expired now) jobs
