-- ===== src/Queue/Table.antt =====
-- What holds of every job (apps/api/src/queue/queue.ts), and the rows of an updated table.
use slvrn.Prelude.{
  ◌≤◌, ◌<◌, ◌≡◌, refl, sym, ap, ◌∙◌, ◌≢◌, ◌⊎◌, inl, inr, Bool, true, List, [], ◌∷◌, Memᴰ, none,
  some, Bool-cases, subst, if◌then◌else◌,
}
use slvrn.Prelude.Text.{Text}
use slvrn.Execution.Store.{update}
use slvrn.Queue.{Job, pending, in_flight, dead_lettered, payments, is_live, id_of}

-- One row: the attempts stay within the limit, and a job that waits has one left. A job in flight has
-- its lease, and a dead letter says why.
pub record IsJob (j : Job) : Type 0 where
  pub within : j.attempts ≤ j.max_attempts
  pub waiting : j.status ≡ pending → j.attempts < j.max_attempts
  pub leased : j.status ≡ in_flight → (j.claimed_until ≢ none) × (j.claimed_by ≢ none)
  pub explained : j.status ≡ dead_lettered → j.last_error ≢ none

-- Two rows that pay for one instruction and are both live.
pub record Rivals (a b : Job) : Type 0 where
  pub first : (a.queue ≡ payments) × (is_live a ≡ true)
  pub second : (b.queue ≡ payments) × (is_live b ≡ true)
  pub instruction : (t : Text) × (a.instruction_id ≡ some t) × (b.instruction_id ≡ some t)

pub record IsTable (jobs : List Job) : Type 0 where
  pub rows : (j : Job) → Memᴰ j jobs → IsJob j
  pub keyed : (a b : Job) → Memᴰ a jobs → Memᴰ b jobs → a.id ≡ b.id → a ≡ b
  pub single : (a b : Job) → Memᴰ a jobs → Memᴰ b jobs → Rivals a b → a ≡ b

abbrev pub rewritten : (Job → Bool) → (Job → Job) → Job → Job
rewritten p f j = if p j then f j else j

pub Mem-update :
    (p : Job → Bool) (f : Job → Job) (jobs : List Job) (j : Job)
    → Memᴰ j jobs
    → Memᴰ (rewritten p f j) (update p f jobs)
Mem-update p f [] j m = elim m [ ]
Mem-update p f (x ∷ xs) j (Memᴰ.head e) = elim (Bool-cases (p x)) [
  | inl hit ↦ rw (e, hit) (Memᴰ.head refl)
  | inr miss ↦ rw (e, miss) (Memᴰ.head refl)
]
Mem-update p f (x ∷ xs) j (Memᴰ.tail m) = elim (Bool-cases (p x)) [
  | inl hit ↦ rw hit (Memᴰ.tail (Mem-update p f xs j m))
  | inr miss ↦ rw miss (Memᴰ.tail (Mem-update p f xs j m))
]

head_or_tail : (x : Job) (xs : List Job) (k : Job) → Memᴰ k (x ∷ xs) → (k ≡ x) ⊎ Memᴰ k xs
head_or_tail x xs k (Memᴰ.head e) = inl e
head_or_tail x xs k (Memᴰ.tail m) = inr m

pub update-Mem :
    (p : Job → Bool) (f : Job → Job) (jobs : List Job) (k : Job)
    → Memᴰ k (update p f jobs)
    → (j : Job) × Memᴰ j jobs × (k ≡ rewritten p f j)
update-Mem p f [] k m = elim m [ ]
update-Mem p f (x ∷ xs) k m = elim (Bool-cases (p x)) [
  | inl hit ↦ elim (head_or_tail _ _ k (rw hit at m)) [
    | inl e ↦ (x, Memᴰ.head refl, e ∙ rw hit refl)
    | inr n ↦ let (j, mj, e) = update-Mem p f xs k n in (j, Memᴰ.tail mj, e)
  ]
  | inr miss ↦ elim (head_or_tail _ _ k (rw miss at m)) [
    | inl e ↦ (x, Memᴰ.head refl, e ∙ rw miss refl)
    | inr n ↦ let (j, mj, e) = update-Mem p f xs k n in (j, Memᴰ.tail mj, e)
  ]
]

-- A write that keeps the row's identity and its well-formedness, and wakes no job.
pub record Fits (f : Job → Job) (j : Job) : Type 0 where
  pub valid : IsJob (f j)
  pub queue : (f j).queue ≡ j.queue
  pub instruction_id : (f j).instruction_id ≡ j.instruction_id
  pub live : is_live (f j) ≡ true → is_live j ≡ true

module _ (p : Job → Bool) (f : Job → Job) (kept : (j : Job) → (f j).id ≡ j.id) (jobs : List Job)
    (table : IsTable jobs) (fits : (j : Job) → Memᴰ j jobs → p j ≡ true → Fits f j) where
  row-IsJob : (j : Job) → Memᴰ j jobs → IsJob (rewritten p f j)
  row-IsJob j m = elim (Bool-cases (p j)) [
    | inl hit ↦ rw hit (fits j m hit).valid
    | inr miss ↦ rw miss (table.rows j m)
  ]

  row_id : (j : Job) → (rewritten p f j).id ≡ j.id
  row_id j = elim (Bool-cases (p j)) [ inl hit ↦ rw hit (kept j) | inr miss ↦ rw miss refl ]

  -- What made a row live, and whose it is, is as before.
  row_kept :
      (j : Job)
      → Memᴰ j jobs
      → ((rewritten p f j).queue ≡ j.queue)
        × ((rewritten p f j).instruction_id ≡ j.instruction_id)
        × (is_live (rewritten p f j) ≡ true → is_live j ≡ true)
  row_kept j m = elim (Bool-cases (p j)) [
    | inl hit ↦ let fit = fits j m hit in rw hit (fit.queue, fit.instruction_id, fit.live)
    | inr miss ↦ rw miss (refl, refl, λ live. live)
  ]

  row-Rivals :
      (x y : Job)
      → Memᴰ x jobs
      → Memᴰ y jobs
      → Rivals (rewritten p f x) (rewritten p f y)
      → Rivals x y
  row-Rivals x y mx my r =
      let (queue_x, instruction_x, live_x) = row_kept x mx in
      let (queue_y, instruction_y, live_y) = row_kept y my in
      let (t, first, second) = r.instruction in
      record {
        first = (sym queue_x ∙ r.first.0, live_x r.first.1);
        second = (sym queue_y ∙ r.second.0, live_y r.second.1);
        instruction = (t, sym instruction_x ∙ first, sym instruction_y ∙ second);
      }

  pub update-IsTable : IsTable (update p f jobs)
  update-IsTable = record {
    rows = λ k m. let (j, mj, e) = update-Mem p f jobs k m in subst IsJob (sym e) (row-IsJob j mj);
    keyed = λ a b ma mb same.
        let (x, mx, ex) = update-Mem p f jobs a ma in
        let (y, my, ey) = update-Mem p f jobs b mb in
        let one : x ≡ y =
          table.keyed x y mx my
            (sym (row_id x) ∙ ap id_of (sym ex) ∙ same ∙ ap id_of ey ∙ row_id y) in
        ex ∙ ap (rewritten p f) one ∙ sym ey;
    single = λ a b ma mb rivals.
        let (x, mx, ex) = update-Mem p f jobs a ma in
        let (y, my, ey) = update-Mem p f jobs b mb in
        let before = subst (λ v. Rivals v (rewritten p f y)) ex (subst (Rivals a) ey rivals) in
        ex ∙ ap (rewritten p f) (table.single x y mx my (row-Rivals x y mx my before)) ∙ sym ey;
  }
