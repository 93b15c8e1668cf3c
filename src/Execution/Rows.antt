-- ===== src/Execution/Rows.antt =====
-- How the transactions table changes: what an update under its trigger leaves of every row.
pub mod Updates
use slvrn.Prelude.{◌≡◌, refl, sym, ap, ◌∙◌, ◌≢◌, List, [], ◌∷◌, ◌++◌, Memᴰ, none, some, All}
use slvrn.Prelude.Text.{Text}
use slvrn.Txn.{pending, submitted, success, failed}
use slvrn.Txn.Paths.{Reaches, stop, Reaches-trans, never_pending}
use slvrn.Execution.Store.{Transaction}

-- One row over time: its identity and its receipt stay, its status follows the machine.
pub record Evolves (old new : Transaction) : Type 0 where
  pub id : new.id ≡ old.id
  pub instruction_id : new.instruction_id ≡ old.instruction_id
  pub batch_id : new.batch_id ≡ old.batch_id
  pub originator : new.originator_conversation_id ≡ old.originator_conversation_id
  pub status : Reaches old.status new.status
  pub receipt : (r : Text) → old.mpesa_receipt_number ≡ some r → new.mpesa_receipt_number ≡ some r

pub Evolves-refl : (t : Transaction) → Evolves t t
Evolves-refl t = record {
  id = refl;
  instruction_id = refl;
  batch_id = refl;
  originator = refl;
  status = stop;
  receipt = λ r e. e;
}

pub Evolves-trans : {t u v : Transaction} → Evolves t u → Evolves u v → Evolves t v
Evolves-trans p q = record {
  id = q.id ∙ p.id;
  instruction_id = q.instruction_id ∙ p.instruction_id;
  batch_id = q.batch_id ∙ p.batch_id;
  originator = q.originator ∙ p.originator;
  status = Reaches-trans p.status q.status;
  receipt = λ r e. q.receipt r (p.receipt r e);
}

-- Rows are never deleted: each evolves in its place, and new ones, which start as SUBMITTED, follow.
abbrev pub Grows : List Transaction → List Transaction → Type 0
Grows [] us = All (λ (u : Transaction). Reaches submitted u.status) us
Grows (t ∷ ts) [] = ⊥
Grows (t ∷ ts) (u ∷ us) = Evolves t u × Grows ts us

pub Grows-refl : (ts : List Transaction) → Grows ts ts
Grows-refl [] = tt
Grows-refl (t ∷ ts) = (Evolves-refl t, Grows-refl ts)

pub Grows-trans : (ts us vs : List Transaction) → Grows ts us → Grows us vs → Grows ts vs
Grows-trans [] [] vs g h = h
Grows-trans [] (u ∷ us) [] g h = absurd h
Grows-trans [] (u ∷ us) (v ∷ vs) (r, g) (e, h) =
    (Reaches-trans r e.status, Grows-trans [] us vs g h)
Grows-trans (t ∷ ts) [] vs g h = absurd g
Grows-trans (t ∷ ts) (u ∷ us) [] g h = absurd h
Grows-trans (t ∷ ts) (u ∷ us) (v ∷ vs) (d, g) (e, h) = (Evolves-trans d e, Grows-trans ts us vs g h)

pub Grows-append :
    (ts : List Transaction) (t : Transaction) → t.status ≡ submitted → Grows ts (ts ++ t ∷ [])
Grows-append [] t e = (rw e stop, tt)
Grows-append (u ∷ us) t e = (Evolves-refl u, Grows-append us t e)

-- An id belongs to one row, and no row is PENDING.
abbrev pub Keyed : List Transaction → Type 0
Keyed ts = (a b : Transaction) → Memᴰ a ts → Memᴰ b ts → a.id ≡ b.id → a ≡ b

abbrev pub Sent : List Transaction → Type 0
Sent ts = (a : Transaction) → Memᴰ a ts → a.status ≢ pending

pub Grows-Sent : (ts us : List Transaction) → Grows ts us → Sent ts → Sent us
Grows-Sent ts [] g sent u m = elim m [ ]
Grows-Sent [] (v ∷ us) (r, g) sent u (Memᴰ.head e) =
    λ x. never_pending (λ y. cc (y)) r (ap (λ w. w.status) (sym e) ∙ x)
Grows-Sent [] (v ∷ us) (r, g) sent u (Memᴰ.tail m) = Grows-Sent [] us g (λ a n. elim n [ ]) u m
Grows-Sent (t ∷ ts) (v ∷ us) (d, g) sent u (Memᴰ.head e) =
    λ x. never_pending (sent t (Memᴰ.head refl)) d.status (ap (λ w. w.status) (sym e) ∙ x)
Grows-Sent (t ∷ ts) (v ∷ us) (d, g) sent u (Memᴰ.tail m) =
    Grows-Sent ts us g (λ a n. sent a (Memᴰ.tail n)) u m

-- What a settled row carries: a receipt with SUCCESS, a code with FAILED.
pub record Backed (t : Transaction) : Type 0 where
  pub paid : t.status ≡ success → t.mpesa_receipt_number ≢ none
  pub explained : t.status ≡ failed → t.failure_code ≢ none

pub record Live (ts : List Transaction) : Type 0 where
  pub keyed : Keyed ts
  pub sent : Sent ts
  pub backed : All Backed ts

-- A write that keeps a row's identity and follows an edge of the machine, if any.
pub record Moves (f : Transaction → Transaction) (t : Transaction) : Type 0 where
  pub id : (f t).id ≡ t.id
  pub instruction_id : (f t).instruction_id ≡ t.instruction_id
  pub batch_id : (f t).batch_id ≡ t.batch_id
  pub originator : (f t).originator_conversation_id ≡ t.originator_conversation_id
  pub status : Reaches t.status (f t).status
  pub backed : Backed (f t)
