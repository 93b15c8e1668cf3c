-- ===== src/Txn/Paths.antt =====
-- Paths through the table of allowed transitions (packages/core/src/txn-state.ts), whatever the
-- evidence: what a log of a transaction's states may look like.
use slvrn.Prelude.{
  ◌≡◌, refl, ◌∙◌, ◌≢◌, ◌⊎◌, inl, inr, true, false, not, ◌&&◌, contains, Bool-cases, arith,
}
use slvrn.Errors.Returns.{Returns, Result-cases}
use slvrn.Txn.{
  TxnState, TxnState-discrete, pending, submitted, awaiting_callback, processing, reconciling,
  success, failed, timeout, allowed, is_blank, is_settled, state_eq, TxnTransitionInput,
  assert_txn_transition,
}
use slvrn.Txn.Laws.{state_eq_iff, assert_txn_transition_iff}

pub data Reaches : TxnState → TxnState → Type 0 where
  stop : {s : TxnState} → Reaches s s
  move :
      {s t u : TxnState}
      → contains TxnState-discrete t (allowed s) ≡ true
      → Reaches t u
      → Reaches s u

pub Reaches-trans : {s t u : TxnState} → Reaches s t → Reaches t u → Reaches s u
Reaches-trans stop r = r
Reaches-trans (move e q) r = move e (Reaches-trans q r)

pub one_move : {s t : TxnState} → contains TxnState-discrete t (allowed s) ≡ true → Reaches s t
one_move e = move e stop

no_edge :
    (s t : TxnState)
    → contains TxnState-discrete t (allowed s) ≡ true
    → (is_settled s ≢ true) × (t ≢ pending)
unfolding is_settled TxnState-discrete
no_edge s t e = ground arith

pub settled_stays : {s t : TxnState} → is_settled s ≡ true → Reaches s t → t ≡ s
settled_stays settled stop = refl
settled_stays {s} settled (move {t = t} e r) = absurd ((no_edge s t e).0 settled)

pub never_pending : {s t : TxnState} → s ≢ pending → Reaches s t → t ≢ pending
never_pending ne stop = ne
never_pending {s} ne (move {t = t} e r) = never_pending ((no_edge s t e).1) r

-- What a worker may write without evidence: from every state in flight but PENDING there is a path to
-- FAILED and to TIMEOUT.
pub open-Reaches :
    (s t : TxnState)
    → s ≢ pending
    → is_settled s ≡ false
    → (t ≡ failed) ⊎ (t ≡ timeout)
    → Reaches s t
unfolding is_settled TxnState-discrete
open-Reaches submitted failed ne o which = one_move refl
open-Reaches submitted timeout ne o which = one_move refl
open-Reaches awaiting_callback failed ne o which = one_move refl
open-Reaches awaiting_callback timeout ne o which = one_move refl
open-Reaches processing failed ne o which = one_move refl
open-Reaches processing timeout ne o which = one_move refl
open-Reaches reconciling failed ne o which = one_move refl
open-Reaches reconciling timeout ne o which = one_move refl
open-Reaches timeout failed ne o which = one_move refl
open-Reaches timeout timeout ne o which = stop
open-Reaches s t ne o which = absurd (ground arith)

kept_or_open :
    (s t : TxnState)
    → (is_settled s && not (state_eq t s)) ≡ false
    → (t ≡ s) ⊎ (is_settled s ≡ false)
kept_or_open s t h = elim (Bool-cases (is_settled s)) [
  | inr o ↦ inr o
  | inl c ↦ inl ((state_eq_iff t s).0 (ground arith))
]

-- A write that the table's trigger lets through.
pub permitted-Reaches :
    (s t : TxnState)
    → s ≢ pending
    → (is_settled s && not (state_eq t s)) ≡ false
    → (t ≡ failed) ⊎ (t ≡ timeout)
    → Reaches s t
permitted-Reaches s t ne permitted which = elim (kept_or_open s t permitted) [
  | inl same ↦ rw same stop
  | inr o ↦ open-Reaches s t ne o which
]

was_open : (s : TxnState) → s ≡ success → is_settled s ≢ false
unfolding is_settled TxnState-discrete
was_open s e h = ground arith

-- An accepted transition is a path, and one that settles as SUCCESS brings a receipt.
pub accepted-Reaches :
    (input : TxnTransitionInput)
    → is_settled input.before ≡ false
    → Returns (assert_txn_transition input) (λ result.
      Reaches input.before input.to
      × (input.to ≡ success → is_blank input.provider_receipt ≡ false))
unfolding is_settled
accepted-Reaches input moving = elim (Result-cases (assert_txn_transition input)) [
  | inl (e, h) ↦ rw h tt
  | inr (r, h) ↦
      let (to, how) = (assert_txn_transition_iff input r).0 h in
      rw h (elim how [
        | inl (same, _) ↦ (rw same stop, λ e. absurd (was_open input.before (same ∙ e) moving))
        | inr (_, ev, _) ↦ (one_move ev.edge, ev.receipt)
      ])
]
