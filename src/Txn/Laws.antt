-- ===== src/Txn/Laws.antt =====
-- One transition of a transaction (packages/core/src/txn-state.ts).
use slvrn.Prelude.{
  ◌≡◌, refl, ◌≢◌, ◌↔◌, ◌⊎◌, inl, inr, Bool, true, false, not, ◌||◌, contains, arith, Bool-cases,
  sym, ◌∙◌,
}
use slvrn.Errors.{ok, throw_if-eq-ok, >>-eq-ok, ok_inj}
use slvrn.Txn.{
  TxnState, TxnState-discrete, pending, reconciling, success, failed, timeout, system,
  TxnTransitionInput, TxnTransitionResult, assert_txn_transition, check_success, is_blank,
  is_settled, is_in_flight, state_eq, allowed,
}

-- Every state is settled or in flight, and none is both.
pub settled_or_in_flight : (s : TxnState) → is_in_flight s ≡ not (is_settled s)
unfolding is_in_flight is_settled TxnState-discrete
settled_or_in_flight pending = refl
settled_or_in_flight _ = refl

pub state_eq_iff : (a b : TxnState) → (state_eq a b ≡ true) ↔ (a ≡ b)
unfolding state_eq
state_eq_iff a b = ground arith

-- The evidence that a move asks for.
pub record HasEvidence (input : TxnTransitionInput) : Type 0 where
  pub open_state : is_settled input.before ≡ false
  pub edge : contains TxnState-discrete input.to (allowed input.before) ≡ true
  pub source : input.to ≡ success → input.source ≢ system
  pub receipt : input.to ≡ success → is_blank input.provider_receipt ≡ false
  pub code : input.to ≡ failed → is_blank input.failure_code ≡ false

check_success_iff :
    (input : TxnTransitionInput)
    → (check_success input ≡ ok tt) ↔ (
        (input.to ≡ success → input.source ≢ system)
        × (input.to ≡ success → is_blank input.provider_receipt ≡ false))
unfolding check_success
check_success_iff input = ground (arith, state_eq_iff input.to success)

-- A transition that changes the state, with its evidence.
abbrev pub moved : (input : TxnTransitionInput) → TxnTransitionResult
moved input = record {
  to = input.to;
  opens_reconciliation = state_eq input.to timeout || state_eq input.to reconciling;
}

assert_txn_transition_same :
    (input : TxnTransitionInput)
    → input.before ≡ input.to
    → assert_txn_transition input ≡ ok (record { to = input.to; opens_reconciliation = false })
unfolding assert_txn_transition
assert_txn_transition_same input e = rw ((state_eq_iff input.before input.to).1 e)

pub assert_txn_transition_moves :
    (input : TxnTransitionInput)
    → input.before ≢ input.to
    → HasEvidence input
    → assert_txn_transition input ≡ ok (moved input)
unfolding assert_txn_transition is_settled
assert_txn_transition_moves input ne ev = ground (
  arith,
  state_eq_iff input.before input.to,
  (check_success_iff input).1 (ev.source, ev.receipt),
  state_eq_iff input.to failed,
)

assert_txn_transition_sound :
    (input : TxnTransitionInput) (result : TxnTransitionResult)
    → input.before ≢ input.to
    → assert_txn_transition input ≡ ok result
    → HasEvidence input × (result ≡ moved input)
unfolding assert_txn_transition is_settled
assert_txn_transition_sound input result ne h =
    let changes : state_eq input.before input.to ≡ false =
      ground (arith, state_eq_iff input.before input.to) in
    let (fresh, h1) = throw_if-eq-ok _ _ _ (rw changes at h) in
    let (bad_edge, h2) = throw_if-eq-ok _ _ _ h1 in
    let (proved, h3) = >>-eq-ok _ _ h2 in
    let (explained, h4) = throw_if-eq-ok _ _ _ h3 in
    let (source, receipt) = (check_success_iff input).0 proved in
    (
      record {
        open_state = fresh;
        edge = ground arith;
        source = source;
        receipt = receipt;
        code = ground (arith, state_eq_iff input.to failed);
      },
      sym (ok_inj h4),
    )

result_lem :
    {r : TxnTransitionResult} {a : TxnState} {b : Bool}
    → r.to ≡ a
    → r.opens_reconciliation ≡ b
    → ok (record { to = a; opens_reconciliation = b }) ≡ ok r
result_lem p q = λ i. ok (record { to = sym p i; opens_reconciliation = sym q i })

-- When a transition is accepted: it changes nothing, or it has its evidence. The result names the
-- state asked for, and opens reconciliation exactly for a change to TIMEOUT or RECONCILING.
pub assert_txn_transition_iff :
    (input : TxnTransitionInput) (result : TxnTransitionResult)
    → (assert_txn_transition input ≡ ok result) ↔ (
        (result.to ≡ input.to)
        × (((input.before ≡ input.to) × (result.opens_reconciliation ≡ false))
            ⊎ ((input.before ≢ input.to)
                × HasEvidence input
                × (result.opens_reconciliation
                    ≡ (state_eq input.to timeout || state_eq input.to reconciling)))))
assert_txn_transition_iff input result = (
  λ h. elim (Bool-cases (state_eq input.before input.to)) [
    | inl same ↦
        let e = (state_eq_iff input.before input.to).0 same in
        let r = ok_inj (sym h ∙ assert_txn_transition_same input e) in
        (rw r refl, inl (e, rw r refl))
    | inr other ↦
        let ne : input.before ≢ input.to = ground (arith, state_eq_iff input.before input.to) in
        let (ev, r) = assert_txn_transition_sound input result ne h in
        (rw r refl, inr (ne, ev, rw r refl))
  ],
  λ (to, how). elim how [
    | inl (e, closed) ↦ assert_txn_transition_same input e ∙ result_lem to closed
    | inr (ne, ev, opens) ↦ assert_txn_transition_moves input ne ev ∙ result_lem to opens
  ],
)
