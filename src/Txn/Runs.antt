-- ===== src/Txn/Runs.antt =====
-- The life of a transaction: sequences of accepted updates (packages/core/src/txn-state.ts).
use mathlib.Core.List.{Memᴰ}
use slvrn.Prelude.{
  ◌≡◌, refl, sym, ◌∙◌, ◌≢◌, ◌⊎◌, inl, inr, true, false, List, [], ◌∷◌, Option, All, contains,
  Bool-cases, arith,
}
use slvrn.Prelude.Text.{Text}
use slvrn.Errors.{Result, ok, err, ◌>>=◌, >>=-eq-ok, ok_inj, state_error, txn_already_settled}
use slvrn.Txn.{
  TxnState, TxnState-discrete, pending, success, failed, TxnStatusSource, system,
  TxnTransitionInput, assert_txn_transition, is_blank, is_settled, is_in_flight, state_eq, allowed,
}
use slvrn.Txn.Laws.{
  assert_txn_transition_iff, state_eq_iff, HasEvidence, assert_txn_transition_moves,
}

-- One message about a transaction: the state it asks for and the evidence it brings.
pub record Update : Type 0 where
  pub to : TxnState
  pub source : TxnStatusSource
  pub provider_receipt : Option Text
  pub failure_code : Option Text

abbrev pub input_of : TxnState → Update → TxnTransitionInput
input_of s u = record {
  before = s;
  to = u.to;
  source = u.source;
  provider_receipt = u.provider_receipt;
  failure_code = u.failure_code;
}

-- Each accepted update's `to` is the next state; a refusal ends the sequence.
abbrev pub run : TxnState → List Update → Result TxnState
run s [] = ok s
run s (u ∷ us) = assert_txn_transition (input_of s u) >>= λ result. run result.to us

-- What one accepted update does.
accepted :
    (s : TxnState) (u : Update) (us : List Update) (t : TxnState)
    → run s (u ∷ us) ≡ ok t
    → ((s ≡ u.to) ⊎ HasEvidence (input_of s u)) × (run u.to us ≡ ok t)
accepted s u us t h =
    let (result, e, rest) = >>=-eq-ok _ _ h in
    let (to, how) = (assert_txn_transition_iff (input_of s u) result).0 e in
    (elim how [ inl (same, _) ↦ inl same | inr (_, ev, _) ↦ inr ev ], rw to at rest)

-- Once settled, a transaction stays as it is: every update that is accepted repeats its state.
pub settled_for_good :
    (s t : TxnState) (us : List Update)
    → is_settled s ≡ true
    → run s us ≡ ok t
    → (t ≡ s) × All (λ (u : Update). u.to ≡ s) us
settled_for_good s t [] settled h = (sym (ok_inj h), tt)
settled_for_good s t (u ∷ us) settled h =
    let (how, rest) = accepted s u us t h in
    let same : s ≡ u.to = elim how [ inl e ↦ e | inr ev ↦ cc (settled, ev.open_state) ] in
    let (end, all) = settled_for_good s t us settled (rw (← same) at rest) in (end, (sym same, all))

-- An update that would rewrite a settled transaction is refused as such, whatever it brings.
pub settled_rewrite_refused :
    (input : TxnTransitionInput)
    → is_settled input.before ≡ true
    → input.before ≢ input.to
    → assert_txn_transition input ≡ err (state_error txn_already_settled)
unfolding assert_txn_transition is_settled
settled_rewrite_refused input settled ne =
    let changes : state_eq input.before input.to ≡ false =
      ground (arith, state_eq_iff input.before input.to) in
    rw (changes, settled)

-- The evidence with which an update reaches a provider outcome.
abbrev pub Proves : TxnState → Update → Type 0
Proves success u = (u.to ≡ success) × (u.source ≢ system) × (is_blank u.provider_receipt ≡ false)
Proves failed u = (u.to ≡ failed) × (is_blank u.failure_code ≡ false)
Proves t u = u.to ≡ t

outcome_backed : (s t : TxnState) (u : Update) → u.to ≡ t → HasEvidence (input_of s u) → Proves t u
outcome_backed s success u e ev = (e, ev.source e, ev.receipt e)
outcome_backed s failed u e ev = (e, ev.code e)
outcome_backed s _ u e ev = e

-- A transaction that has come to another state came there by an update with the evidence for it:
-- SUCCESS by a receipt that the system did not write itself, FAILED by a failure code.
pub outcome_has_evidence :
    (s t : TxnState) (us : List Update)
    → s ≢ t
    → run s us ≡ ok t
    → (u : Update) × Memᴰ u us × Proves t u
outcome_has_evidence s t [] ne h = absurd (ne (ok_inj h))
outcome_has_evidence s t (u ∷ us) ne h =
    let (how, rest) = accepted s u us t h in
    elim (Bool-cases (state_eq u.to t)) [
      | inl same ↦ elim how [
        | inl stays ↦ absurd (ne (stays ∙ (state_eq_iff u.to t).0 same))
        | inr ev ↦ (u, Memᴰ.head refl, outcome_backed s t u ((state_eq_iff u.to t).0 same) ev)
      ]
      | inr other ↦
          let differ : u.to ≢ t = λ e. cc (other, (state_eq_iff u.to t).1 e) in
          let (v, m, p) = outcome_has_evidence u.to t us differ rest in (v, Memᴰ.tail m, p)
    ]

run_one :
    (s t : TxnState) (u : Update)
    → s ≢ t
    → u.to ≡ t
    → HasEvidence (input_of s u)
    → run s (u ∷ []) ≡ ok t
run_one s t u ne e ev =
    rw (assert_txn_transition_moves (input_of s u) (λ same. ne (same ∙ e)) ev) (rw e refl)

open_edges :
    (s : TxnState)
    → is_in_flight s ≡ true
    → (is_settled s ≡ false)
      × (s ≢ failed)
      × (s ≢ success)
      × (contains TxnState-discrete failed (allowed s) ≡ true)
      × (s ≢ pending → contains TxnState-discrete success (allowed s) ≡ true)
unfolding is_in_flight is_settled TxnState-discrete
open_edges pending h = ground arith
open_edges _ h = ground arith

-- From every state in flight there is an edge to FAILED, and from all but PENDING one to SUCCESS.
in_flight_can_settle :
    (s : TxnState) (u : Update)
    → is_in_flight s ≡ true
    → (Proves failed u → run s (u ∷ []) ≡ ok failed)
      × (s ≢ pending → Proves success u → run s (u ∷ []) ≡ ok success)
in_flight_can_settle s u flying =
    let (unsettled, ne_failed, ne_success, to_failed, to_success) = open_edges s flying in
    (
      λ (e, code). run_one s failed u ne_failed e (record {
        open_state = unsettled;
        edge = rw e to_failed;
        source = λ x. cc (e, x);
        receipt = λ x. cc (e, x);
        code = λ _. code;
      }),
      λ ne (e, source, receipt). run_one s success u ne_success e (record {
        open_state = unsettled;
        edge = rw e (to_success ne);
        source = λ _. source;
        receipt = λ _. receipt;
        code = λ x. cc (e, x);
      }),
    )

-- A submitted transaction in flight is never stuck: an update with a provider's receipt settles it as
-- SUCCESS, and one with a failure code as FAILED.
pub provider_outcome_settles :
    (s t : TxnState) (u : Update)
    → is_in_flight s ≡ true
    → s ≢ pending
    → (t ≡ success) ⊎ (t ≡ failed)
    → Proves t u
    → run s (u ∷ []) ≡ ok t
provider_outcome_settles s success u flying ne which ev = (in_flight_can_settle s u flying).1 ne ev
provider_outcome_settles s failed u flying ne which ev = (in_flight_can_settle s u flying).0 ev
provider_outcome_settles s _ u flying ne which ev = absurd (ground arith)
