-- ===== src/Txn.antt =====
-- The execution state of one transaction (packages/core/src/txn-state.ts).
pub mod Laws
pub mod Runs
pub mod Paths
use slvrn.Prelude.{
  ◌≡◌, Bool, true, false, not, ◌&&◌, ◌||◌, List, [], ◌∷◌, Option, none, some, contains, is_yes,
  if◌then◌else◌,
}
use slvrn.Prelude.Text.{Text, codes, trim, is_empty, text_in}
use slvrn.Errors.{
  Result, ok, throw, ◌>>=◌, ◌>>◌, throw_if, state_error, txn_already_settled,
  txn_transition_invalid, txn_success_requires_provider_evidence, txn_success_requires_receipt,
  txn_failure_requires_code,
}

pub data TxnState : Type 0 where
  pending submitted awaiting_callback processing reconciling success failed timeout cancelled :
      TxnState

unfoldable pub TxnState-discrete : Discrete TxnState
TxnState-discrete = hlevel

-- `TXN_STATES`.
abbrev pub txn_states : List TxnState
txn_states =
    pending ∷ submitted ∷ awaiting_callback ∷ processing ∷ reconciling ∷ success ∷ failed ∷ timeout
    ∷ cancelled ∷ []

abbrev pub in_flight_states : List TxnState
in_flight_states = pending ∷ submitted ∷ awaiting_callback ∷ processing ∷ reconciling ∷ timeout ∷ []

abbrev pub failed_export_states : List TxnState
failed_export_states = failed ∷ []

abbrev pub ambiguous_export_states : List TxnState
ambiguous_export_states = timeout ∷ awaiting_callback ∷ reconciling ∷ []

abbrev pub settled_states : List TxnState
settled_states = success ∷ failed ∷ cancelled ∷ []

pub data TxnStatusSource : Type 0 where
  sync_ack callback queue_timeout status_query system : TxnStatusSource

-- `ALLOWED`.
abbrev pub allowed : TxnState → List TxnState
allowed pending = submitted ∷ failed ∷ cancelled ∷ []
allowed submitted = awaiting_callback ∷ processing ∷ success ∷ failed ∷ timeout ∷ []
allowed awaiting_callback = processing ∷ success ∷ failed ∷ timeout ∷ reconciling ∷ []
allowed processing = success ∷ failed ∷ timeout ∷ reconciling ∷ []
allowed reconciling = success ∷ failed ∷ timeout ∷ []
allowed timeout = reconciling ∷ success ∷ failed ∷ []
allowed success = []
allowed failed = []
allowed cancelled = []

-- `from` is `before`. A receipt or code that is null or undefined is `none`.
pub record TxnTransitionInput : Type 0 where
  pub before : TxnState
  pub to : TxnState
  pub source : TxnStatusSource
  pub provider_receipt : Option Text
  pub failure_code : Option Text

pub record TxnTransitionResult : Type 0 where
  pub to : TxnState
  pub opens_reconciliation : Bool

-- `!text || text.trim() === ''`.
unfoldable pub is_blank : Option Text → Bool
is_blank none = true
is_blank (some text) = is_empty text || is_empty (trim text)

abbrev pub is_system : TxnStatusSource → Bool
is_system system = true
is_system _ = false

-- `a === b` on states.
unfoldable pub state_eq : TxnState → TxnState → Bool
unfolding TxnState-discrete
state_eq a b = is_yes (TxnState-discrete a b)

unfoldable pub is_settled : TxnState → Bool
is_settled state = contains TxnState-discrete state settled_states

unfoldable pub is_in_flight : TxnState → Bool
is_in_flight state = contains TxnState-discrete state in_flight_states

-- The guards of `assertTxnTransition` in order: settled, allowed, the evidence for SUCCESS, the
-- code for FAILED.
unfoldable pub check_success : TxnTransitionInput → Result (Unit {0})
check_success input =
    if state_eq input.to success
    then (do
      throw_if (is_system input.source) (state_error txn_success_requires_provider_evidence)
      throw_if (is_blank input.provider_receipt) (state_error txn_success_requires_receipt))
    else ok tt

unfoldable pub assert_txn_transition : TxnTransitionInput → Result TxnTransitionResult
assert_txn_transition input =
    if state_eq input.before input.to
    then ok (record { to = input.to; opens_reconciliation = false })
    else do
      throw_if (contains TxnState-discrete input.before settled_states)
          (state_error txn_already_settled)
      throw_if (not (contains TxnState-discrete input.to (allowed input.before)))
          (state_error txn_transition_invalid)
      check_success input
      throw_if (state_eq input.to failed && is_blank input.failure_code)
          (state_error txn_failure_requires_code)
      ok (record {
        to = input.to;
        opens_reconciliation = state_eq input.to timeout || state_eq input.to reconciling;
      })

pub data Tone : Type 0 where
  success danger warning info neutral : Tone

unfoldable pub status_tone : TxnState → Tone
status_tone success = Tone.success
status_tone failed = danger
status_tone timeout = warning
status_tone reconciling = info
status_tone awaiting_callback = info
status_tone cancelled = neutral
status_tone _ = info

-- The codes that fail again whatever is done.
abbrev pub permanent_codes : List Text
permanent_codes =
    codes "2001"
    ∷ codes "2040"
    ∷ codes "8006"
    ∷ codes "21"
    ∷ codes "2028"
    ∷ codes "SFC_IC0003"
    ∷ codes "2"
    ∷ codes "3"
    ∷ codes "4"
    ∷ codes "8"
    ∷ []

unfoldable pub is_retry_eligible : TxnState → Option Text → Bool
is_retry_eligible state none = false
is_retry_eligible state (some code) =
    if not (state_eq state failed)
    then false
    else if is_empty code
    then false
    else not (text_in (trim code) permanent_codes)
