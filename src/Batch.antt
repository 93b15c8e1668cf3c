-- ===== src/Batch.antt =====
-- The payment batch lifecycle (packages/core/src/batch-state.ts): states, commands, the table of
-- edges, its index, and the one function that lets a batch change state.
pub mod Laws
pub mod Runs
pub mod Driven
use slvrn.Prelude.{
  ◌≡◌, Bool, true, false, not, ◌&&◌, List, [], ◌∷◌, map, Option, none, some, contains, get, put,
  is_yes, keep_if, if◌then◌else◌,
}
use slvrn.Errors.{
  Result, ok, throw, ◌>>=◌, state_error, authorization_error, batch_transition_invalid,
  batch_transition_system_only, batch_transition_actor_required, batch_transition_permission_denied,
}
use slvrn.Rbac.{
  AuthorityLevel, l1, l2, l3, Permission, Permission-discrete, batch_approve_to_l3, batch_cancel,
  batch_edit, batch_hold, batch_reject, batch_review, batch_submit_to_l2, batch_validate,
  payment_authorize, payment_release,
}

pub data BatchState : Type 0 where
  draft validated submitted_to_l2 l2_review l3_ready authorization_pending authorized queued
        submitted processing success partial_success failed timeout held cancelled :
      BatchState

unfoldable pub BatchState-discrete : Discrete BatchState
BatchState-discrete = hlevel

pub data BatchCommand : Type 0 where
  validate invalidate submit_to_l2 begin_l2_review approve_to_l3 reject return_to_l1 hold
        release_hold begin_authorization abandon_authorization authorize enqueue mark_submitted
        mark_processing settle_success settle_partial settle_failed settle_timeout cancel :
      BatchCommand

unfoldable pub BatchCommand-discrete : Discrete BatchCommand
BatchCommand-discrete = hlevel

abbrev pub editable_states : List BatchState
editable_states = draft ∷ validated ∷ []

abbrev pub terminal_states : List BatchState
terminal_states = success ∷ partial_success ∷ failed ∷ cancelled ∷ []

-- `from` and `describes`: the first is `source`, the second, a text for the screen, is left out.
pub record BatchEdge : Type 0 where
  pub source : BatchState
  pub command : BatchCommand
  pub to : BatchState
  pub permission : Option Permission
  pub minimum_level : Option AuthorityLevel
  pub system_only : Bool

abbrev pub batch_edge :
    BatchState
    → BatchCommand
    → BatchState
    → Option Permission
    → Option AuthorityLevel
    → Bool
    → BatchEdge
batch_edge source command to permission minimum_level system_only = record {
  source = source;
  command = command;
  to = to;
  permission = permission;
  minimum_level = minimum_level;
  system_only = system_only;
}

unfoldable pub batch_edges : List BatchEdge
batch_edges =
    batch_edge draft validate validated (some batch_validate) (some l1) false
    ∷ batch_edge validated invalidate draft (some batch_edit) (some l1) false
    ∷ batch_edge validated submit_to_l2 submitted_to_l2 (some batch_submit_to_l2) (some l1) false
    ∷ batch_edge draft cancel cancelled (some batch_cancel) (some l1) false
    ∷ batch_edge validated cancel cancelled (some batch_cancel) (some l1) false
    ∷ batch_edge submitted_to_l2 begin_l2_review l2_review (some batch_review) (some l2) false
    ∷ batch_edge l2_review approve_to_l3 l3_ready (some batch_approve_to_l3) (some l2) false
    ∷ batch_edge l2_review reject draft (some batch_reject) (some l2) false
    ∷ batch_edge l2_review return_to_l1 draft (some batch_reject) (some l2) false
    ∷ batch_edge submitted_to_l2 reject draft (some batch_reject) (some l2) false
    ∷ batch_edge l2_review hold held (some batch_hold) (some l2) false
    ∷ batch_edge submitted_to_l2 hold held (some batch_hold) (some l2) false
    ∷ batch_edge l3_ready hold held (some batch_hold) (some l3) false
    ∷ batch_edge l3_ready reject draft (some batch_reject) (some l3) false
    ∷ batch_edge l3_ready cancel cancelled (some batch_cancel) (some l3) false
    ∷ batch_edge l3_ready begin_authorization authorization_pending (some payment_authorize)
        (some l3) false
    ∷ batch_edge authorization_pending abandon_authorization l3_ready (some payment_authorize)
        (some l3) false
    ∷ batch_edge authorization_pending authorize authorized (some payment_release) (some l3) false
    ∷ batch_edge authorization_pending cancel cancelled (some batch_cancel) (some l3) false
    ∷ batch_edge held release_hold submitted_to_l2 (some batch_hold) (some l2) false
    ∷ batch_edge held cancel cancelled (some batch_cancel) (some l3) false
    ∷ batch_edge authorized enqueue queued none none true
    ∷ batch_edge queued mark_submitted submitted none none true
    ∷ batch_edge submitted mark_processing processing none none true
    ∷ batch_edge queued mark_processing processing none none true
    ∷ batch_edge processing settle_success success none none true
    ∷ batch_edge processing settle_partial partial_success none none true
    ∷ batch_edge processing settle_failed failed none none true
    ∷ batch_edge processing settle_timeout timeout none none true
    ∷ batch_edge submitted settle_timeout timeout none none true
    ∷ batch_edge timeout settle_success success none none true
    ∷ batch_edge timeout settle_partial partial_success none none true
    ∷ batch_edge timeout settle_failed failed none none true
    ∷ []

-- The index's key, a text `from::command` in the source.
pub data EdgeKey : Type 0 where
  key : BatchState → BatchCommand → EdgeKey

unfoldable pub EdgeKey-discrete : Discrete EdgeKey
EdgeKey-discrete = hlevel

-- The loop that fills `EDGE_INDEX`.
unfoldable pub index_edges :
    List BatchEdge → List (EdgeKey × BatchEdge) → List (EdgeKey × BatchEdge)
index_edges [] index = index
index_edges (edge ∷ edges) index =
    index_edges edges (put EdgeKey-discrete (key edge.source edge.command) edge index)

unfoldable pub edge_index : List (EdgeKey × BatchEdge)
unfolding index_edges batch_edges EdgeKey-discrete
edge_index = index_edges batch_edges []

pub record TransitionActor : Type 0 where
  pub level : AuthorityLevel
  pub permissions : List Permission

-- `system` is false where the source leaves it undefined.
pub record TransitionOptions : Type 0 where
  pub system : Bool
  pub actor : Option TransitionActor

-- `edge.permission && !actor.permissions.has(edge.permission)`.
abbrev pub lacks : Option Permission → List Permission → Bool
lacks none granted = false
lacks (some p) granted = not (contains Permission-discrete p granted)

-- The part of `assertTransition` below the look-up.
unfoldable pub check_edge : BatchEdge → TransitionOptions → Result BatchEdge
check_edge edge options =
    if edge.system_only
    then if options.system
      then ok edge
      else throw (authorization_error batch_transition_system_only)
    else elim options.actor [
      | none ↦ throw (authorization_error batch_transition_actor_required)
      | some actor ↦
          if lacks edge.permission actor.permissions
          then throw (authorization_error batch_transition_permission_denied)
          else ok edge
    ]

unfoldable pub assert_transition : BatchState → BatchCommand → TransitionOptions → Result BatchEdge
assert_transition from command options = elim (get EdgeKey-discrete (key from command) edge_index) [
  | none ↦ throw (state_error batch_transition_invalid)
  | some edge ↦ check_edge edge options
]

abbrev pub is_some {ℓ} : {A : Type ℓ} → Option A → Bool
is_some none = false
is_some (some _) = true

unfoldable pub can_transition : BatchState → BatchCommand → Bool
can_transition from command = is_some (get EdgeKey-discrete (key from command) edge_index)

unfoldable pub allowed_commands : BatchState → List BatchCommand
allowed_commands from =
    map (λ (edge : BatchEdge). edge.command)
      (keep_if (λ edge. is_yes (BatchState-discrete from edge.source)) batch_edges)

unfoldable pub is_editable : BatchState → Bool
unfolding BatchState-discrete
is_editable state = contains BatchState-discrete state editable_states

unfoldable pub is_terminal : BatchState → Bool
unfolding BatchState-discrete
is_terminal state = contains BatchState-discrete state terminal_states

unfoldable pub has_left_the_building : BatchState → Bool
has_left_the_building queued = true
has_left_the_building submitted = true
has_left_the_building processing = true
has_left_the_building success = true
has_left_the_building partial_success = true
has_left_the_building failed = true
has_left_the_building timeout = true
has_left_the_building _ = false
