-- ===== src/Batch/Runs.antt =====
-- Whole lives of a batch: sequences of accepted transitions, each written back as the new state
-- (packages/core/src/batch-state.ts with the actors of packages/core/src/rbac.ts).
pub mod Officers
pub mod Levels
use mathlib.Core.List.{Memᴰ}
use native.Mathlib.Decide.{dec_le}
use slvrn.Prelude.{
  ℕ, zero, suc, ◌≤◌, ◌≡◌, refl, ◌↔◌, ◌⊎◌, inl, inr, Bool, true, false, ◌&&◌, List, [], ◌∷◌, Option,
  none, some, All, All-Mem, subst, is_yes, if◌then◌else◌, contains, not, arith, Bool-cases,
}
use slvrn.Errors.{Result, ok, ◌>>=◌, >>=-eq-ok}
use slvrn.Rbac.{
  AuthorityLevel, Actor, active, l1, l2, l3, Permission, Permission-discrete, permissions_of_actor,
  has_permission, batch_submit_to_l2, batch_approve_to_l3, payment_release, at_least,
}
use slvrn.Rbac.Laws.{contains-permissions_of_actor, duties_separate}
use slvrn.Batch.{
  BatchState, draft, validated, submitted_to_l2, l2_review, l3_ready, authorization_pending,
  authorized, queued, submitted, processing, success, partial_success, failed, timeout, held,
  cancelled, BatchCommand, BatchCommand-discrete, submit_to_l2, approve_to_l3, authorize, hold,
  reject, BatchEdge, batch_edges, TransitionActor, TransitionOptions, assert_transition,
  has_left_the_building, is_terminal, lacks,
}
use slvrn.Batch.Laws.{Permitted, assert_transition_sound}

-- Who issues a command: an account through a route, with the permissions of `permissionsOfActor`,
-- or a worker.
pub data Issuer : Type 0 where
  account : Actor → Issuer
  worker : Issuer

pub record Order : Type 0 where
  pub issuer : Issuer
  pub command : BatchCommand

abbrev pub by : Actor → BatchCommand → Order
by a command = record { issuer = account a; command = command }

abbrev pub options_of : Issuer → TransitionOptions
options_of (account a) = record {
  system = false;
  actor = some (record { level = a.level; permissions = permissions_of_actor a });
}
options_of worker = record { system = true; actor = none }

-- Each accepted transition's `to` is the batch's next state; a refusal ends the sequence.
abbrev pub run : BatchState → List Order → Result BatchState
run s [] = ok s
run s (o ∷ os) = assert_transition s o.command (options_of o.issuer) >>= λ edge. run edge.to os

-- An edge's permission is held by the issuer; a system edge is a worker's.
abbrev pub Holds : BatchEdge → Issuer → Type 0
Holds edge worker = edge.system_only ≡ true
Holds edge (account a) =
    (edge.system_only ≡ false)
    × ((p : Permission) → edge.permission ≡ some p → has_permission a p ≡ true)

granted :
    (a : Actor) (p : Permission) (q : Option Permission)
    → lacks q (permissions_of_actor a) ≡ false
    → q ≡ some p
    → has_permission a p ≡ true
granted a p none g e = cc
granted a p (some r) g e = ground (arith, contains-permissions_of_actor a p)

actor_of : {x y : TransitionActor} → some x ≡ some y → x ≡ y
actor_of e = cc

state_of : {s t : BatchState} → ok s ≡ ok t → s ≡ t
state_of e = cc

issuer_allowed : (edge : BatchEdge) (i : Issuer) → Permitted edge (options_of i) → Holds edge i
issuer_allowed edge worker (inl (so, sys)) = so
issuer_allowed edge worker (inr (so, (a, e, g))) = cc
issuer_allowed edge (account a) (inl (so, sys)) = cc
issuer_allowed edge (account a) (inr (so, (b, e, g))) =
    (so, λ p q. granted a p edge.permission (rw (← (actor_of e)) at g) q)

order_sound :
    (s : BatchState) (o : Order) (edge : BatchEdge)
    → assert_transition s o.command (options_of o.issuer) ≡ ok edge
    → Memᴰ edge batch_edges × (edge.source ≡ s) × (edge.command ≡ o.command) × Holds edge o.issuer
order_sound s o edge h =
    let (m, source, command, permitted) =
      assert_transition_sound s o.command (options_of o.issuer) edge h in
    (m, source, command, issuer_allowed edge o.issuer permitted)

-- A property of every edge that leads from one state to the next holds along a run.
module _ (P : BatchState → Type 0)
    (kept : All (λ (edge : BatchEdge). P edge.source → P edge.to) batch_edges) where
  run_keeps : (s t : BatchState) (os : List Order) → run s os ≡ ok t → P s → P t
  run_keeps s t [] h p = subst P (state_of h) p
  run_keeps s t (o ∷ os) h p =
      let (edge, e, rest) = >>=-eq-ok _ _ h in
      let (m, source, _, _) = order_sound s o edge e in
      run_keeps edge.to t os rest
        (All-Mem (λ (x : BatchEdge). P x.source → P x.to) batch_edges kept m (rw source p))

left_kept :
    All
      (λ (edge : BatchEdge).
        has_left_the_building edge.source ≡ true → has_left_the_building edge.to ≡ true)
      batch_edges
unfolding batch_edges has_left_the_building
left_kept = ground arith

-- Once money may have moved, no sequence of commands brings the batch back or cancels it.
pub left_for_good :
    (s t : BatchState) (os : List Order)
    → has_left_the_building s ≡ true
    → run s os ≡ ok t
    → has_left_the_building t ≡ true
left_for_good s t os l h = run_keeps (λ x. has_left_the_building x ≡ true) left_kept s t os h l
