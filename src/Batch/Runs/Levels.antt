-- ===== src/Batch/Runs/Levels.antt =====
-- The minimum level of an edge against the levels that can traverse it
-- (packages/core/src/batch-state.ts, rbac.ts).
use mathlib.Core.List.{Memᴰ}
use slvrn.Prelude.{
  ◌≡◌, refl, sym, ◌∙◌, ◌↔◌, ◌⊎◌, inl, inr, Bool, true, false, Option, none, some, All, All-Mem,
  subst, arith,
}
use slvrn.Errors.{ok}
use slvrn.Rbac.{
  AuthorityLevel, Actor, active, l2, l3, Permission, Permission-discrete, permissions_of_actor,
  has_permission, batch_hold, batch_reject, at_least,
}
use slvrn.Rbac.Laws.{contains-permissions_of_actor}
use slvrn.Batch.{
  BatchState, draft, l3_ready, held, BatchCommand, hold, reject, BatchEdge, batch_edges, batch_edge,
  assert_transition, lacks,
}
use slvrn.Batch.Laws.{assert_transition_complete}
use slvrn.Batch.Runs.{by, account, options_of, order_sound}

-- The Boolean of "holds the edge's permission".
abbrev holds_permission : Actor → Option Permission → Bool
holds_permission a none = true
holds_permission a (some p) = has_permission a p

holds_permission_of_Holds :
    (a : Actor) (q : Option Permission)
    → ((p : Permission) → q ≡ some p → has_permission a p ≡ true)
    → holds_permission a q ≡ true
holds_permission_of_Holds a none h = refl
holds_permission_of_Holds a (some p) h = h p refl

abbrev IsUnderRanked : Actor → BatchEdge → AuthorityLevel → Type 0
IsUnderRanked a edge minimum =
    (edge.minimum_level ≡ some minimum) × (at_least a.level minimum ≡ false)

abbrev IsException : Actor → BatchState → BatchCommand → Type 0
IsException a s command =
    (a.status ≡ active) × (a.level ≡ l2) × (s ≡ l3_ready) × ((command ≡ hold) ⊎ (command ≡ reject))

exceptions :
    (a : Actor) (minimum : AuthorityLevel)
    → All
        (λ (edge : BatchEdge).
          holds_permission a edge.permission ≡ true
          → IsUnderRanked a edge minimum
          → IsException a edge.source edge.command)
        batch_edges
unfolding batch_edges has_permission Permission-discrete at_least
exceptions a minimum = ground arith

-- An edge that an active L2 officer can traverse below its level.
module _ (a : Actor) (status : a.status ≡ active) (level : a.level ≡ l2) where
  below :
      (edge : BatchEdge) (p : Permission)
      → Memᴰ edge batch_edges
      → edge.permission ≡ some p
      → edge.system_only ≡ false
      → edge.minimum_level ≡ some l3
      → has_permission a p ≡ true
      → (x : BatchEdge) × (minimum : AuthorityLevel) × (assert_transition edge.source edge.command
            (options_of (account a))
          ≡ ok x)
        × IsUnderRanked a x minimum
  unfolding at_least
  below edge p m permission human minimum has =
      let lacking : lacks edge.permission (permissions_of_actor a) ≡ false =
        rw (permission, contains-permissions_of_actor a p, has) in
      (
        edge,
        l3,
        assert_transition_complete (options_of (account a)) edge m
            (inr (human, (_, refl, lacking))),
        (minimum, ground arith),
      )

  l2_can_hold :
      (x : BatchEdge) × (minimum : AuthorityLevel) × (assert_transition l3_ready hold
          (options_of (account a))
        ≡ ok x)
      × IsUnderRanked a x minimum
  unfolding batch_edges has_permission Permission-discrete
  l2_can_hold =
      below (batch_edge l3_ready hold held (some batch_hold) (some l3) false) batch_hold
        (search (Memᴰ.head, Memᴰ.tail) depth 20) refl refl refl (ground arith)

  l2_can_reject :
      (x : BatchEdge) × (minimum : AuthorityLevel) × (assert_transition l3_ready reject
          (options_of (account a))
        ≡ ok x)
      × IsUnderRanked a x minimum
  unfolding batch_edges has_permission Permission-discrete
  l2_can_reject =
      below (batch_edge l3_ready reject draft (some batch_reject) (some l3) false) batch_reject
        (search (Memᴰ.head, Memᴰ.tail) depth 20) refl refl refl (ground arith)

-- An account passes below an edge's minimum level exactly where an active L2 officer holds or
-- rejects a batch that is ready for L3.
pub below_minimum_level_iff :
    (a : Actor) (s : BatchState) (command : BatchCommand)
    → ((edge : BatchEdge) × (minimum : AuthorityLevel) × (assert_transition s command
            (options_of (account a))
          ≡ ok edge)
        × IsUnderRanked a edge minimum)
      ↔ IsException a s command
below_minimum_level_iff a s command = (
  λ (edge, minimum, h, low).
      let (m, source, command', holds) = order_sound s (by a command) edge h in
      let has = holds_permission_of_Holds a edge.permission holds.1 in
      let (status, level, state, which) = All-Mem _ batch_edges (exceptions a minimum) m has low in
      (status, level, sym source ∙ state, subst (λ x. (x ≡ hold) ⊎ (x ≡ reject)) command' which),
  λ (status, level, state, which). elim which [
    | inl e ↦ rw (state, e) (l2_can_hold a status level)
    | inr e ↦ rw (state, e) (l2_can_reject a status level)
  ],
)
