-- ===== src/Tests/Approvals.antt =====
-- The theorems on batches, officers and policy at concrete inputs.
use mathlib.Core.List.{Memᴰ}
use slvrn.Prelude.{◌≡◌, refl, inl, ◌↔◌, true, false, List, [], ◌∷◌, none, some}
use slvrn.Prelude.Text.{codes}
use slvrn.Errors.{ok}
use slvrn.Rbac
use slvrn.Rbac.{
  Actor, active, l1, l2, l3, has_permission, payment_release, capabilities_for,
  permissions_of_actor, require_permission, Permission-discrete,
}
use slvrn.Batch.{
  draft, queued, l3_ready, authorized, BatchCommand, validate, submit_to_l2, begin_l2_review,
  approve_to_l3, begin_authorization, authorize, enqueue, hold, batch_edge, assert_transition,
  has_left_the_building, edge_index, batch_edges, check_edge, BatchEdge,
}
use slvrn.Batch.Laws.{assert_transition_iff, Permitted}
use slvrn.Batch.Runs.{Order, by, worker, run, account, options_of}
use slvrn.Batch.Runs.Officers.{release_needs_three_officers, IsOfficer, InOrder}
use slvrn.Batch.Runs.Levels.{below_minimum_level_iff}

abbrev clerk : Actor
clerk = record { user_id = codes "u1"; organization_id = codes "o"; level = l1; status = active }

abbrev reviewer : Actor
reviewer = record { user_id = codes "u2"; organization_id = codes "o"; level = l2; status = active }

abbrev director : Actor
director = record { user_id = codes "u3"; organization_id = codes "o"; level = l3; status = active }

abbrev of_worker : BatchCommand → Order
of_worker command = record { issuer = worker; command = command }

abbrev released : List Order
released =
    by clerk validate
    ∷ by clerk submit_to_l2
    ∷ by reviewer begin_l2_review
    ∷ by reviewer approve_to_l3
    ∷ by director begin_authorization
    ∷ by director authorize
    ∷ of_worker enqueue
    ∷ []

queue_reached : run draft released ≡ ok queued
unfolding assert_transition edge_index permissions_of_actor has_permission check_edge
queue_reached = refl

release_needs_three_officers_example :
    (a : Actor) × (b : Actor) × (c : Actor) × IsOfficer a l1
    × IsOfficer b l2
    × IsOfficer c l3
    × InOrder (by a submit_to_l2 ∷ by b approve_to_l3 ∷ by c authorize ∷ []) released
unfolding has_left_the_building
release_needs_three_officers_example =
    release_needs_three_officers queued released queue_reached refl

assert_transition_iff_example :
    (assert_transition authorized enqueue (options_of worker)
      ≡ ok (batch_edge authorized enqueue queued none none true))
    ↔ (Memᴰ (batch_edge authorized enqueue queued none none true) batch_edges
        × (authorized ≡ authorized)
        × (enqueue ≡ enqueue)
        × Permitted (batch_edge authorized enqueue queued none none true) (options_of worker))
assert_transition_iff_example = assert_transition_iff authorized enqueue (options_of worker) _

below_minimum_level_iff_example :
    (edge : BatchEdge) × (minimum : Rbac.AuthorityLevel) × (assert_transition l3_ready hold
        (options_of (account reviewer))
      ≡ ok edge)
    × ((edge.minimum_level ≡ some minimum) × (Rbac.at_least l2 minimum ≡ false))
below_minimum_level_iff_example =
    (below_minimum_level_iff reviewer l3_ready hold).1 (refl, refl, refl, inl refl)
