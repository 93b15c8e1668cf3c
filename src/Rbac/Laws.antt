-- ===== src/Rbac/Laws.antt =====
-- What the permission matrix guarantees (packages/core/src/rbac.ts).
use slvrn.Prelude.{◌≡◌, refl, ◌↔◌, ◌&&◌, true, List, [], ◌∷◌, contains, get, get-map, some, arith}
use slvrn.Errors.{ok}
use slvrn.Rbac.{
  Permission, Actor, active, l1, l2, l3, permissions, has_permission, require_permission,
  Permission-discrete, capabilities_for, permissions_held, permissions_of_actor, recipients_read,
  batch_submit_to_l2, batch_approve_to_l3, payment_release,
}

-- The throwing check and the predicate agree.
pub require_permission_iff :
    (actor : Actor) (p : Permission)
    → (require_permission actor p ≡ ok tt) ↔ (has_permission actor p ≡ true)
unfolding require_permission has_permission
require_permission_iff actor p = ground arith

-- `PERMISSIONS` lists every permission.
pub permissions_complete : (p : Permission) → contains Permission-discrete p permissions ≡ true
unfolding Permission-discrete
permissions_complete recipients_read = refl
permissions_complete _ = refl

-- The map of capabilities that the client is sent has for every permission exactly the answer of
-- `hasPermission`.
pub get-capabilities_for :
    (actor : Actor) (p : Permission)
    → get Permission-discrete p (capabilities_for actor) ≡ some (has_permission actor p)
unfolding capabilities_for
get-capabilities_for actor p =
    rw (get-map Permission-discrete (has_permission actor) p permissions, permissions_complete p)

contains-permissions_held :
    (actor : Actor) (p : Permission) (ps : List Permission)
    → contains Permission-discrete p (permissions_held actor ps)
      ≡ (contains Permission-discrete p ps && has_permission actor p)
unfolding permissions_held
contains-permissions_held actor p [] = refl
contains-permissions_held actor p (q ∷ ps) = ground (arith, contains-permissions_held actor p ps)

-- The set that the routes hand to the batch machine holds exactly what `hasPermission` grants.
pub contains-permissions_of_actor :
    (actor : Actor) (p : Permission)
    → contains Permission-discrete p (permissions_of_actor actor) ≡ has_permission actor p
unfolding permissions_of_actor
contains-permissions_of_actor actor p =
    rw (contains-permissions_held actor p permissions, permissions_complete p)

-- The three duties of a payment lie with three levels.
pub duties_separate :
    (actor : Actor)
    → (has_permission actor batch_submit_to_l2 ≡ true
        → (actor.status ≡ active) × (actor.level ≡ l1))
      × (has_permission actor batch_approve_to_l3 ≡ true
          → (actor.status ≡ active) × (actor.level ≡ l2))
      × (has_permission actor payment_release ≡ true → (actor.status ≡ active) × (actor.level ≡ l3))
unfolding has_permission Permission-discrete
duties_separate actor = ground arith
