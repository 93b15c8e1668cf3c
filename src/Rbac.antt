-- ===== src/Rbac.antt =====
-- Role-based access control (packages/core/src/rbac.ts): authority levels, permissions, the
-- permission matrix and the checks that every privileged handler makes.
pub mod Laws
use slvrn.Prelude.{
  ℕ, ◌≡◌, Bool, true, false, ◌&&◌, List, [], ◌∷◌, map, contains, is_yes, leb, if◌then◌else◌,
}
use slvrn.Prelude.Text.{Text, text_eq}
use slvrn.Errors.{
  Result, ok, throw, authorization_error, actor_not_active, permission_denied,
  cross_organization_denied,
}

pub data AuthorityLevel : Type 0 where
  l1 l2 l3 : AuthorityLevel

abbrev pub level_rank : AuthorityLevel → ℕ
level_rank l1 = 1
level_rank l2 = 2
level_rank l3 = 3

pub data Permission : Type 0 where
  recipients_read recipients_write departments_read departments_write batch_create batch_edit
        batch_validate batch_read batch_submit_to_l2 batch_review batch_approve_to_l3 batch_reject
        batch_hold batch_cancel payment_authorize payment_release transactions_read
        transactions_export_failed transactions_export_all transactions_refresh_status
        transactions_retry reconciliation_read reconciliation_resolve dashboard_balance_panel
        dashboard_recent_transactions_panel analytics_basic analytics_advanced analytics_executive
        ai_batch_analysis ai_financial_analysis ai_executive_intelligence reports_operational
        reports_management reports_executive admin_users admin_policies admin_security admin_daraja
        admin_backups audit_read_own_scope audit_read_org audit_read_full :
      Permission

unfoldable pub Permission-discrete : Discrete Permission
Permission-discrete = hlevel

-- `PERMISSIONS`.
abbrev pub permissions : List Permission
permissions =
    recipients_read ∷ recipients_write ∷ departments_read ∷ departments_write ∷ batch_create
    ∷ batch_edit ∷ batch_validate ∷ batch_read ∷ batch_submit_to_l2 ∷ batch_review
    ∷ batch_approve_to_l3 ∷ batch_reject ∷ batch_hold ∷ batch_cancel ∷ payment_authorize
    ∷ payment_release ∷ transactions_read ∷ transactions_export_failed ∷ transactions_export_all
    ∷ transactions_refresh_status ∷ transactions_retry ∷ reconciliation_read
    ∷ reconciliation_resolve ∷ dashboard_balance_panel ∷ dashboard_recent_transactions_panel
    ∷ analytics_basic ∷ analytics_advanced ∷ analytics_executive ∷ ai_batch_analysis
    ∷ ai_financial_analysis ∷ ai_executive_intelligence ∷ reports_operational ∷ reports_management
    ∷ reports_executive ∷ admin_users ∷ admin_policies ∷ admin_security ∷ admin_daraja
    ∷ admin_backups ∷ audit_read_own_scope ∷ audit_read_org ∷ audit_read_full ∷ []

-- `MATRIX`: a set is the list of its members.
abbrev pub matrix : AuthorityLevel → List Permission
matrix l1 =
    recipients_read ∷ recipients_write ∷ departments_read ∷ batch_create ∷ batch_edit
    ∷ batch_validate ∷ batch_read ∷ batch_submit_to_l2 ∷ transactions_read
    ∷ transactions_export_failed ∷ analytics_basic ∷ ai_batch_analysis ∷ reports_operational
    ∷ audit_read_own_scope ∷ []
matrix l2 =
    recipients_read ∷ recipients_write ∷ departments_read ∷ departments_write ∷ batch_create
    ∷ batch_edit ∷ batch_validate ∷ batch_read ∷ batch_review ∷ batch_approve_to_l3 ∷ batch_reject
    ∷ batch_hold ∷ transactions_read ∷ transactions_export_failed ∷ transactions_export_all
    ∷ transactions_refresh_status ∷ transactions_retry ∷ reconciliation_read
    ∷ reconciliation_resolve ∷ analytics_basic ∷ analytics_advanced ∷ ai_batch_analysis
    ∷ ai_financial_analysis ∷ reports_operational ∷ reports_management ∷ audit_read_own_scope
    ∷ audit_read_org ∷ []
matrix l3 =
    recipients_read ∷ recipients_write ∷ departments_read ∷ departments_write ∷ batch_create
    ∷ batch_edit ∷ batch_validate ∷ batch_read ∷ batch_review ∷ batch_reject ∷ batch_hold
    ∷ batch_cancel ∷ payment_authorize ∷ payment_release ∷ transactions_read
    ∷ transactions_export_failed ∷ transactions_export_all ∷ transactions_refresh_status
    ∷ transactions_retry ∷ reconciliation_read ∷ reconciliation_resolve ∷ dashboard_balance_panel
    ∷ dashboard_recent_transactions_panel ∷ analytics_basic ∷ analytics_advanced
    ∷ analytics_executive ∷ ai_batch_analysis ∷ ai_financial_analysis ∷ ai_executive_intelligence
    ∷ reports_operational ∷ reports_management ∷ reports_executive ∷ admin_users ∷ admin_policies
    ∷ admin_security ∷ admin_daraja ∷ admin_backups ∷ audit_read_own_scope ∷ audit_read_org
    ∷ audit_read_full ∷ []

pub data ActorStatus : Type 0 where
  active disabled locked : ActorStatus

abbrev pub is_active : ActorStatus → Bool
is_active active = true
is_active _ = false

pub record Actor : Type 0 where
  pub user_id : Text
  pub organization_id : Text
  pub level : AuthorityLevel
  pub status : ActorStatus

unfoldable pub has_permission : Actor → Permission → Bool
unfolding Permission-discrete
has_permission actor permission =
    if is_active actor.status
    then contains Permission-discrete permission (matrix actor.level)
    else false

unfoldable pub require_permission : Actor → Permission → Result (Unit {0})
unfolding Permission-discrete
require_permission actor permission =
    if is_active actor.status
    then if contains Permission-discrete permission (matrix actor.level)
      then ok tt
      else throw (authorization_error permission_denied)
    else throw (authorization_error actor_not_active)

unfoldable pub require_same_organization : Actor → Text → Result (Unit {0})
require_same_organization actor object_organization_id =
    if text_eq actor.organization_id object_organization_id
    then ok tt
    else throw (authorization_error cross_organization_denied)

abbrev pub is_l1 : AuthorityLevel → Bool
is_l1 l1 = true
is_l1 _ = false

unfoldable pub can_export_failed_transactions : Actor → Bool → Bool
unfolding has_permission
can_export_failed_transactions actor allow_l1_failed_export =
    if has_permission actor transactions_export_failed
    then if is_l1 actor.level then allow_l1_failed_export else true
    else false

-- The record as its entries, in the order of `PERMISSIONS`.
unfoldable pub capabilities_for : Actor → List (Permission × Bool)
unfolding has_permission
capabilities_for actor = map (λ p. (p, has_permission actor p)) permissions

unfoldable pub at_least : AuthorityLevel → AuthorityLevel → Bool
at_least level minimum = leb (level_rank minimum) (level_rank level)

-- `permissionsOfActor` (apps/api/src/services/permissions.ts): the loop over `PERMISSIONS`.
permissions_held : Actor → List Permission → List Permission
permissions_held actor [] = []
permissions_held actor (p ∷ ps) =
    let held = permissions_held actor ps in if has_permission actor p then p ∷ held else held

unfoldable pub permissions_of_actor : Actor → List Permission
unfolding permissions_held has_permission
permissions_of_actor actor = permissions_held actor permissions
