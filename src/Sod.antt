-- ===== src/Sod.antt =====
-- Separation of duties (packages/core/src/sod.ts).
pub mod Laws
use slvrn.Prelude.{
  ℕ, ◌+◌, ◌*◌, ◌≡◌, Bool, true, false, not, ◌&&◌, ◌||◌, List, [], ◌∷◌, ◌++◌, Option, none, some,
  ltb, leb, ◌==◌, length, if◌then◌else◌,
}
use slvrn.Prelude.Text.{Text, codes, text_eq, text_in, is_text}
use slvrn.Errors.{
  Result, ok, throw, ◌>>=◌, ◌>>◌, throw_if, policy_error, sod_self_approval,
  sod_self_submission_approval, sod_modifier_approval, sod_self_authorization,
  sod_modifier_authorization, sod_approver_authorization, sod_cooling_off, sod_declared_conflict,
}
use slvrn.Rbac.{AuthorityLevel}

pub record BatchParticipants : Type 0 where
  pub created_by_user_id : Text
  pub edited_by_user_ids : List Text
  pub approved_by_user_id : Option Text
  pub submitted_by_user_id : Option Text

pub record SodContext : Type 0 where
  pub actor_user_id : Text
  pub actor_level : AuthorityLevel
  pub participants : BatchParticipants

unfoldable pub assert_not_self_approval : SodContext → Result (Unit {0})
assert_not_self_approval ctx = do
  throw_if (text_eq ctx.participants.created_by_user_id ctx.actor_user_id)
      (policy_error sod_self_approval)
  throw_if (is_text ctx.participants.submitted_by_user_id ctx.actor_user_id)
      (policy_error sod_self_submission_approval)
  throw_if (text_in ctx.actor_user_id ctx.participants.edited_by_user_ids)
      (policy_error sod_modifier_approval)

unfoldable pub assert_not_self_authorization : SodContext → Result (Unit {0})
assert_not_self_authorization ctx = do
  throw_if (text_eq ctx.participants.created_by_user_id ctx.actor_user_id)
      (policy_error sod_self_authorization)
  throw_if (text_in ctx.actor_user_id ctx.participants.edited_by_user_ids)
      (policy_error sod_modifier_authorization)
  throw_if (is_text ctx.participants.approved_by_user_id ctx.actor_user_id)
      (policy_error sod_approver_authorization)

-- `elapsed < coolingOffSeconds` with times in epoch milliseconds, written without the division and
-- without the subtraction, which may be negative.
abbrev pub elapsed_below : ℕ → ℕ → ℕ → Bool
elapsed_below last now seconds = ltb now (last + seconds * 1000)

unfoldable pub assert_cooling_off : Option ℕ → ℕ → ℕ → Result (Unit {0})
assert_cooling_off none now cooling_off_seconds = ok tt
assert_cooling_off (some last_material_edit_at) now cooling_off_seconds =
    if cooling_off_seconds == 0
    then ok tt
    else throw_if (elapsed_below last_material_edit_at now cooling_off_seconds)
        (policy_error sod_cooling_off)

pub data ScopeType : Type 0 where
  recipient department organization : ScopeType

pub record ConflictRegistration : Type 0 where
  pub user_id : Text
  pub scope_type : ScopeType
  pub scope_id : Option Text
  pub reason : Text

-- `scopeId !== null && ids.includes(scopeId)`.
abbrev pub scope_in : Option Text → List Text → Bool
scope_in none ids = false
scope_in (some id) ids = text_in id ids

abbrev pub is_hit : ScopeType → Option Text → List Text → List Text → Bool
is_hit organization scope_id recipient_ids department_ids = true
is_hit recipient scope_id recipient_ids department_ids = scope_in scope_id recipient_ids
is_hit department scope_id recipient_ids department_ids = scope_in scope_id department_ids

-- `conflicts.filter((c) => c.userId === actorUserId)`.
unfoldable pub mine : Text → List ConflictRegistration → List ConflictRegistration
mine actor_user_id [] = []
mine actor_user_id (c ∷ cs) =
    let rest = mine actor_user_id cs in if text_eq c.user_id actor_user_id then c ∷ rest else rest

-- The loop over them.
unfoldable pub check_conflicts :
    List Text → List Text → List ConflictRegistration → Result (Unit {0})
check_conflicts recipient_ids department_ids [] = ok tt
check_conflicts recipient_ids department_ids (c ∷ cs) = do
  throw_if (is_hit c.scope_type c.scope_id recipient_ids department_ids)
      (policy_error sod_declared_conflict)
  check_conflicts recipient_ids department_ids cs

unfoldable pub assert_no_declared_conflict :
    Text → List ConflictRegistration → List Text → List Text → Result (Unit {0})
assert_no_declared_conflict actor_user_id conflicts recipient_ids department_ids =
    check_conflicts recipient_ids department_ids (mine actor_user_id conflicts)
