-- ===== src/Core/Plan.antt =====
-- internal/core/plan.go: a plan, its summary, and the approval of one of its actions.
pub mod Summary
pub mod Approval
pub mod Usage
pub mod Bound
use workspace_janitor.Prelude.{
  ℕ, suc, String, Bool, not, ◌||◌, Option, List, [], ◌∷◌, ◌++◌, map, is_blank, is_empty, concat,
  itoa, str_eq, str_lt, ◌==◌, sort_by, if◌then◌else◌, any,
}
use workspace_janitor.Prelude.Int.{pos}
use workspace_janitor.Core.Contract.{contract_version}
use workspace_janitor.Core.Errors.{text, number, FieldErrors, add_if, error_or_nil}
use workspace_janitor.Core.Retention.{Time, is_zero_time}
use workspace_janitor.Core.PlanStatus
use workspace_janitor.Core.PlanStatus.{PlanStatus, draft}
use workspace_janitor.Core.Action.{Action, normalize_action, validate_action}

pub record Plan : Type 0 where
  pub contract_version : ℕ
  pub id : String
  pub scan_id : String
  pub status : PlanStatus
  pub created_at : Time
  pub evidence_digest : String
  pub policy_digest : String
  pub advisor : String
  pub actions : List Action

unfoldable pub action_less : Action → Action → Bool
action_less a b = if not (str_eq a.path b.path) then str_lt a.path b.path else str_lt a.id b.id

-- `p.Actions[i].PlanID = p.ID; p.Actions[i].Normalize()`
unfoldable pub stamp : String → Action → Action
stamp plan_id a = normalize_action (record a { plan_id = plan_id })

unfoldable pub normalize : Plan → Plan
unfolding stamp action_less
normalize p = record p {
  contract_version = if p.contract_version == 0 then contract_version else p.contract_version;
  status = if PlanStatus.is_unset p.status then draft else p.status;
  advisor = if is_empty p.advisor then "rules-only" else p.advisor;
  actions = sort_by action_less (map (stamp p.id) p.actions);
}

unfoldable pub action_field : ℕ → String
action_field i = concat ("actions[" ∷ itoa i ∷ "]" ∷ [])

-- `seen` holds the ids of the actions before.
unfoldable pub identity_errors : String → List String → ℕ → Action → FieldErrors
unfolding action_field
identity_errors plan_id seen i a =
    add_if (any (str_eq a.id) seen) (concat (action_field i ∷ ".id" ∷ [])) "duplicate action id %q"
      (text a.id ∷ [])
    ++ add_if (not (str_eq a.plan_id plan_id)) (concat (action_field i ∷ ".plan_id" ∷ []))
        "must be %q, got %q" (text plan_id ∷ text a.plan_id ∷ [])

unfoldable pub action_errors : String → List String → ℕ → List Action → FieldErrors
action_errors plan_id seen i [] = []
action_errors plan_id seen i (a ∷ rest) =
    validate_action (action_field i) a
    ++ identity_errors plan_id seen i a
    ++ action_errors plan_id (a.id ∷ seen) (suc i) rest

unfoldable pub header_errors : Plan → FieldErrors
header_errors p =
    add_if (not (p.contract_version == contract_version)) "contract_version" "must be %d, got %d"
      (number (pos contract_version) ∷ number (pos p.contract_version) ∷ [])
    ++ add_if (is_blank p.id) "id" "must not be empty" []
    ++ add_if (is_blank p.scan_id) "scan_id" "must not be empty" []
    ++ add_if (not (PlanStatus.valid p.status)) "status" "unknown plan status %q"
        (text (PlanStatus.to_string p.status) ∷ [])
    ++ add_if (is_zero_time p.created_at) "created_at" "must be set" []

unfoldable pub validate : Plan → Option FieldErrors
unfolding header_errors action_errors
validate p = error_or_nil (header_errors p ++ action_errors p.id [] 0 p.actions)
