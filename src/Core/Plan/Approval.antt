-- ===== src/Core/Plan/Approval.antt =====
-- internal/core/plan.go: the approval of one action of a plan.
use workspace_janitor.Prelude.{String, Option, [], ◌++◌, is_blank, is_empty, if◌then◌else◌}
use workspace_janitor.Core.Errors.{FieldErrors, add_if, error_or_nil}
use workspace_janitor.Core.Retention.{Time, is_zero_time}

pub record Approval : Type 0 where
  pub plan_id : String
  pub action_id : String
  pub approver : String
  pub approved_at : Time
  pub note : String

unfoldable pub normalize : Approval → Approval
normalize a = record a { approver = if is_empty a.approver then "operator" else a.approver }

unfoldable pub validate : Approval → Option FieldErrors
validate a = error_or_nil (
    add_if (is_blank a.plan_id) "plan_id" "must not be empty" []
    ++ add_if (is_blank a.action_id) "action_id" "must not be empty" []
    ++ add_if (is_blank a.approver) "approver" "must not be empty" []
    ++ add_if (is_zero_time a.approved_at) "approved_at" "must be set" [])
