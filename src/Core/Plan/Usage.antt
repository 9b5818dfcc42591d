-- ===== src/Core/Plan/Usage.antt =====
-- internal/core/plan.go: one billed interaction with a model. The estimated cost is a float64 that is
-- not a number, or a value in thousandths of a dollar.
use workspace_janitor.Prelude.{String, Bool, Option, [], ◌++◌, ◌∷◌, is_blank}
use workspace_janitor.Prelude.Int.{ℤ, pos, ltb_ℤ}
use workspace_janitor.Core.Errors.{number, FieldErrors, add_if, error_or_nil}
use workspace_janitor.Core.Entry.{Confidence, nan, thousandths}
use workspace_janitor.Core.Retention.{Time, is_zero_time}

pub record ModelUsage : Type 0 where
  pub id : String
  pub scan_id : String
  pub provider : String
  pub model : String
  pub request_kind : String
  pub prompt_tokens : ℤ
  pub completion_tokens : ℤ
  pub estimated_cost_usd : Confidence
  pub created_at : Time

-- `f < 0`
negative : Confidence → Bool
negative nan = Bool.false
negative (thousandths c) = ltb_ℤ c (pos 0)

unfoldable pub validate : ModelUsage → Option FieldErrors
unfolding negative
validate u = error_or_nil (
    add_if (is_blank u.id) "id" "must not be empty" []
    ++ add_if (is_blank u.provider) "provider" "must not be empty" []
    ++ add_if (is_blank u.model) "model" "must not be empty" []
    ++ add_if (ltb_ℤ u.prompt_tokens (pos 0)) "prompt_tokens" "must not be negative, got %d"
        (number u.prompt_tokens ∷ [])
    ++ add_if (ltb_ℤ u.completion_tokens (pos 0)) "completion_tokens" "must not be negative, got %d"
        (number u.completion_tokens ∷ [])
    ++ add_if (negative u.estimated_cost_usd) "estimated_cost_usd" "must not be negative, got %v" []
    ++ add_if (is_zero_time u.created_at) "created_at" "must be set" [])
