-- ===== src/Core/PlanStatus.antt =====
-- The string type PlanStatus of internal/core/plan.go.
use workspace_janitor.Prelude.{String, Bool, false, List, [], ◌∷◌, str_eq}
use workspace_janitor.Core.Contract.{valid_enum, parse_enum, ParseResult}

-- The last constructor stands for any string that is none of the constants.
pub data PlanStatus : Type 0 where
  draft ready applied partially_applied superseded : PlanStatus
  other_plan_status : String → PlanStatus

unfoldable pub to_string : PlanStatus → String
to_string draft = "draft"
to_string ready = "ready"
to_string applied = "applied"
to_string partially_applied = "partially_applied"
to_string superseded = "superseded"
to_string (other_plan_status s) = s

unfoldable pub plan_statuses : List PlanStatus
plan_statuses = draft ∷ ready ∷ applied ∷ partially_applied ∷ superseded ∷ []

unfoldable pub valid : PlanStatus → Bool
unfolding plan_statuses to_string valid_enum
valid k = valid_enum to_string k plan_statuses

unfoldable pub parse : String → ParseResult PlanStatus
unfolding plan_statuses to_string parse_enum
parse s = parse_enum to_string "plan status" s plan_statuses

-- `k == ""`
unfoldable pub is_unset : PlanStatus → Bool
is_unset (other_plan_status s) = str_eq s ""
is_unset _ = false
