-- ===== src/Core/ActionStatus.antt =====
-- The string type ActionStatus of internal/core/plan.go.
use workspace_janitor.Prelude.{str_eq, false, String, Bool, List, [], ◌∷◌}
use workspace_janitor.Core.Contract.{valid_enum, parse_enum, ParseResult}

-- The last constructor stands for any string that is none of the constants.
pub data ActionStatus : Type 0 where
  pending applied skipped failed reverted : ActionStatus
  other_status : String → ActionStatus

unfoldable pub to_string : ActionStatus → String
to_string pending = "pending"
to_string applied = "applied"
to_string skipped = "skipped"
to_string failed = "failed"
to_string reverted = "reverted"
to_string (other_status s) = s

unfoldable pub action_statuses : List ActionStatus
action_statuses = pending ∷ applied ∷ skipped ∷ failed ∷ reverted ∷ []

unfoldable pub valid : ActionStatus → Bool
unfolding action_statuses to_string valid_enum
valid k = valid_enum to_string k action_statuses

unfoldable pub parse : String → ParseResult ActionStatus
unfolding action_statuses to_string parse_enum
parse s = parse_enum to_string "action status" s action_statuses

-- `k == ""`
unfoldable pub is_unset : ActionStatus → Bool
is_unset (other_status s) = str_eq s ""
is_unset _ = false
