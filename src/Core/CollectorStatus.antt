-- ===== src/Core/CollectorStatus.antt =====
-- The string type CollectorStatus of internal/core/plan.go.
use workspace_janitor.Prelude.{String, Bool, List, [], ◌∷◌}
use workspace_janitor.Core.Contract.{valid_enum, parse_enum, ParseResult}

-- The last constructor stands for any string that is none of the constants.
pub data CollectorStatus : Type 0 where
  ran partial failed skipped : CollectorStatus
  other_collector_status : String → CollectorStatus

unfoldable pub to_string : CollectorStatus → String
to_string ran = "ran"
to_string partial = "partial"
to_string failed = "failed"
to_string skipped = "skipped"
to_string (other_collector_status s) = s

unfoldable pub collector_statuses : List CollectorStatus
collector_statuses = ran ∷ partial ∷ failed ∷ skipped ∷ []

unfoldable pub valid : CollectorStatus → Bool
unfolding collector_statuses to_string valid_enum
valid k = valid_enum to_string k collector_statuses

unfoldable pub parse : String → ParseResult CollectorStatus
unfolding collector_statuses to_string parse_enum
parse s = parse_enum to_string "collector status" s collector_statuses
