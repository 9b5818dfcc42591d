-- ===== src/Core/ScanStatus.antt =====
-- The string type ScanStatus of internal/core/plan.go.
use workspace_janitor.Prelude.{String, Bool, false, List, [], ◌∷◌, str_eq}
use workspace_janitor.Core.Contract.{valid_enum, parse_enum, ParseResult}

-- The last constructor stands for any string that is none of the constants.
pub data ScanStatus : Type 0 where
  running completed failed : ScanStatus
  other_scan_status : String → ScanStatus

unfoldable pub to_string : ScanStatus → String
to_string running = "running"
to_string completed = "completed"
to_string failed = "failed"
to_string (other_scan_status s) = s

unfoldable pub scan_statuses : List ScanStatus
scan_statuses = running ∷ completed ∷ failed ∷ []

unfoldable pub valid : ScanStatus → Bool
unfolding scan_statuses to_string valid_enum
valid k = valid_enum to_string k scan_statuses

unfoldable pub parse : String → ParseResult ScanStatus
unfolding scan_statuses to_string parse_enum
parse s = parse_enum to_string "scan status" s scan_statuses

-- `k == ""`
unfoldable pub is_unset : ScanStatus → Bool
is_unset (other_scan_status s) = str_eq s ""
is_unset _ = false
