-- ===== src/Core/ActionKind.antt =====
-- The string type ActionKind of internal/core/plan.go.
use workspace_janitor.Prelude.{
  String, Bool, true, false, List, [], ◌∷◌, str_eq, ltb, if◌then◌else◌, ℕ,
}
use workspace_janitor.Core.Contract.{valid_enum, parse_enum, ParseResult}

-- The last constructor stands for any string that is none of the constants.
pub data ActionKind : Type 0 where
  keep relocate quarantine delete_candidate investigate : ActionKind
  other_action : String → ActionKind

unfoldable pub to_string : ActionKind → String
to_string keep = "keep"
to_string relocate = "relocate"
to_string quarantine = "quarantine"
to_string delete_candidate = "delete_candidate"
to_string investigate = "investigate"
to_string (other_action s) = s

unfoldable pub action_kinds : List ActionKind
action_kinds = keep ∷ relocate ∷ quarantine ∷ delete_candidate ∷ investigate ∷ []

unfoldable pub valid : ActionKind → Bool
unfolding action_kinds to_string valid_enum
valid k = valid_enum to_string k action_kinds

unfoldable pub parse : String → ParseResult ActionKind
unfolding action_kinds to_string parse_enum
parse s = parse_enum to_string "action kind" s action_kinds

unfoldable pub mutating : ActionKind → Bool
mutating relocate = true
mutating quarantine = true
mutating delete_candidate = true
mutating _ = false

-- The table `riskRank`, and the rank of a kind that it does not hold: the number of its rows.
unfoldable pub risk_rank : ActionKind → ℕ
risk_rank keep = 0
risk_rank investigate = 1
risk_rank relocate = 2
risk_rank quarantine = 3
risk_rank delete_candidate = 4
risk_rank (other_action s) = 5

unfoldable pub safer : ActionKind → ActionKind → ActionKind
unfolding risk_rank
safer k other = if ltb (risk_rank other) (risk_rank k) then other else k

-- `a == b`
unfoldable pub eq : ActionKind → ActionKind → Bool
eq keep keep = true
eq relocate relocate = true
eq quarantine quarantine = true
eq delete_candidate delete_candidate = true
eq investigate investigate = true
eq (other_action s) (other_action t) = str_eq s t
eq _ _ = false
