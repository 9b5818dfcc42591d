-- ===== src/Core/Origin.antt =====
-- The string type RecommendationOrigin of internal/core/plan.go.
use workspace_janitor.Prelude.{String, Bool, List, [], ◌∷◌}
use workspace_janitor.Core.Contract.{valid_enum, parse_enum, ParseResult}

-- The last constructor stands for any string that is none of the constants.
pub data RecommendationOrigin : Type 0 where
  rules policy model fallback operator : RecommendationOrigin
  other_origin : String → RecommendationOrigin

unfoldable pub to_string : RecommendationOrigin → String
to_string rules = "rules"
to_string policy = "policy"
to_string model = "model"
to_string fallback = "fallback"
to_string operator = "operator"
to_string (other_origin s) = s

unfoldable pub recommendation_origins : List RecommendationOrigin
recommendation_origins = rules ∷ policy ∷ model ∷ fallback ∷ operator ∷ []

unfoldable pub valid : RecommendationOrigin → Bool
unfolding recommendation_origins to_string valid_enum
valid k = valid_enum to_string k recommendation_origins

unfoldable pub parse : String → ParseResult RecommendationOrigin
unfolding recommendation_origins to_string parse_enum
parse s = parse_enum to_string "recommendation origin" s recommendation_origins
