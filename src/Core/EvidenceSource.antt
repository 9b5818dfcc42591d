-- ===== src/Core/EvidenceSource.antt =====
-- The string type EvidenceSource of internal/core/entry.go.
use workspace_janitor.Prelude.{String, Bool, List, [], ◌∷◌}
use workspace_janitor.Core.Contract.{valid_enum, parse_enum, ParseResult}

-- The last constructor stands for any string that is none of the constants.
pub data EvidenceSource : Type 0 where
  filesystem git process service scheduler job cache_tool policy model operator : EvidenceSource
  other_source : String → EvidenceSource

unfoldable pub to_string : EvidenceSource → String
to_string filesystem = "filesystem"
to_string git = "git"
to_string process = "process"
to_string service = "service"
to_string scheduler = "scheduler"
to_string job = "job"
to_string cache_tool = "cache_tool"
to_string policy = "policy"
to_string model = "model"
to_string operator = "operator"
to_string (other_source s) = s

unfoldable pub evidence_sources : List EvidenceSource
evidence_sources =
    filesystem ∷ git ∷ process ∷ service ∷ scheduler ∷ job ∷ cache_tool ∷ policy ∷ model ∷ operator
    ∷ []

unfoldable pub valid : EvidenceSource → Bool
unfolding evidence_sources to_string valid_enum
valid k = valid_enum to_string k evidence_sources

unfoldable pub parse : String → ParseResult EvidenceSource
unfolding evidence_sources to_string parse_enum
parse s = parse_enum to_string "evidence source" s evidence_sources
