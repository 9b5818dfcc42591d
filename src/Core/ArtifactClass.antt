-- ===== src/Core/ArtifactClass.antt =====
-- The string type ArtifactClass of internal/core/entry.go.
use workspace_janitor.Prelude.{str_eq, false, String, Bool, List, [], ◌∷◌}
use workspace_janitor.Core.Contract.{valid_enum, parse_enum, ParseResult}

-- The last constructor stands for any string that is none of the constants.
pub data ArtifactClass : Type 0 where
  primary_project task_worktree generated_artifact cache backup operational_tool evidence_class
        unknown_class :
      ArtifactClass
  other_class : String → ArtifactClass

unfoldable pub to_string : ArtifactClass → String
to_string primary_project = "primary_project"
to_string task_worktree = "task_worktree"
to_string generated_artifact = "generated_artifact"
to_string cache = "cache"
to_string backup = "backup"
to_string operational_tool = "operational_tool"
to_string evidence_class = "durable_evidence"
to_string unknown_class = "unknown"
to_string (other_class s) = s

unfoldable pub artifact_classes : List ArtifactClass
artifact_classes =
    primary_project ∷ task_worktree ∷ generated_artifact ∷ cache ∷ backup ∷ operational_tool
    ∷ evidence_class ∷ unknown_class ∷ []

unfoldable pub valid : ArtifactClass → Bool
unfolding artifact_classes to_string valid_enum
valid k = valid_enum to_string k artifact_classes

unfoldable pub parse : String → ParseResult ArtifactClass
unfolding artifact_classes to_string parse_enum
parse s = parse_enum to_string "artifact class" s artifact_classes

-- `k == ""`
unfoldable pub is_unset : ArtifactClass → Bool
is_unset (other_class s) = str_eq s ""
is_unset _ = false
