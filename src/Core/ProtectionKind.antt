-- ===== src/Core/ProtectionKind.antt =====
-- The string type ProtectionKind of internal/core/entry.go.
use workspace_janitor.Prelude.{String, Bool, List, [], ◌∷◌}
use workspace_janitor.Core.Contract.{valid_enum, parse_enum, ParseResult}

-- The last constructor stands for any string that is none of the constants.
pub data ProtectionKind : Type 0 where
  active_process registered_agent owning_job dirty_repository stashed_work unpublished_commits
        broken_git_metadata lock_held service_reference sensitive_content live_database
        durable_evidence symlink_escape identity_changed insufficient_space cross_filesystem
        collector_failure policy_protected archive_only_root :
      ProtectionKind
  other_protection : String → ProtectionKind

unfoldable pub to_string : ProtectionKind → String
to_string active_process = "active_process"
to_string registered_agent = "registered_agent"
to_string owning_job = "owning_job"
to_string dirty_repository = "dirty_repository"
to_string stashed_work = "stashed_work"
to_string unpublished_commits = "unpublished_commits"
to_string broken_git_metadata = "broken_git_metadata"
to_string lock_held = "lock_held"
to_string service_reference = "service_reference"
to_string sensitive_content = "sensitive_content"
to_string live_database = "live_database"
to_string durable_evidence = "durable_evidence"
to_string symlink_escape = "symlink_escape"
to_string identity_changed = "identity_changed"
to_string insufficient_space = "insufficient_space"
to_string cross_filesystem = "cross_filesystem"
to_string collector_failure = "collector_failure"
to_string policy_protected = "policy_protected"
to_string archive_only_root = "archive_only_root"
to_string (other_protection s) = s

unfoldable pub protection_kinds : List ProtectionKind
protection_kinds =
    active_process ∷ registered_agent ∷ owning_job ∷ dirty_repository ∷ stashed_work
    ∷ unpublished_commits ∷ broken_git_metadata ∷ lock_held ∷ service_reference ∷ sensitive_content
    ∷ live_database ∷ durable_evidence ∷ symlink_escape ∷ identity_changed ∷ insufficient_space
    ∷ cross_filesystem ∷ collector_failure ∷ policy_protected ∷ archive_only_root ∷ []

unfoldable pub valid : ProtectionKind → Bool
unfolding protection_kinds to_string valid_enum
valid k = valid_enum to_string k protection_kinds

unfoldable pub parse : String → ParseResult ProtectionKind
unfolding protection_kinds to_string parse_enum
parse s = parse_enum to_string "protection kind" s protection_kinds
