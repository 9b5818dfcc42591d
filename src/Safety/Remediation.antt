-- ===== src/Safety/Remediation.antt =====
-- internal/safety/remediation.go: the action that clears each protection.
use workspace_janitor.Prelude.{String, ◌≡◌, refl, false, is_blank}
use workspace_janitor.Core.ProtectionKind.{
  ProtectionKind, active_process, registered_agent, owning_job, dirty_repository, stashed_work,
  unpublished_commits, broken_git_metadata, lock_held, service_reference, sensitive_content,
  live_database, durable_evidence, symlink_escape, identity_changed, insufficient_space,
  cross_filesystem, collector_failure, policy_protected, archive_only_root, other_protection,
}

unfoldable pub remediation : ProtectionKind → String
remediation active_process =
    "stop the process using this path, or exclude the path, then scan again"
remediation registered_agent =
    "release or finish the registered agent holding this directory, then scan again"
remediation owning_job = "wait for the owning job to finish, or cancel it, then scan again"
remediation dirty_repository = "commit, stash, or discard the uncommitted changes, then scan again"
remediation stashed_work = "apply or drop the stash entries, then scan again"
remediation unpublished_commits =
    "push the local commits, or set an upstream so publication can be verified, then scan again"
remediation broken_git_metadata =
    "repair the repository metadata (for example a dangling .git pointer), then scan again"
remediation lock_held =
    "let the Git operation finish and remove the stale lock file, then scan again"
remediation service_reference =
    "remove the systemd, cron, or PM2 reference to this path, then scan again"
remediation sensitive_content =
    "move the credential material elsewhere, or adjust protect.name_patterns if the match is wrong"
remediation live_database =
    "stop the database writer and move the file deliberately; the janitor will not move a live database"
remediation durable_evidence =
    "copy the evidence to a durable location first; it is never cleaned up in place"
remediation symlink_escape =
    "resolve the symlink, or enable follow_symlinks for a root that fully contains its target"
remediation identity_changed =
    "re-scan and re-plan: the path changed after it was planned, so the plan no longer describes it"
remediation insufficient_space =
    "free space on the destination filesystem, or lower safety.min_free_bytes deliberately"
remediation cross_filesystem =
    "point retention.quarantine_dir at the same filesystem, or set safety.allow_cross_filesystem_quarantine"
remediation collector_failure =
    "re-run the scan so the failed collector can observe this path; unknown state is treated as unsafe"
remediation policy_protected =
    "adjust protect.paths if this location should not be protected; core locations stay protected regardless"
remediation archive_only_root =
    "only an owner-approved workspace_archive_categories entry may archive this; it is never cleaned up otherwise"
remediation (other_protection s) =
    "inspect the reported evidence for this protection and resolve it, then scan again"

-- No protection is a dead end: every kind, known or not, has a remedy that is not blank.
pub remediation_not_blank : (k : ProtectionKind) → is_blank (remediation k) ≡ false
unfolding remediation is_blank
remediation_not_blank active_process = refl
remediation_not_blank _ = refl
