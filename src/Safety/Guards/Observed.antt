-- ===== src/Safety/Guards/Observed.antt =====
-- internal/safety/guards.go: what the collectors observed of the entry itself.
pub mod Exact
use workspace_janitor.Prelude.Int.{pos, ltb_ℤ, itoa_int}
use workspace_janitor.Prelude.{
  Bool, not, ◌&&◌, Option, none, some, List, [], ◌∷◌, ◌++◌, ltb, is_empty, has_prefix, trim_prefix,
  concat, itoa, quote, if◌then◌else◌,
}
use workspace_janitor.Core.EvidenceSource.{EvidenceSource}
use workspace_janitor.Core.ProtectionKind.{
  dirty_repository, stashed_work, unpublished_commits, broken_git_metadata, lock_held,
  durable_evidence, symlink_escape, insufficient_space, cross_filesystem, collector_failure,
  policy_protected,
}
use workspace_janitor.Core.Entry.{Protection, Evidence, GitState, zero_id}
use workspace_janitor.Safety.Remediation.{remediation}
use workspace_janitor.Safety.Input.{Input, protect}
use workspace_janitor.Safety.Guards.Raise.{raise_if}

unfoldable pub with_remedy : Protection → Protection
with_remedy p = if is_empty p.remediation then record p { remediation = remediation p.kind } else p

collected : List Protection → List Protection
unfolding with_remedy
collected [] = []
collected (p ∷ ps) = let rest = collected ps in if p.blocking then with_remedy p ∷ rest else rest

unfoldable pub guard_collected_protections : Input → List Protection
unfolding collected
guard_collected_protections i = collected i.entry.protections

is_unknown : Evidence → Bool
is_unknown e = has_prefix e.signal "unknown:"

unknown_protection : Evidence → Protection
unknown_protection e =
    let what = trim_prefix e.signal "unknown:" in
    let detail = if is_empty e.detail then what else e.detail in
    protect collector_failure e.source
      (concat ("unresolved observation " ∷ quote what ∷ ": " ∷ detail ∷ []))

unknowns : List Evidence → List Protection
unfolding is_unknown unknown_protection
unknowns [] = []
unknowns (e ∷ es) =
    let rest = unknowns es in if is_unknown e then unknown_protection e ∷ rest else rest

unfoldable pub guard_unknown_evidence : Input → List Protection
unfolding unknowns
guard_unknown_evidence i = unknowns i.entry.evidence

unfoldable pub guard_filesystem_identity : Input → List Protection
unfolding raise_if
guard_filesystem_identity i = raise_if (zero_id i.entry.filesystem_id) (
    protect collector_failure EvidenceSource.filesystem
      "filesystem identity is unknown, so the target cannot be revalidated before a mutation")

contents_protections : GitState → List Protection
contents_protections s =
    if not s.bare && not s.contents_known
    then (if not (is_empty s.contents_protection)
        then protect policy_protected EvidenceSource.git s.contents_protection ∷ []
        else protect collector_failure EvidenceSource.git
            "worktree ignored contents have not been proven reconstructible"
          ∷ [])
    else []

publication_protections : GitState → List Protection
unfolding raise_if
publication_protections s =
    if s.degraded
    then []
    else if not s.publication_known && not s.bare
    then protect unpublished_commits EvidenceSource.git
        "publication against remote-tracking branches was not measured, so local commits cannot be shown as published"
      ∷ []
    else raise_if (ltb_ℤ (pos 0) s.unpublished_commits) (
        protect unpublished_commits EvidenceSource.git (
          concat (
            itoa_int s.unpublished_commits
            ∷ " commit(s) are not on any remote-tracking branch"
            ∷ [])))

git_protections : Option GitState → List Protection
unfolding raise_if contents_protections publication_protections
git_protections none = []
git_protections (some s) =
    raise_if s.degraded (
      protect broken_git_metadata EvidenceSource.git (
        if is_empty s.degraded_reason
        then "Git state could not be collected"
        else s.degraded_reason))
    ++ contents_protections s
    ++ raise_if (ltb_ℤ (pos 0) s.dirty_files) (
        protect dirty_repository EvidenceSource.git
          (concat (itoa_int s.dirty_files ∷ " uncommitted change(s)" ∷ [])))
    ++ raise_if (ltb_ℤ (pos 0) s.stashes) (
        protect stashed_work EvidenceSource.git
          (concat (itoa_int s.stashes ∷ " stash entr(ies)" ∷ [])))
    ++ raise_if s.locked (protect lock_held EvidenceSource.git "a Git lock file is present")
    ++ publication_protections s

unfoldable pub guard_git_state : Input → List Protection
unfolding git_protections
guard_git_state i = git_protections i.entry.git
