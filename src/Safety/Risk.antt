-- ===== src/Safety/Risk.antt =====
-- What makes an entry unsafe to mutate, said without protections: a Boolean for each core invariant.
use workspace_janitor.Prelude.{
  String, Bool, true, false, not, ◌&&◌, ◌||◌, Option, none, some, ◌==◌, is_empty, has_prefix,
}
use workspace_janitor.Prelude.Int.{pos, ltb_ℤ, add64}
use workspace_janitor.Prelude.Filepath.{base}
use workspace_janitor.Prelude.Match.{match_path}
use workspace_janitor.Core.Paths.{path_within, paths_overlap, is_database_path}
use workspace_janitor.Core.EntryKind.{EntryKind, directory, file, symlink}
use workspace_janitor.Core.ArtifactClass.{ArtifactClass, evidence_class}
use workspace_janitor.Core.Entry.{Entry, Evidence, GitState, zero_id}
use workspace_janitor.Safety.Input.{Input, Policy, JobRef, Target, owning}
use workspace_janitor.Prelude.{any}
use workspace_janitor.Core.Entry.{is_blocking}

-- Anything counted, locked, degraded or unmeasured that a mutation would lose, or contents that nothing
-- proved reconstructible. An entry without Git has no risk.
unfoldable pub git_risk : Option GitState → Bool
git_risk none = false
git_risk (some s) =
    s.degraded
    || ltb_ℤ (pos 0) s.dirty_files
    || ltb_ℤ (pos 0) s.stashes
    || ltb_ℤ (pos 0) s.unpublished_commits
    || s.locked
    || not s.bare && not s.publication_known
    || not s.bare && not s.contents_known

-- A symlink that is unresolved, has no root, or leaves its root.
unfoldable pub symlink_risk : EntryKind → Entry → Bool
symlink_risk symlink e =
    is_empty e.canonical_path || is_empty e.root || not (path_within e.canonical_path e.root)
symlink_risk _ e = false

-- An overlap in either direction with a location that is named.
unfoldable pub overlap_risk : String → String → Bool
overlap_risk path location = not (is_empty location) && paths_overlap path location

-- The pattern matches, or cannot be used.
unfoldable pub name_risk : String → String → Bool
name_risk name pattern = elim (match_path pattern name) [ none ↦ true | some hit ↦ hit ]

-- An overlap with a path that the policy protects, or with the janitor's own directories.
unfoldable pub location_risk : String → Policy → Bool
location_risk path p =
    any (overlap_risk path) p.protected_paths
    || (overlap_risk path p.state_dir || overlap_risk path p.quarantine_dir)

unfoldable pub database_risk : EntryKind → Entry → Bool
database_risk file e = is_database_path e.path
database_risk _ e = false

unfoldable pub evidence_risk : ArtifactClass → Bool
evidence_risk evidence_class = true
evidence_risk _ = false

unfoldable pub job_risk : String → JobRef → Bool
job_risk path j = owning j.state && (not (is_empty j.path) && paths_overlap path j.path)

unfoldable pub unknown_risk : Evidence → Bool
unknown_risk e = has_prefix e.signal "unknown:"

same_device : Input → Target → Bool
same_device i t = not (zero_id i.entry.filesystem_id) && (t.device == i.entry.filesystem_id.device)

unmeasured_directory : EntryKind → Bool → Bool
unmeasured_directory directory deep = not deep
unmeasured_directory _ deep = false

-- An unknown destination; another device without a copy policy; a copy of unmeasured size or without
-- headroom.
unfoldable pub target_risk : Input → Option Target → Bool
unfolding same_device unmeasured_directory
target_risk i none = false
target_risk i (some t) =
    not t.known
    || not (same_device i t)
      && (not i.policy.allow_cross_filesystem_copy && not (zero_id i.entry.filesystem_id)
          || unmeasured_directory i.entry.kind i.entry.size_is_deep
          || ltb_ℤ t.free_bytes (add64 i.entry.size_bytes i.policy.min_free_bytes))

-- Everything for which a mutation of the entry must be refused.
unfoldable pub unsafe : Input → Bool
unsafe i =
    any is_blocking i.entry.protections
    || (any unknown_risk i.entry.evidence
        || (zero_id i.entry.filesystem_id
            || (git_risk i.entry.git
                || (symlink_risk i.entry.kind i.entry
                    || (location_risk i.entry.path i.policy
                        || (any (name_risk (base i.entry.path)) i.policy.name_patterns
                            || (database_risk i.entry.kind i.entry
                                || (evidence_risk i.entry.class
                                    || (any (job_risk i.entry.path) i.jobs
                                        || target_risk i i.target)))))))))
