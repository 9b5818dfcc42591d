-- ===== src/Safety/Guards/Location.antt =====
-- internal/safety/guards.go: where the entry lies, what its name says, and who claims it.
pub mod Exact
use workspace_janitor.Prelude.{
  String, Bool, true, false, not, ◌&&◌, ◌||◌, Option, none, some, List, [], ◌∷◌, ◌++◌, is_empty,
  str_eq, concat, quote, if◌then◌else◌,
}
use workspace_janitor.Prelude.Filepath.{base}
use workspace_janitor.Prelude.Match.{match_path}
use workspace_janitor.Core.Paths.{path_within, paths_overlap, is_database_path}
use workspace_janitor.Core.EntryKind.{EntryKind, file, symlink}
use workspace_janitor.Core.ArtifactClass.{ArtifactClass, evidence_class}
use workspace_janitor.Core.EvidenceSource.{EvidenceSource}
use workspace_janitor.Core.ProtectionKind.{
  owning_job, sensitive_content, live_database, durable_evidence, symlink_escape, collector_failure,
  policy_protected,
}
use workspace_janitor.Core.Entry.{Entry, Protection}
use workspace_janitor.Safety.Input.{Input, Policy, JobRef, owning, job_state_string, protect}
use workspace_janitor.Safety.Guards.Raise.{raise_if}

is_symlink : EntryKind → Bool
is_symlink symlink = true
is_symlink _ = false

is_file : EntryKind → Bool
is_file file = true
is_file _ = false

is_evidence : ArtifactClass → Bool
is_evidence evidence_class = true
is_evidence _ = false

symlink_protections : Entry → List Protection
unfolding raise_if
symlink_protections e =
    if is_empty e.canonical_path
    then protect symlink_escape EvidenceSource.filesystem
        (concat ("symlink " ∷ e.path ∷ " was not resolved, so its target is unknown" ∷ []))
      ∷ []
    else if is_empty e.root
    then protect symlink_escape EvidenceSource.filesystem (
        concat (
          "symlink " ∷ e.path ∷ " has no recorded discovery root, so containment of "
          ∷ e.canonical_path ∷ " cannot be judged" ∷ []))
      ∷ []
    else raise_if (not (path_within e.canonical_path e.root)) (
        protect symlink_escape EvidenceSource.filesystem (
          concat (
            "symlink " ∷ e.path ∷ " resolves to " ∷ e.canonical_path ∷ ", outside root " ∷ e.root
            ∷ [])))

unfoldable pub guard_symlink_containment : Input → List Protection
unfolding is_symlink symlink_protections
guard_symlink_containment i = if is_symlink i.entry.kind then symlink_protections i.entry else []

unfoldable pub own_dirs : List String → List String
own_dirs [] = []
own_dirs (d ∷ ds) = let rest = own_dirs ds in if is_empty d then rest else d ∷ rest

-- The policy's paths, then the janitor's own directories.
unfoldable pub protected_locations : Policy → List String
unfolding own_dirs
protected_locations p = p.protected_paths ++ own_dirs (p.state_dir ∷ p.quarantine_dir ∷ [])

location_reason : String → String → String
location_reason path candidate =
    if not (str_eq path candidate) && path_within candidate path
    then concat (path ∷ " contains the protected location " ∷ candidate ∷ [])
    else concat (candidate ∷ " is a protected location" ∷ [])

overlapping : String → List String → List Protection
unfolding location_reason
overlapping path [] = []
overlapping path (c ∷ cs) =
    let rest = overlapping path cs in
    if is_empty c || not (paths_overlap path c)
    then rest
    else protect policy_protected EvidenceSource.policy (location_reason path c) ∷ rest

unfoldable pub guard_protected_paths : Input → List Protection
unfolding overlapping
guard_protected_paths i = overlapping i.entry.path (protected_locations i.policy)

-- An unusable pattern is an unknown, not an all-clear.
name_protection : String → String → Option Bool → List Protection
unfolding raise_if
name_protection name pattern none =
    protect collector_failure EvidenceSource.policy (
      concat
        ("protected-name pattern " ∷ quote pattern ∷ " is invalid: syntax error in pattern" ∷ []))
    ∷ []
name_protection name pattern (some hit) = raise_if hit (
    protect sensitive_content EvidenceSource.policy
      (concat (name ∷ " matches protected name pattern " ∷ quote pattern ∷ [])))

sensitive : String → List String → List Protection
unfolding name_protection
sensitive name [] = []
sensitive name (p ∷ ps) = name_protection name p (match_path p name) ++ sensitive name ps

unfoldable pub guard_sensitive_names : Input → List Protection
unfolding sensitive
guard_sensitive_names i = sensitive (base i.entry.path) i.policy.name_patterns

unfoldable pub guard_live_databases : Input → List Protection
unfolding is_file raise_if
guard_live_databases i = raise_if (is_file i.entry.kind && is_database_path i.entry.path) (
    protect live_database EvidenceSource.filesystem
      (concat (base i.entry.path ∷ " looks like a database file and may have an open writer" ∷ [])))

unfoldable pub guard_durable_evidence : Input → List Protection
unfolding is_evidence raise_if
guard_durable_evidence i = raise_if (is_evidence i.entry.class) (
    protect durable_evidence EvidenceSource.filesystem
      (concat (i.entry.path ∷ " is classified as durable evidence" ∷ [])))

claims : String → JobRef → Bool
claims path j = owning j.state && not (is_empty j.path) && paths_overlap path j.path

job_protection : JobRef → Protection
job_protection j = protect owning_job EvidenceSource.job (
    concat (
      "job "
      ∷ j.id
      ∷ " ("
      ∷ job_state_string j.state
      ∷ ", owned by "
      ∷ (if is_empty j.owner then "an external scheduler" else j.owner)
      ∷ ") claims "
      ∷ j.path
      ∷ []))

owned : String → List JobRef → List Protection
unfolding claims job_protection
owned path [] = []
owned path (j ∷ js) =
    let rest = owned path js in if claims path j then job_protection j ∷ rest else rest

unfoldable pub guard_job_ownership : Input → List Protection
unfolding owned
guard_job_ownership i = owned i.entry.path i.jobs
