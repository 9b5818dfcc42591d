-- ===== src/Plan/Proposals.antt =====
-- internal/plan/rules.go: every rule's opinion about an entry, in the order of precedence.
pub mod Bounded
pub mod Gather
pub mod Ordered
pub mod Builtin
pub mod Tiers
use workspace_janitor.Prelude.{
  ℕ, String, Bool, true, false, not, ◌&&◌, ◌||◌, Option, none, some, List, [], ◌∷◌, ◌++◌, ◌==◌, ltb,
  is_some, str_eq, str_lt, is_empty, has_prefix, concat, itoa, quote, sort_by, if◌then◌else◌, ◌-◌,
}
use workspace_janitor.Prelude.Int.{ℤ, pos, ltb_ℤ, leb_ℤ, itoa_int}
use workspace_janitor.Prelude.Filepath.{base, dir, join_path}
use workspace_janitor.Core.ActionKind.{ActionKind, keep, relocate, quarantine, investigate}
use workspace_janitor.Core.ArtifactClass
use workspace_janitor.Core.ArtifactClass.{
  ArtifactClass, primary_project, task_worktree, generated_artifact, cache, backup,
  operational_tool, evidence_class,
}
use workspace_janitor.Core.EntryKind.{EntryKind, directory, file}
use workspace_janitor.Core.Entry.{Entry, GitState, WorkspaceArchiveBinding, clean_git}
use workspace_janitor.Core.Paths.{path_within, paths_overlap}
use workspace_janitor.Core.Retention.{
  Retention, Time, none_retention, other_retention, expired, hour, is_zero_time,
}
use workspace_janitor.Core.Verdict.{Verdict, refused, summary}
use workspace_janitor.Plan.Policy.{
  Policy, CacheRule, EvidenceExportRule, WorkspaceArchiveRule, CanonicalRoot,
}
use workspace_janitor.Plan.Durations.{duration_string, byte_len}
use workspace_janitor.Plan.Adapters.{is_directory}
use workspace_janitor.Plan.Classify.{Classification, gitmoot_signal}
use workspace_janitor.Prelude.{◌*◌}

abbrev pub worktree_idle : ℕ
worktree_idle = 7 * 24 * hour

pub data Tier : Type 0 where
  tier_safety tier_protected tier_explicit tier_builtin tier_fallback : Tier

unfoldable pub tier_rank : Tier → ℕ
tier_rank tier_safety = 0
tier_rank tier_protected = 1
tier_rank tier_explicit = 2
tier_rank tier_builtin = 3
tier_rank tier_fallback = 4

unfoldable pub tier_string : Tier → String
tier_string tier_safety = "safety"
tier_string tier_protected = "protected"
tier_string tier_explicit = "explicit"
tier_string tier_builtin = "builtin"
tier_string tier_fallback = "fallback"

pub record Proposal : Type 0 where
  pub rule : String
  pub tier : Tier
  pub kind : ActionKind
  pub retention : Retention
  pub destination : String
  pub reason : String
  pub specificity : ℕ

-- The zero value of a retention is the empty string.
abbrev pub unset_retention : Retention
unset_retention = other_retention ""

abbrev pub propose : String → Tier → ActionKind → Retention → ℕ → List String → Proposal
propose rule tier kind retention specificity reason = record {
  rule = rule;
  tier = tier;
  kind = kind;
  retention = retention;
  destination = "";
  reason = concat reason;
  specificity = specificity;
}

same_class : ArtifactClass → ArtifactClass → Bool
same_class a b = str_eq (ArtifactClass.to_string a) (ArtifactClass.to_string b)

root_for : List CanonicalRoot → ArtifactClass → Option String
unfolding same_class
root_for [] class = none
root_for (r ∷ rs) class = if same_class r.class class then some r.path else root_for rs class

unfoldable pub canonical_root_for : Policy → ArtifactClass → Option String
unfolding root_for
canonical_root_for p class = root_for p.canonical_roots class

unfoldable pub foreign_owner : Entry → Policy → Bool
foreign_owner e p = not (p.expected_uid == 0) && not (e.ownership.uid == p.expected_uid)

pub is_file : EntryKind → Bool
is_file file = true
is_file _ = false

-- When the content was last modified: the newest child's time for a directory.
unfoldable pub modified_of : Entry → Time
modified_of e = if is_directory e.kind then e.latest_modified_at else e.modified_at

unfoldable pub bounded_cache_action : Entry → CacheRule → ActionKind × String
unfolding is_file modified_of
bounded_cache_action e rule =
    let modified = modified_of e in
    let has_ttl = ltb_ℤ (pos 0) rule.ttl in
    let has_max = ltb_ℤ (pos 0) rule.max_bytes in
    let unbounded =
      leb_ℤ rule.max_bytes (pos 0)
      && leb_ℤ (pos 0) rule.max_bytes
      && leb_ℤ rule.ttl (pos 0)
      && leb_ℤ (pos 0) rule.ttl in
    if unbounded
    then (rule.action, "no size or age bound is configured")
    else if not (is_directory e.kind) && not (is_file e.kind)
    then (
      investigate, "bounded cache cleanup requires a regular file or a completely sized directory",
    )
    else if is_directory e.kind && not e.size_is_deep
    then (investigate, "complete deep-size evidence is required for bounded directory cleanup")
    else if has_ttl
        && (is_zero_time modified || is_zero_time e.observed_at || ltb e.observed_at modified)
    then (
      investigate, "complete latest modification time and observation time are required for ttl",
    )
    else if has_max && e.size_is_lower_bound && leb_ℤ e.size_bytes rule.max_bytes
    then (
      investigate,
      concat (
          "size is at least "
          ∷ itoa_int e.size_bytes
          ∷ " bytes, which cannot show whether max_bytes "
          ∷ itoa_int rule.max_bytes
          ∷ " is exceeded"
          ∷ []),
    )
    else if has_max && leb_ℤ e.size_bytes rule.max_bytes
    then (
      keep,
      concat (
          "size "
          ∷ itoa_int e.size_bytes
          ∷ " bytes is at or below max_bytes "
          ∷ itoa_int rule.max_bytes
          ∷ []),
    )
    else if has_ttl && ltb_ℤ (pos (e.observed_at - modified)) rule.ttl
    then (
      keep,
      concat (
          "newest content age "
          ∷ duration_string (pos (e.observed_at - modified))
          ∷ " is below ttl "
          ∷ duration_string rule.ttl
          ∷ []),
    )
    else (
      rule.action,
      concat (
          "complete evidence meets max_bytes "
          ∷ itoa_int rule.max_bytes
          ∷ " and ttl "
          ∷ duration_string rule.ttl
          ∷ " at observation time"
          ∷ []),
    )
