-- ===== src/Plan/Policy.antt =====
-- internal/config/policy.go: the parts of the policy document that the planner's rules read.
use workspace_janitor.Prelude.{ℕ, String, Bool, List}
use workspace_janitor.Prelude.Int.{ℤ}
use workspace_janitor.Core.ActionKind.{ActionKind}
use workspace_janitor.Core.ArtifactClass.{ArtifactClass}
use workspace_janitor.Core.Retention.{Retention, Time}

pub record CacheRule : Type 0 where
  pub name : String
  pub path : String
  pub action : ActionKind
  pub retention : Retention
  pub max_bytes : ℤ
  pub ttl : ℤ

pub record EvidenceExportRule : Type 0 where
  pub name : String
  pub path : String
  pub completed_at : Time
  pub local_expiry_enabled : Bool
  pub local_retention : Retention

pub record WorkspaceArchiveRule : Type 0 where
  pub name : String
  pub path : String
  pub local_expiry_enabled : Bool
  pub local_retention : Retention

pub record CanonicalRoot : Type 0 where
  pub class : ArtifactClass
  pub path : String

pub record Names : Type 0 where
  pub project_markers : List String
  pub worktree_markers : List String
  pub generated_names : List String
  pub cache_names : List String
  pub backup_names : List String
  pub operational_names : List String
  pub evidence_names : List String

pub record Policy : Type 0 where
  pub protect_paths : List String
  pub gitmoot_home : String
  pub canonical_roots : List CanonicalRoot
  pub classification : Names
  pub caches : List CacheRule
  pub evidence_exports : List EvidenceExportRule
  pub workspace_archives : List WorkspaceArchiveRule
  pub investigate_foreign_owner : Bool
  pub expected_uid : ℕ
  pub default_retention : Retention
