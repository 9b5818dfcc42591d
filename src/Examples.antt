-- ===== src/Examples.antt =====
-- Concrete runs: the theorems applied to a worktree, a job, a cache rule and a cleanup journal.
pub mod Witnesses
pub mod Runs
pub mod Machines
pub mod Moves
pub mod Plans
pub mod Receipts
pub mod Preflights
use workspace_janitor.Prelude.{
  ℕ, ◌-◌, ◌+◌, ◌*◌, ◌≡◌, ◌≤◌, refl, String, Bool, true, false, not, ◌&&◌, ◌||◌, Option, none, some,
  List, [], ◌∷◌, any, ltb, is_some,
}
use workspace_janitor.Prelude.Int.{ℤ, pos, ltb_ℤ, leb_ℤ}
use workspace_janitor.Core.ActionKind
use workspace_janitor.Core.ActionKind.{keep, quarantine, investigate, mutating, risk_rank}
use workspace_janitor.Core.ActionStatus
use workspace_janitor.Core.ArtifactClass
use workspace_janitor.Core.EntryKind
use workspace_janitor.Core.EvidenceSource
use workspace_janitor.Core.Origin
use workspace_janitor.Core.Retention
use workspace_janitor.Core.Retention.{days7, none_retention}
use workspace_janitor.Core.Entry.{
  Entry, FilesystemId, Ownership, GitState, Evidence, Recommendation, thousandths,
}
use workspace_janitor.Core.Action.{Action}
use workspace_janitor.Core.Verdict.{Verdict, refused, allows}
use workspace_janitor.Core.Cleanup
use workspace_janitor.Core.Cleanup.{CleanupItem}
use workspace_janitor.Core.Capacity.{CapacityState, CapacitySnapshot, advance_pressure, expire}
use workspace_janitor.Safety.Input.{Input, Policy, JobRef, Target, running}
use workspace_janitor.Safety.Engine.{evaluate}
use workspace_janitor.Safety.Revalidate.{RevalidateInput, Observation, observed, revalidate}
use workspace_janitor.Plan.Policy.{CacheRule, Names}
use workspace_janitor.Plan.Policy.{Policy as PlanPolicy}

abbrev pub worktree_git : GitState
worktree_git = record {
  repo_root = "/repos/app";
  worktree_of = "/repos/main";
  bare = false;
  remote = "origin";
  branch = "task";
  head = "abc";
  upstream_known = true;
  last_activity = 1;
  publication_known = true;
  contents_known = true;
  contents_protection = "";
  source_approval_fingerprint = "";
  dirty_files = pos 0;
  stashes = pos 0;
  unpublished_commits = pos 0;
  locked = false;
  degraded = false;
  degraded_reason = "";
}

-- A directory that no collector protects.
abbrev pub scratch : Entry
scratch = record {
  contract_version = 1;
  path = "/repos/app";
  root = "/repos";
  kind = EntryKind.directory;
  filesystem_id = record { device = 1; inode = 7 };
  ownership = record { uid = 1000; gid = 1000; mode = "0755" };
  size_bytes = pos 100;
  size_is_lower_bound = false;
  size_is_deep = true;
  modified_at = 5;
  latest_modified_at = 5;
  accessed_at = 5;
  symlink_target = "";
  canonical_path = "";
  destination = "";
  fingerprint = "";
  class = ArtifactClass.unknown_class;
  git = none;
  export_archive = none;
  workspace_archive = none;
  evidence = [];
  protections = [];
  recommendation = none;
  observed_at = 1_000_000_000_000_000;
}

-- Its own time is recent, its newest content is old.
abbrev pub aged : Entry
aged = record scratch { modified_at = 1_000_000_000_000_000 }

abbrev pub worktree : Entry
worktree = record scratch { git = some worktree_git }

abbrev pub policy : Policy
policy = record {
  protected_paths = "/etc" ∷ [];
  name_patterns = [];
  state_dir = "/var/janitor";
  quarantine_dir = "/quarantine";
  allow_cross_filesystem_copy = false;
  min_free_bytes = pos 50;
}

abbrev pub job : JobRef
job = record { id = "j1"; state = running; path = "/repos/app/sub"; owner = "agent" }

abbrev pub destination : Target
destination = record {
  dir = "/quarantine";
  device = 1;
  free_bytes = pos 1000;
  known = true;
  detail = "";
}

abbrev pub free_input : Input
free_input = record {
  entry = scratch;
  policy = policy;
  jobs = [];
  target = some destination;
  now = 0;
  clock = 9;
}

-- The same directory while a job works below it.
abbrev pub busy_input : Input
busy_input = record free_input { jobs = job ∷ [] }

abbrev pub planned_action : Action
planned_action = record {
  id = "a1";
  plan_id = "p1";
  path = "/repos/app";
  kind = quarantine;
  class = ArtifactClass.unknown_class;
  retention = days7;
  confidence = thousandths (pos 900);
  status = ActionStatus.pending;
  destination = "";
  filesystem_id = record { device = 1; inode = 7 };
  fingerprint = "";
  reasons = [];
  rules = [];
  rejected = [];
  guards = [];
  created_at = 3;
  applied_at = none;
}

abbrev pub recheck : RevalidateInput
recheck = record {
  planned = scratch;
  action = planned_action;
  policy = policy;
  jobs = [];
  target = some destination;
  now = 0;
  clock = 9;
  recollect =
      some (λ p. observed (record scratch { filesystem_id = record { device = 1; inode = 8 } }));
  handle = none;
}

abbrev pub names : Names
names = record {
  project_markers = "go.mod" ∷ [];
  worktree_markers = [];
  generated_names = "dist" ∷ [];
  cache_names = ".cache" ∷ [];
  backup_names = [];
  operational_names = [];
  evidence_names = [];
}

abbrev pub rule : CacheRule
rule = record {
  name = "app";
  path = "/repos/app";
  action = quarantine;
  retention = days7;
  max_bytes = pos 10;
  ttl = pos 1000;
}

abbrev pub plan_policy : PlanPolicy
plan_policy = record {
  protect_paths = [];
  gitmoot_home = "";
  canonical_roots = [];
  classification = names;
  caches = rule ∷ [];
  evidence_exports = [];
  workspace_archives = [];
  investigate_foreign_owner = true;
  expected_uid = 0;
  default_retention = days7;
}

abbrev pub advice : Recommendation
advice = record {
  action = keep;
  class = ArtifactClass.backup;
  retention = none_retention;
  confidence = thousandths (pos 800);
  origin = Origin.model;
  reasons = "looks needed" ∷ [];
  decided_at = 4;
}

abbrev pub item : CleanupItem
item = record {
  cleanup_id = "c1";
  plan_id = "p1";
  action_id = "a1";
  source = "/repos/app";
  destination = "/quarantine/c1/a1";
  state = "prepared";
  entry = scratch;
  action = planned_action;
  quarantine = none;
  created_at = 10;
  updated_at = 10;
  moved_at = none;
  expires_at = none;
  reason = "";
}

abbrev pub moved : CleanupItem
moved = record item {
  state = "quarantined";
  quarantine = some (record scratch { path = "/quarantine/c1/a1"; root = "/quarantine" });
  updated_at = 20;
  moved_at = some 20;
}

abbrev pub low_volume : CapacityState
low_volume = record {
  key = "1";
  device = 1;
  roots = "/repos" ∷ [];
  state = "critical";
  available_bytes = some 60;
  total_bytes = some 100;
  target_bytes = 40;
  reserve_bytes = 20;
  recovery_bytes = 80;
  admission_hold = true;
  reason = "";
}

abbrev pub snapshot : CapacitySnapshot
snapshot = record { sampled_at = 10; valid_until = 20; policy_hash = ""; volumes = low_volume ∷ [] }
