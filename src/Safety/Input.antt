-- ===== src/Safety/Input.antt =====
-- internal/safety/safety.go: the policy, jobs and destination that one evaluation considers.
use workspace_janitor.Prelude.{ℕ, String, Bool, true, false, Option, List, if◌then◌else◌}
use workspace_janitor.Prelude.Int.{ℤ}
use workspace_janitor.Core.Retention.{Time, is_zero_time}
use workspace_janitor.Core.Entry.{Entry, Protection}
use workspace_janitor.Core.EvidenceSource.{EvidenceSource}
use workspace_janitor.Core.ProtectionKind.{ProtectionKind}
use workspace_janitor.Safety.Remediation.{remediation}

pub record Policy : Type 0 where
  pub protected_paths : List String
  pub name_patterns : List String
  pub state_dir : String
  pub quarantine_dir : String
  pub allow_cross_filesystem_copy : Bool
  pub min_free_bytes : ℤ

pub data JobState : Type 0 where
  running queued blocked done : JobState
  other_job_state : String → JobState

unfoldable pub job_state_string : JobState → String
job_state_string running = "running"
job_state_string queued = "queued"
job_state_string blocked = "blocked"
job_state_string done = "done"
job_state_string (other_job_state s) = s

unfoldable pub owning : JobState → Bool
owning running = true
owning queued = true
owning blocked = true
owning _ = false

pub record JobRef : Type 0 where
  pub id : String
  pub state : JobState
  pub path : String
  pub owner : String

pub record Target : Type 0 where
  pub dir : String
  pub device : ℕ
  pub free_bytes : ℤ
  pub known : Bool
  pub detail : String

-- `clock` is what `time.Now()` answers during the evaluation.
pub record Input : Type 0 where
  pub entry : Entry
  pub policy : Policy
  pub jobs : List JobRef
  pub target : Option Target
  pub now : Time
  pub clock : Time

unfoldable pub now_of : Input → Time
now_of i = if is_zero_time i.now then i.clock else i.now

unfoldable pub protect : ProtectionKind → EvidenceSource → String → Protection
protect kind source reason = record {
  kind = kind;
  reason = reason;
  source = source;
  remediation = remediation kind;
  blocking = true;
}
