-- ===== src/Actions.antt =====
-- internal/action: the executor that moves, restores and deletes one journalled item at a time. What
-- the operating system, Git, the collectors and the database answer is a record of functions on the
-- state `F` of the files; reading leaves that state alone, and a call that writes returns the next one.
-- A Go error is its text. Descriptors are numbers, and closing one after a read is left out.
pub mod Paths
pub mod Dirs
pub mod Rename
pub mod Marker
pub mod Manifest
pub mod Observe
pub mod Eligible
pub mod Preflight
pub mod Delete
pub mod Settle
pub mod Journal
pub mod Records
pub mod Move
pub mod Reconcile
pub mod Restore
pub mod Expire
pub mod Runs
use workspace_janitor.Prelude.{ℕ, String, Bool, Option, none, some, List}
use workspace_janitor.Core.Errors.{FieldErrors}
use workspace_janitor.Core.Retention.{Time}
use workspace_janitor.Core.Entry.{Entry, FilesystemId}
use workspace_janitor.Core.Action.{Action}
use workspace_janitor.Core.EvidenceSource.{EvidenceSource}
use workspace_janitor.Core.ProtectionKind.{ProtectionKind}
use workspace_janitor.Core.Scan.{CollectorReport}
use workspace_janitor.Core.Cleanup.{CleanupItem}
use workspace_janitor.Safety.Input.{Policy, Target}
use workspace_janitor.Safety.Revalidate.{Handle}
use workspace_janitor.Store.Cleanup.{CleanupStore, StoreError}

-- The answer of a call that may fail; `missing` is an error that `errors.Is(err, os.ErrNotExist)`.
pub data Answer {ℓ} (A : Type ℓ) : Type ℓ where
  missing failed : String → Answer A
  found : A → Answer A

unfoldable pub answer_error {ℓ} : {A : Type ℓ} → Answer A → Option String
answer_error (missing e) = some e
answer_error (failed e) = some e
answer_error (found a) = none

-- What `os.FileInfo` or `unix.Stat_t` says of an object.
pub record FileInfo : Type 0 where
  pub identity : FilesystemId
  pub directory : Bool
  pub regular : Bool
  pub size : ℕ

pub record RootSpec : Type 0 where
  pub path : String
  pub max_depth : ℕ
  pub follow_symlinks : Bool

-- The collector options that the executor sets or reads.
pub record CollectOptions : Type 0 where
  pub roots : List RootSpec
  pub worktree_origins : List (String × String)
  pub archive_creation_path : String
  pub verify_archive_contents : Bool
  pub archive_bind_paths : Option (List String)
  pub deep_size : Bool
  pub agent_sources : ℕ
  pub prior : List Entry
  pub prior_scan_id : String

pub record Reference : Type 0 where
  pub path : String
  pub source : EvidenceSource
  pub protection : ProtectionKind
  pub detail : String
  pub subtree : Bool

pub record Collected : Type 0 where
  pub entries : List Entry
  pub reports : List CollectorReport
  pub references : List Reference

pub record System (F : Type 0) : Type 0 where
  pub now : F → Time
  pub abs : F → String → Answer String
  pub lstat : F → String → Answer FileInfo
  pub stat : F → String → Answer FileInfo
  pub open_path : F → String → Answer ℕ
  pub open_dir : F → String → Answer ℕ
  pub openat_dir : F → ℕ → String → Answer ℕ
  pub openat : F → ℕ → String → Answer ℕ
  pub fstat : F → ℕ → Answer FileInfo
  pub fstatat : F → ℕ → String → Answer FileInfo
  pub read : F → ℕ → ℕ → Answer String
  pub create_at : F → ℕ → String → F × Answer ℕ
  pub create_temp : F → String → String → F × Answer (String × ℕ)
  pub chmod : F → ℕ → F × Option String
  pub write : F → ℕ → String → F × Option String
  pub fsync : F → ℕ → F × Option String
  pub close : F → ℕ → F × Option String
  pub mkdirat : F → ℕ → String → F × Option String
  pub remove : F → String → F
  pub rename_noreplace : F → ℕ → String → ℕ → String → F × Option String
  pub remove_at : F → ℕ → String → ℕ → F × Option String
  pub verify_at : F → ℕ → String → ℕ → Option String
  pub open_handle : F → String → Answer Handle
  pub resolve_target : F → String → Target
  pub move_worktree : F → String → String → String → F × Option String
  pub verify_worktree : F → String → String → Option String
  pub collect : F → CollectOptions → Answer Collected
  pub begin_error : F → Option String
  pub commit_error : F → Option String
  pub store_text : StoreError → String
  pub fields_text : FieldErrors → String
  pub encode_entry : Entry → Option String
  pub encode_action : Action → Option String
  pub encode_item : CleanupItem → Answer String
  pub byte_length : String → ℕ
  pub sha256_hex : String → String

pub record Engine : Type 0 where
  pub quarantine_dir : String
  pub policy : Policy
  pub options : CollectOptions

-- The files and the journal that an operation works on.
pub record Machine (F : Type 0) : Type 0 where
  pub files : F
  pub journal : CleanupStore

-- What an operation returns, with the state it leaves.
pub record Outcome (F : Type 0) : Type 0 where
  pub item : CleanupItem
  pub error : Option String
  pub machine : Machine F
