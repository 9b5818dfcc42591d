-- ===== src/Examples/Machines.antt =====
-- A small machine for the executor: one object, at its source or at its destination.
use workspace_janitor.Prelude.{◌+◌, ◌*◌, String, true, false, none, [], ◌∷◌, str_eq, if◌then◌else◌}
use workspace_janitor.Core.Retention.{Time, hour}
use workspace_janitor.Core.Entry.{Entry}
use workspace_janitor.Safety.Revalidate.{linked}
use workspace_janitor.Actions.{Answer, missing, found, FileInfo, System, Engine, Machine}
use workspace_janitor.Examples.{scratch, policy, destination}
use workspace_janitor.Examples.Runs.{entry_path, action_id, journaled, quarantined_store}

pub data Disk : Type 0 where
  at_source at_destination gone : Disk

abbrev pub object : FileInfo
object = record {
  identity = record { device = 1; inode = 7 };
  directory = true;
  regular = false;
  size = 0;
}

abbrev pub parent : FileInfo
parent = record {
  identity = record { device = 1; inode = 2 };
  directory = true;
  regular = false;
  size = 0;
}

abbrev pub lookup_name : String → String → String → Disk → Answer FileInfo
lookup_name source target name at_source =
    if str_eq name source then found object else missing "no such file"
lookup_name source target name at_destination =
    if str_eq name target then found object else missing "no such file"
lookup_name source target name gone = missing "no such file"

abbrev pub receipt : Entry
receipt = record scratch { path = "/quarantine/c1/a1"; root = "/quarantine" }

-- The rename changes the object's place; every other call succeeds.
abbrev pub flip : Disk → Disk
flip at_source = at_destination
flip at_destination = at_source
flip gone = gone

abbrev pub system : Time → System Disk
system clock = record {
  now = λ d. clock;
  abs = λ d path. found path;
  lstat = λ d path. lookup_name "/repos/app" "/quarantine/c1/a1" path d;
  stat = λ d path. found parent;
  open_path = λ d path. found 4;
  open_dir = λ d path. found 3;
  openat_dir = λ d fd name. found 3;
  openat = λ d fd name. missing "no such file";
  fstat = λ d fd. found parent;
  fstatat = λ d fd name. lookup_name "app" "a1" name d;
  read = λ d fd n. found "";
  create_at = λ d fd name. (d, found 5);
  create_temp = λ d dir pattern. (d, found ("/quarantine/c1/m", 5));
  chmod = λ d fd. (d, none);
  write = λ d fd body. (d, none);
  fsync = λ d fd. (d, none);
  close = λ d fd. (d, none);
  mkdirat = λ d fd name. (d, none);
  remove = λ d path. d;
  rename_noreplace = λ d from name to target. (flip d, none);
  remove_at = λ d fd name device. (gone, none);
  verify_at = λ d fd name device. none;
  open_handle =
      λ d path. found (record { path = path; identity = object.identity; linkage = linked true });
  resolve_target = λ d path. destination;
  move_worktree = λ d owner from to. (flip d, none);
  verify_worktree = λ d owner path. none;
  collect = λ d options.
      found (record { entries = scratch ∷ receipt ∷ []; reports = []; references = [] });
  begin_error = λ d. none;
  commit_error = λ d. none;
  store_text = λ e. "store";
  fields_text = λ e. "fields";
  encode_entry = entry_path;
  encode_action = action_id;
  encode_item = λ c. found "";
  byte_length = λ s. 0;
  sha256_hex = λ s. s;
}

abbrev pub engine : Engine
engine = record {
  quarantine_dir = "/quarantine";
  policy = policy;
  options = record {
    roots = [];
    worktree_origins = [];
    archive_creation_path = "";
    verify_archive_contents = false;
    archive_bind_paths = none;
    deep_size = false;
    agent_sources = 0;
    prior = [];
    prior_scan_id = "";
  };
}

-- The object is moved, and the journal still says prepared.
abbrev pub crashed : Machine Disk
crashed = record { files = at_destination; journal = journaled }

abbrev pub moved_machine : Machine Disk
moved_machine = record { files = at_destination; journal = quarantined_store }

abbrev pub week_later : Time
week_later = 20 + 7 * 24 * hour
