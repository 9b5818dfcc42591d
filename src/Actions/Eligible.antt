-- ===== src/Actions/Eligible.antt =====
-- internal/action/retention.go: the second complete observation before a receipt may be deleted.
pub mod Sound
use workspace_janitor.Prelude.{
  String, Bool, false, not, ◌&&◌, Option, none, some, List, [], ◌∷◌, concat, str_eq, if◌then◌else◌,
}
use workspace_janitor.Prelude.Filepath.{base, dir, clean}
use workspace_janitor.Prelude.Int.{pos}
use workspace_janitor.Core.Retention.{Time, expired}
use workspace_janitor.Core.ActionKind.{delete_candidate}
use workspace_janitor.Core.ArtifactClass.{other_class}
use workspace_janitor.Core.EntryKind.{other_kind}
use workspace_janitor.Core.Action.{Action}
use workspace_janitor.Core.Entry.{Entry, FilesystemId, id_eq}
use workspace_janitor.Core.Cleanup.{CleanupItem, quarantined}
use workspace_janitor.Core.Verdict.{Verdict, allows, summary}
use workspace_janitor.Safety.Input.{Input, Policy}
use workspace_janitor.Safety.Engine.{evaluate}
use workspace_janitor.Safety.Revalidate.{
  Handle, Observation, observed, failed as unobserved, RevalidateInput, revalidate,
}
use workspace_janitor.Actions.{missing, failed, found, System, Engine}
use workspace_janitor.Actions.Paths.{wrap}
use workspace_janitor.Actions.Dirs.{open_existing_dir}
use workspace_janitor.Actions.Observe.{recollect_receipt, original_references}
use workspace_janitor.Actions.{ℕ}

-- The zero value of an entry, which a failed observation leaves.
abbrev no_entry : Entry
no_entry = record {
  contract_version = 0;
  path = "";
  root = "";
  kind = other_kind "";
  filesystem_id = record { device = 0; inode = 0 };
  ownership = record { uid = 0; gid = 0; mode = "" };
  size_bytes = pos 0;
  size_is_lower_bound = false;
  size_is_deep = false;
  modified_at = 0;
  latest_modified_at = 0;
  accessed_at = 0;
  symlink_target = "";
  canonical_path = "";
  destination = "";
  fingerprint = "";
  class = other_class "";
  git = none;
  export_archive = none;
  workspace_archive = none;
  evidence = [];
  protections = [];
  recommendation = none;
  observed_at = 0;
}

-- `fresh.Root = item.Entry.Root`
rooted : String → Observation → Observation
rooted root (observed e) = observed (record e { root = root })
rooted root (unobserved e) = unobserved e

observed_entry : String → Observation → Entry
observed_entry root (observed e) = e
observed_entry root (unobserved e) = record no_entry { root = root }

other_paths : List String → Policy → List String
other_paths [] policy = []
other_paths (p ∷ ps) policy =
    let rest = other_paths ps policy in
    if not (str_eq (clean p) (clean policy.state_dir))
      && not (str_eq (clean p) (clean policy.quarantine_dir))
    then p ∷ rest
    else rest

-- The policy without the janitor's own directories.
unfoldable pub receipt_policy : Policy → Policy
unfolding other_paths
receipt_policy policy = record policy {
  state_dir = "";
  quarantine_dir = "";
  protected_paths = other_paths policy.protected_paths policy;
}

unfoldable pub retention_over : CleanupItem → Time → Bool
retention_over item now = elim item.moved_at [
  | none ↦ false
  | some moved ↦ expired item.action.retention moved now
]

unfoldable pub receipt_action : CleanupItem → Entry → Action
receipt_action item planned = record item.action {
  path = item.destination;
  kind = delete_candidate;
  filesystem_id = planned.filesystem_id;
}

refusal_text : String → Verdict → Option String
refusal_text prefix v =
    if not (allows v delete_candidate) then some (wrap prefix (summary v)) else none

module _ {F : Type 0} (sys : System F) where
  verify_named : F → ℕ → String → FilesystemId → Option String
  verify_named fs parent name expected = elim (sys.fstatat fs parent name) [
    | missing e ↦ some e
    | failed e ↦ some e
    | found info ↦
        if not (id_eq expected info.identity)
        then some "quarantined identity changed"
        else sys.verify_at fs parent name expected.device
  ]

  unfoldable pub verify_deletion_tree : F → String → FilesystemId → Option String
  unfolding verify_named
  verify_deletion_tree fs path expected = elim (open_existing_dir sys fs (dir path)) [
    | missing e ↦ some e
    | failed e ↦ some e
    | found parent ↦ verify_named fs parent (base path) expected
  ]

module _ {F : Type 0} (sys : System F) (eng : Engine) where
  -- The receipt as it was observed after the move, judged against its original root.
  unfoldable pub planned_receipt : CleanupItem → Entry → Entry
  planned_receipt item snapshot = record snapshot { root = item.entry.root }

  probe : F → CleanupItem → String → Observation
  unfolding rooted
  probe fs item path = rooted item.entry.root (recollect_receipt sys eng fs path item.source)

  unfoldable pub receipt_input : F → CleanupItem → Entry → Handle → RevalidateInput
  unfolding probe
  receipt_input fs item planned handle = record {
    planned = planned;
    action = receipt_action item planned;
    policy = receipt_policy eng.policy;
    jobs = [];
    target = none;
    now = sys.now fs;
    clock = sys.now fs;
    recollect = some (probe fs item);
    handle = some handle;
  }

  -- The observation under the original names.
  unfoldable pub mirror_input : F → CleanupItem → Entry → Input
  unfolding probe observed_entry
  mirror_input fs item planned = record {
    entry = record (observed_entry item.entry.root (probe fs item planned.path)) {
      path = item.source;
      root = item.entry.root;
      canonical_path = item.entry.canonical_path;
    };
    policy = eng.policy;
    jobs = [];
    target = none;
    now = sys.now fs;
    clock = sys.now fs;
  }

  footprint : F → CleanupItem → Entry → Option String
  footprint fs item planned =
      elim (verify_deletion_tree sys fs item.destination planned.filesystem_id) [
        | some e ↦ some (wrap "deletion footprint is unproven" e)
        | none ↦ none
      ]

  judged : F → CleanupItem → Entry → Handle → Option String
  unfolding refusal_text footprint
  judged fs item planned handle =
      elim (refusal_text "deletion safety refused"
        (revalidate sys.sha256_hex (receipt_input fs item planned handle))) [
          | some e ↦ some e
          | none ↦
              elim (refusal_text "original source safety refused"
                (evaluate (mirror_input fs item planned))) [
                  | some e ↦ some e
                  | none ↦ footprint fs item planned
                ]
        ]

  after_references : F → CleanupItem → Entry → Option String
  unfolding judged
  after_references fs item snapshot = elim (sys.open_handle fs item.destination) [
    | missing e ↦ some e
    | failed e ↦ some e
    | found handle ↦ judged fs item (planned_receipt item snapshot) handle
  ]

  -- `none` is a nil error: the receipt may be deleted.
  unfoldable pub eligible : F → CleanupItem → Option String
  unfolding after_references
  eligible fs item =
      if not (str_eq item.state quarantined)
      then some (concat (item.action_id ∷ " is not quarantined" ∷ []))
      else if not (retention_over item (sys.now fs))
      then some "retention has not expired"
      else elim item.quarantine [
        | none ↦ some "missing post-move safety snapshot"
        | some snapshot ↦ elim (original_references sys eng fs item.source) [
          | some e ↦ some e
          | none ↦ after_references fs item snapshot
        ]
      ]
