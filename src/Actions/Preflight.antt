-- ===== src/Actions/Preflight.antt =====
-- internal/action/engine.go: the complete safety decision immediately before a mutation that another
-- program makes. `%v` of a list of protections is an argument.
pub mod Sound
use workspace_janitor.Prelude.{
  String, Bool, not, ◌||◌, Option, none, some, List, [], ◌∷◌, concat, is_some, str_eq,
  if◌then◌else◌,
}
use workspace_janitor.Core.ActionKind.{delete_candidate, quarantine, eq}
use workspace_janitor.Core.EntryKind.{EntryKind, directory, file}
use workspace_janitor.Core.EntryKind as EntryKind
use workspace_janitor.Core.Entry.{Entry, Protection}
use workspace_janitor.Core.Action.{Action}
use workspace_janitor.Core.Verdict.{Verdict, allows, summary}
use workspace_janitor.Safety.Input.{Input}
use workspace_janitor.Safety.Engine.{evaluate}
use workspace_janitor.Safety.Revalidate.{Handle, RevalidateInput, revalidate}
use workspace_janitor.Actions.{missing, failed, found, System, Engine}
use workspace_janitor.Actions.Paths.{wrap}
use workspace_janitor.Actions.Observe.{recollect_with_size}

same_kind : EntryKind → EntryKind → Bool
same_kind a b = str_eq (EntryKind.to_string a) (EntryKind.to_string b)

unfoldable pub other_than_cache : Entry → Action → Bool
unfolding same_kind
other_than_cache entry action =
    not (eq action.kind delete_candidate)
    || not (str_eq action.path entry.path)
    || not (same_kind entry.kind directory)
    || is_some entry.git

module _ {F : Type 0} (sys : System F) (eng : Engine) (format_v : List Protection → String) where
  unfoldable pub preflight_input : F → Entry → Action → Handle → RevalidateInput
  preflight_input fs entry action handle = record {
    planned = entry;
    action = action;
    policy = eng.policy;
    jobs = [];
    target = none;
    now = sys.now fs;
    clock = sys.now fs;
    recollect = some (λ path. recollect_with_size sys eng fs path entry.size_is_deep);
    handle = some handle;
  }

  preflight_refusal : String → Entry → Action → Verdict → Option String
  preflight_refusal label entry action v =
      if not (allows v action.kind)
      then some (
          concat (
            label
            ∷ " refused "
            ∷ entry.path
            ∷ ": "
            ∷ summary v
            ∷ " ("
            ∷ format_v v.protections
            ∷ ")"
            ∷ []))
      else none

  -- `none` is a nil error: nothing stands against the mutation.
  unfoldable pub preflight_entry : F → Entry → Action → String → Option String
  unfolding preflight_refusal
  preflight_entry fs entry action label = elim (sys.open_handle fs entry.path) [
    | missing e ↦ some e
    | failed e ↦ some e
    | found handle ↦
        preflight_refusal label entry action
          (revalidate sys.sha256_hex (preflight_input fs entry action handle))
  ]

  unfoldable pub preflight_official : F → Entry → Action → Option String
  preflight_official fs entry action =
      if other_than_cache entry action
      then some "official prune requires an exact approved cache directory, not a repository"
      else preflight_entry fs entry action "official prune"

  -- The entry, the action and the archive that is made are not those of one regular export.
  unfoldable pub other_than_export : Entry → Action → Bool
  unfolding same_kind
  other_than_export entry action =
      not (same_kind entry.kind file)
      || is_some entry.git
      || not (str_eq action.path entry.path)
      || not (eq action.kind quarantine)
      || not (str_eq eng.options.archive_creation_path entry.path)

  unfoldable pub export_input : F → Entry → Input
  export_input fs entry = record {
    entry = entry;
    policy = eng.policy;
    jobs = [];
    target = none;
    now = sys.now fs;
    clock = sys.now fs;
  }

  unfoldable pub preflight_export : F → Entry → Action → Option String
  preflight_export fs entry action =
      let initial = evaluate (export_input fs entry) in
      if other_than_export entry action
      then some "archive requires an exact owner-approved regular export"
      else if not (allows initial action.kind)
      then some (wrap "archive source remains protected" (summary initial))
      else preflight_entry fs entry action "export archive"
