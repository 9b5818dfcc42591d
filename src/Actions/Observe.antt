-- ===== src/Actions/Observe.antt =====
-- internal/action/retention.go and internal/collect/evidence.go: the fresh observation of a path and
-- of the references to it.
pub mod Unused
use workspace_janitor.Prelude.{
  String, Bool, true, false, not, ◌&&◌, ◌||◌, Option, none, some, List, [], ◌∷◌, concat, join, ◌==◌,
  str_eq, if◌then◌else◌,
}
use workspace_janitor.Prelude.Filepath.{dir}
use workspace_janitor.Core.Paths.{path_within}
use workspace_janitor.Core.ProtectionKind
use workspace_janitor.Core.CollectorStatus
use workspace_janitor.Core.CollectorStatus.{CollectorStatus, ran, partial, skipped}
use workspace_janitor.Core.Scan.{CollectorReport}
use workspace_janitor.Core.Entry.{Entry}
use workspace_janitor.Safety.Revalidate.{Observation, observed, failed as unobserved}
use workspace_janitor.Actions.{
  Answer, missing, failed, found, System, Engine, CollectOptions, Reference, Collected,
}
use workspace_janitor.Actions.Paths.{within}

status_is : CollectorReport → CollectorStatus → Bool
status_is r s = str_eq (CollectorStatus.to_string r.status) (CollectorStatus.to_string s)

report_gap : CollectorReport → Bool → Option String
unfolding status_is
report_gap r agent_sources =
    if str_eq r.name "filesystem" || str_eq r.name "processes" || str_eq r.name "services"
    then (if status_is r ran
        then none
        else some (concat ("evidence incomplete: " ∷ r.name ∷ ": " ∷ r.detail ∷ [])))
    else if str_eq r.name "git"
    then (if status_is r ran || status_is r partial
        then none
        else some (concat ("Git evidence incomplete: " ∷ r.detail ∷ [])))
    else if str_eq r.name "gitmoot"
    then (if status_is r ran || status_is r skipped
        then none
        else some (concat ("Gitmoot evidence incomplete: " ∷ r.detail ∷ [])))
    else if str_eq r.name "agents" && agent_sources && not (status_is r ran)
    then some (concat ("agent evidence incomplete: " ∷ r.detail ∷ []))
    else none

unfoldable pub evidence_gap : List CollectorReport → Bool → Option String
unfolding report_gap
evidence_gap [] agent_sources = none
evidence_gap (r ∷ rs) agent_sources =
    let later = evidence_gap rs agent_sources in
    elim (report_gap r agent_sources) [ some e ↦ some e | none ↦ later ]

find_entry : String → List Entry → Option Entry
find_entry path [] = none
find_entry path (e ∷ es) =
    let later = find_entry path es in if str_eq e.path path then some e else later

unfoldable pub covers : String → Reference → Bool
covers source r = path_within r.path source || r.subtree && path_within source r.path

covering : String → List Reference → List String
unfolding covers
covering source [] = []
covering source (r ∷ rs) =
    let later = covering source rs in
    if covers source r
    then concat (ProtectionKind.to_string r.protection ∷ " (" ∷ r.detail ∷ ")" ∷ []) ∷ later
    else later

refused_for : List String → Option String
refused_for [] = none
refused_for (f ∷ fs) =
    some (concat ("original source has new protected references: " ∷ join "; " (f ∷ fs) ∷ []))

complete : String → Bool → Collected → Answer Collected
complete path agent_sources result = elim (evidence_gap result.reports agent_sources) [
  | some e ↦ failed (concat (path ∷ " " ∷ e ∷ []))
  | none ↦ found result
]

module _ {F : Type 0} (sys : System F) (eng : Engine) where
  unfoldable pub observe_options : CollectOptions → String → Bool → CollectOptions
  observe_options options path deep = record options {
    deep_size = deep;
    verify_archive_contents = true;
    archive_bind_paths = some (path ∷ []);
    roots =
        record {
          path = dir path;
          max_depth = 1;
          follow_symlinks = not (within path eng.quarantine_dir);
        }
        ∷ [];
    prior = [];
    prior_scan_id = "";
  }

  observe_with : CollectOptions → F → String → Bool → Answer Collected
  unfolding observe_options complete
  observe_with options fs path deep = elim (sys.collect fs (observe_options options path deep)) [
    | missing e ↦ missing e
    | failed e ↦ failed e
    | found result ↦ complete path (not (options.agent_sources == 0)) result
  ]

  unfoldable pub observe_around : F → String → Bool → Answer Collected
  unfolding observe_with
  observe_around fs path deep = observe_with eng.options fs path deep

  entry_at : String → Answer Collected → Observation
  unfolding find_entry
  entry_at path (missing e) = unobserved e
  entry_at path (failed e) = unobserved e
  entry_at path (found result) = elim (find_entry path result.entries) [
    | some e ↦ observed e
    | none ↦ unobserved (concat (path ∷ " not found in fresh collection" ∷ []))
  ]

  unfoldable pub recollect_with_size : F → String → Bool → Observation
  unfolding observe_with entry_at
  recollect_with_size fs path deep = entry_at path (observe_with eng.options fs path deep)

  -- `copy.Collect.WorktreeOrigins = map[string]string{path: source}`
  unfoldable pub recollect_receipt : F → String → String → Observation
  unfolding observe_with entry_at
  recollect_receipt fs path source =
      let options = record eng.options { worktree_origins = (path, source) ∷ [] } in
      entry_at path (observe_with options fs path false)

  unfoldable pub original_references : F → String → Option String
  unfolding covering refused_for
  original_references fs source = elim (observe_around fs source false) [
    | missing e ↦ some e
    | failed e ↦ some e
    | found result ↦ refused_for (covering source result.references)
  ]
