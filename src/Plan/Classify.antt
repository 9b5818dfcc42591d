-- ===== src/Plan/Classify.antt =====
-- internal/plan/classify.go: what a path appears to be. The order of the tests is the precedence.
use workspace_janitor.Prelude.{
  ℕ, String, Bool, false, not, ◌&&◌, ◌||◌, Option, none, some, List, [], ◌∷◌, any, ◌==◌, codes,
  str_eq, is_empty, concat, quote, join, map, if◌then◌else◌,
}
use workspace_janitor.Prelude.Match.{match_path}
use workspace_janitor.Prelude.Filepath.{base, dir}
use workspace_janitor.Core.ArtifactClass.{
  ArtifactClass, primary_project, task_worktree, generated_artifact, cache, backup,
  operational_tool, evidence_class, unknown_class,
}
use workspace_janitor.Core.Entry.{Entry, Evidence, GitState}
use workspace_janitor.Core.Paths.{is_abs_clean}
use workspace_janitor.Plan.Policy.{Policy, Names}
use workspace_janitor.Plan.Adapters.{Adapter, describe_adapter, is_directory, among}

pub record Classification : Type 0 where
  pub class : ArtifactClass
  pub rule : String
  pub reason : String

-- `strings.ContainsAny(pattern, "*?[")`
is_meta : ℕ → Bool
is_meta c = (c == b'*') || (c == b'?') || (c == b'[')

-- A pattern that `filepath.Match` refuses matches nothing.
is_match : Option Bool → Bool
is_match none = false
is_match (some m) = m

matches : String → String → Bool
unfolding is_match is_meta
matches name pattern =
    not (is_empty pattern)
    && (is_match (match_path pattern name)
        || not (any is_meta (codes pattern)) && str_eq pattern name)

unfoldable pub match_any : String → List String → Bool
unfolding matches
match_any name patterns = any (matches name) patterns

gitmoot_signals : List String
gitmoot_signals = "gitmoot:final_reclaimable" ∷ "gitmoot:pinned" ∷ "unknown:gitmoot" ∷ []

first_signal : List Evidence → String
unfolding among gitmoot_signals
first_signal [] = ""
first_signal (e ∷ es) = if among e.signal gitmoot_signals then e.signal else first_signal es

unfoldable pub gitmoot_signal : Entry → String
unfolding first_signal
gitmoot_signal e = first_signal e.evidence

marks_project : List String → Evidence → Bool
marks_project markers e = str_eq e.signal "project_marker" && match_any e.detail markers

unfoldable pub has_project_marker : Entry → List String → Bool
unfolding marks_project
has_project_marker e markers = any (marks_project markers) e.evidence

unfoldable pub selected_generic_root : Entry → Bool
selected_generic_root e =
    is_directory e.kind
    && is_abs_clean e.path
    && is_abs_clean e.root
    && (str_eq e.path e.root || str_eq (dir e.path) e.root)

abbrev classified : ArtifactClass → String → List String → Classification
classified class rule reason = record { class = class; rule = rule; reason = concat reason }

git_class : GitState → Classification
git_class g =
    if not (is_empty g.worktree_of)
    then classified task_worktree "classify.git_worktree"
        ("linked Git worktree of " ∷ g.worktree_of ∷ [])
    else classified primary_project "classify.git_repository" ("contains a Git repository" ∷ [])

-- `%q` of a list of strings.
quote_list : List String → String
quote_list ws = concat ("[" ∷ join " " (map quote ws) ∷ "]" ∷ [])

adapter_class : Entry → Adapter → Classification
unfolding quote_list
adapter_class e a = classified a.class (concat ("classify.adapter:" ∷ a.provider ∷ [])) (
    e.path ∷ " is the selected " ∷ a.provider ∷ " root; " ∷ a.rebuild ∷ elim a.official_command [
      | [] ↦ []
      | _ ↦ "; official argv (display only, not executed): " ∷ quote_list a.official_command ∷ []
    ])

by_name : Entry → Names → Classification
by_name e n =
    if selected_generic_root e && match_any (base e.path) n.generated_names
    then classified generated_artifact "classify.generated"
        (base e.path ∷ " matches a generated artifact name" ∷ [])
    else if selected_generic_root e && match_any (base e.path) n.cache_names
    then classified cache "classify.cache_name" (base e.path ∷ " matches a cache name" ∷ [])
    else if is_directory e.kind && has_project_marker e n.project_markers
    then classified primary_project "classify.project_marker" ("contains a project marker" ∷ [])
    else classified unknown_class "classify.unknown" ("no built-in classification matched" ∷ [])

without_git : Entry → Names → Classification
unfolding adapter_class by_name
without_git e n =
    if match_any (base e.path) n.worktree_markers
    then classified task_worktree "classify.worktree_name"
        (base e.path ∷ " matches a task worktree name" ∷ [])
    else elim (describe_adapter e) [ some a ↦ adapter_class e a | none ↦ by_name e n ]

unfoldable pub classify : Entry → Policy → Classification
unfolding git_class without_git
classify e p =
    let name = base e.path in
    let n = p.classification in
    if match_any name n.evidence_names
    then classified evidence_class "classify.evidence"
        (name ∷ " matches a durable evidence name" ∷ [])
    else if match_any name n.operational_names
    then classified operational_tool "classify.operational"
        (name ∷ " matches an operational tooling name" ∷ [])
    else if match_any name n.backup_names
    then classified backup "classify.backup" (name ∷ " matches a backup or archive name" ∷ [])
    else if not (is_empty (gitmoot_signal e))
    then classified operational_tool "classify.gitmoot_managed" (
        "Gitmoot lifecycle evidence "
        ∷ gitmoot_signal e
        ∷ " marks this as managed, not generic cleanup"
        ∷ [])
    else elim e.git [ some g ↦ git_class g | none ↦ without_git e n ]
