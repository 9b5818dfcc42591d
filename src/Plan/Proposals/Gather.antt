-- ===== src/Plan/Proposals/Gather.antt =====
-- internal/plan/rules.go: the built-in default of a class, and all proposals for one entry.
use workspace_janitor.Prelude.{
  String, Bool, true, false, not, ◌&&◌, ◌||◌, Option, none, some, List, [], ◌∷◌, ◌++◌, ◌-◌, ltb,
  str_eq, is_empty, has_prefix, concat, quote, if◌then◌else◌,
}
use workspace_janitor.Prelude.Filepath.{base, dir, join_path}
use workspace_janitor.Prelude.Int.{pos}
use workspace_janitor.Core.ActionKind.{ActionKind, keep, relocate, quarantine, investigate}
use workspace_janitor.Core.ArtifactClass
use workspace_janitor.Core.ArtifactClass.{
  ArtifactClass, primary_project, task_worktree, generated_artifact, cache, backup,
  operational_tool, evidence_class,
}
use workspace_janitor.Core.Entry.{Entry, GitState, clean_git}
use workspace_janitor.Core.Paths.{path_within, paths_overlap}
use workspace_janitor.Core.Retention.{Retention, Time, none_retention, is_zero_time}
use workspace_janitor.Core.Verdict.{Verdict, refused, summary}
use workspace_janitor.Plan.Policy.{Policy, CacheRule}
use workspace_janitor.Plan.Durations.{duration_string, byte_len}
use workspace_janitor.Plan.Classify.{Classification, gitmoot_signal}
use workspace_janitor.Plan.Proposals.{
  Proposal, tier_safety, tier_protected, tier_explicit, tier_builtin, tier_fallback, propose,
  unset_retention, worktree_idle, bounded_cache_action,
}

last_activity : Option GitState → Time
last_activity none = 0
last_activity (some g) = g.last_activity

-- What a built-in default fixes: its rule, action, retention and the text after the class's reason.
abbrev default : Entry → Classification → String → ActionKind → Retention → List String → Proposal
default e class rule kind retention more = record {
  rule = rule;
  tier = tier_builtin;
  kind = kind;
  retention = retention;
  destination = "";
  reason = concat (class.reason ∷ more);
  specificity = byte_len e.path;
}

unfoldable pub worktree_default : Entry → Classification → Retention → Proposal
unfolding last_activity
worktree_default e class retention =
    let rule : String = "builtin.task_worktree" in
    let used = last_activity e.git in
    let idle = duration_string (pos worktree_idle) in
    if not (clean_git e.git)
    then default e class rule investigate unset_retention []
    else if is_zero_time used || is_zero_time e.observed_at
    then default e class rule investigate unset_retention
        ("; clean, but when it was last used is unknown" ∷ [])
    else if ltb (e.observed_at - used) worktree_idle
    then default e class rule investigate unset_retention ("; clean, but used within " ∷ idle ∷ [])
    else default e class rule quarantine retention
        ("; clean, every commit on a remote-tracking branch, and idle for over " ∷ idle ∷ [])

unfoldable pub cache_default : Entry → Classification → Retention → Proposal
cache_default e class retention =
    if str_eq (base e.path) ".cache"
    then default e class "builtin.cache" investigate none_retention (
        "; a home cache directory holds many tools' caches, so select them with per-tool cache rules"
        ∷ [])
    else if has_prefix class.rule "classify.adapter:"
    then default e class "builtin.cache" investigate none_retention
        ("; shared provider caches need explicit scoped policy and review" ∷ [])
    else default e class "builtin.cache" quarantine retention []

unfoldable pub by_class : Entry → Classification → Retention → ArtifactClass → Proposal
unfolding worktree_default cache_default
by_class e class retention evidence_class =
    default e class "builtin.evidence" keep unset_retention []
by_class e class retention operational_tool =
    default e class "builtin.operational_tool" keep unset_retention []
by_class e class retention primary_project =
    default e class "builtin.primary_project" keep unset_retention []
by_class e class retention backup = default e class "builtin.backup" keep unset_retention []
by_class e class retention task_worktree = worktree_default e class retention
by_class e class retention generated_artifact =
    default e class "builtin.generated_artifact" quarantine retention []
by_class e class retention cache = cache_default e class retention
by_class e class retention _ = record {
  rule = "builtin.unknown";
  tier = tier_fallback;
  kind = investigate;
  retention = unset_retention;
  destination = "";
  reason = "nothing classified this path, so it is left for a human to look at";
  specificity = byte_len e.path;
}

unfoldable pub builtin_proposal : Entry → Classification → Policy → Proposal
unfolding by_class
builtin_proposal e class p = by_class e class p.default_retention class.class

-- `if b { out = append(out, p) }`
unfoldable pub propose_if : Bool → Proposal → List Proposal
propose_if true p = p ∷ []
propose_if false p = []

unfoldable pub safety_proposals : Entry → Verdict → List Proposal
unfolding propose_if
safety_proposals e v = propose_if (refused v) (
    propose "safety.refused" tier_safety keep none_retention (byte_len e.path)
      ("the safety engine refuses any mutation: " ∷ summary v ∷ []))

unfoldable pub protected_proposals : Entry → List String → List Proposal
unfolding propose_if
protected_proposals e [] = []
protected_proposals e (w ∷ ws) =
    propose_if (paths_overlap e.path w) (
      propose "policy.protected_path" tier_protected keep unset_retention (byte_len w)
        (e.path ∷ " overlaps the protected path " ∷ w ∷ []))
    ++ protected_proposals e ws

unfoldable pub managed_proposals : Entry → String → List Proposal
unfolding propose_if
managed_proposals e home =
    propose_if (not (is_empty home) && paths_overlap e.path home) (
      propose "policy.gitmoot_home" tier_protected keep unset_retention (byte_len home)
        (e.path ∷ " overlaps Gitmoot's managed home " ∷ home ∷ []))
    ++ propose_if (not (is_empty (gitmoot_signal e))) (
        propose "policy.gitmoot_managed" tier_protected keep unset_retention (byte_len e.path) (
          "Gitmoot lifecycle evidence "
          ∷ gitmoot_signal e
          ∷ " requires managed review, not generic filesystem cleanup"
          ∷ []))

is_primary : ArtifactClass → Bool
is_primary primary_project = true
is_primary _ = false

unfoldable pub canonical_proposals : Entry → Classification → Option String → List Proposal
unfolding is_primary
canonical_proposals e class none = []
canonical_proposals e class (some root) =
    let rule : String = "policy.canonical_root" in
    if path_within e.path root
    then propose rule tier_protected keep unset_retention (byte_len root) (
        e.path
        ∷ " already lives in the canonical root "
        ∷ root
        ∷ " for "
        ∷ ArtifactClass.to_string class.class
        ∷ [])
      ∷ []
    else if is_primary class.class && path_within root e.path
    then propose rule tier_protected investigate unset_retention (byte_len root) (
        "the canonical root " ∷ root ∷ " is inside " ∷ e.path
        ∷ ", so relocating would move the entry into itself" ∷ [])
      ∷ []
    else if is_primary class.class
    then record {
      rule = rule;
      tier = tier_protected;
      kind = relocate;
      retention = unset_retention;
      destination = join_path (root ∷ base e.path ∷ []);
      reason = concat ("a primary project belongs in " ∷ root ∷ ", not " ∷ dir e.path ∷ []);
      specificity = byte_len root;
    }
      ∷ []
    else []

unfoldable pub cache_proposals : Entry → List CacheRule → List Proposal
unfolding propose_if
cache_proposals e [] = []
cache_proposals e (r ∷ rs) =
    let bounded = bounded_cache_action e r in
    propose_if (path_within e.path r.path) (
      propose (concat ("policy.cache:" ∷ r.name ∷ [])) tier_explicit bounded.0 r.retention
        (byte_len r.path)
        ("cache rule " ∷ quote r.name ∷ " covers " ∷ r.path ∷ "; " ∷ bounded.1 ∷ []))
    ++ cache_proposals e rs
