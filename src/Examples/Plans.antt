-- ===== src/Examples/Plans.antt =====
-- Runs of the planner on the sample data.
use workspace_janitor.Prelude.{
  ℕ, ◌≡◌, refl, Bool, true, false, none, some, List, [], ◌∷◌, Option, String, any,
}
use workspace_janitor.Core.ActionKind.{relocate, keep}
use workspace_janitor.Core.Action.{Action}
use workspace_janitor.Core.Entry.{Entry, Confidence}
use workspace_janitor.Core.Plan
use workspace_janitor.Core.Plan.{Plan}
use workspace_janitor.Core.Plan.Summary.{unknown_kind}
use workspace_janitor.Core.PlanStatus.{draft}
use workspace_janitor.Plan.Policy.{Policy as PlanPolicy}
use workspace_janitor.Plan.Build.{
  BuildInput, BuildResult, Built, built, unbound_scan, invalid_plan, build,
}
use workspace_janitor.Examples.{scratch, policy, plan_policy, planned_action, destination}

abbrev pub to_target : Action
to_target = record planned_action {
  id = "a2";
  path = "/repos/x";
  kind = relocate;
  destination = "/canonical/app";
}

abbrev pub kept : Action
kept = record planned_action { id = "a3"; path = "/repos/y"; kind = keep }

abbrev pub plan : Plan
plan = record {
  contract_version = 1;
  id = "p1";
  scan_id = "s1";
  status = draft;
  created_at = 3;
  evidence_digest = "e";
  policy_digest = "p";
  advisor = "rules-only";
  actions = planned_action ∷ to_target ∷ kept ∷ [];
}

pub known_kinds : any unknown_kind plan.actions ≡ false
unfolding unknown_kind
known_kinds = refl

pub valid_plan : Plan.validate plan ≡ none
unfolding Plan.validate workspace_janitor.Core.Action.is_relocate
    workspace_janitor.Core.Action.validate_action workspace_janitor.Core.ActionKind.valid
    workspace_janitor.Core.ActionStatus.valid workspace_janitor.Core.Entry.out_of_unit
    workspace_janitor.Core.Errors.add_if workspace_janitor.Core.Errors.error_or_nil
    workspace_janitor.Core.Paths.is_abs_clean workspace_janitor.Core.PlanStatus.is_unset
    workspace_janitor.Core.PlanStatus.valid workspace_janitor.Core.Retention.valid
    workspace_janitor.Prelude.Filepath.clean workspace_janitor.Prelude.Filepath.is_abs
    workspace_janitor.Prelude.concat workspace_janitor.Prelude.is_blank
    workspace_janitor.Prelude.sort_by Plan.identity_errors
valid_plan = refl

abbrev pub digest : String → String
digest s = "0123456789abcdef"

abbrev pub encode_policy : PlanPolicy → Option String
encode_policy p = some "policy"

abbrev pub format_g : Confidence → String
format_g c = "0"

abbrev pub build_input : BuildInput
build_input = record {
  scan_id = "s1";
  entries = scratch ∷ [];
  policy = plan_policy;
  safety = policy;
  jobs = [];
  target = some destination;
  now = 0;
  clock = 9;
  advisor = none;
}

abbrev pub nothing_built : BuildResult
nothing_built = record { plan = plan; verdicts = []; traces = [] }

abbrev pub result_of : Built → BuildResult
result_of (built r) = r
result_of unbound_scan = nothing_built
result_of (invalid_plan errs) = nothing_built

pub builds :
    build digest encode_policy format_g build_input
    ≡ built (result_of (build digest encode_policy format_g build_input))
unfolding build workspace_janitor.Core.Action.is_relocate
    workspace_janitor.Core.Action.normalize_action workspace_janitor.Core.Action.validate_action
    workspace_janitor.Core.ActionKind.mutating workspace_janitor.Core.ActionKind.valid
    workspace_janitor.Core.ActionStatus.is_unset workspace_janitor.Core.ActionStatus.valid
    workspace_janitor.Core.Entry.out_of_unit workspace_janitor.Core.Entry.zero_id
    workspace_janitor.Core.Errors.add_if workspace_janitor.Core.Errors.error_or_nil
    workspace_janitor.Core.Paths.is_abs_clean workspace_janitor.Core.Paths.path_within
    workspace_janitor.Core.Paths.paths_overlap workspace_janitor.Core.PlanStatus.is_unset
    workspace_janitor.Core.PlanStatus.valid workspace_janitor.Core.Retention.is_unset
    workspace_janitor.Core.Retention.valid workspace_janitor.Core.Verdict.is_refuse
    workspace_janitor.Core.Verdict.normalize workspace_janitor.Core.Verdict.refused
    workspace_janitor.Plan.Adapters.describe_adapter workspace_janitor.Plan.Advice.confidence_for
    workspace_janitor.Plan.Build.advised workspace_janitor.Plan.Build.build_sorted
    workspace_janitor.Plan.Build.safety_input workspace_janitor.Plan.Classify.classify
    workspace_janitor.Plan.Classify.gitmoot_signal
    workspace_janitor.Plan.Classify.has_project_marker workspace_janitor.Plan.Classify.match_any
    workspace_janitor.Plan.Classify.selected_generic_root
    workspace_janitor.Plan.Collisions.resolve_destination_collisions
    workspace_janitor.Plan.Digest.action_id workspace_janitor.Plan.Digest.advice_at
    workspace_janitor.Plan.Digest.plan_id workspace_janitor.Plan.Proposals.Gather.builtin_proposal
    workspace_janitor.Plan.Proposals.Gather.cache_proposals
    workspace_janitor.Plan.Proposals.Gather.canonical_proposals
    workspace_janitor.Plan.Proposals.Gather.managed_proposals
    workspace_janitor.Plan.Proposals.Gather.protected_proposals
    workspace_janitor.Plan.Proposals.Gather.safety_proposals
    workspace_janitor.Plan.Proposals.Ordered.gathered
    workspace_janitor.Plan.Proposals.Ordered.proposal_less
    workspace_janitor.Plan.Proposals.Ordered.proposals
    workspace_janitor.Plan.Proposals.bounded_cache_action
    workspace_janitor.Plan.Proposals.canonical_root_for
    workspace_janitor.Plan.Proposals.foreign_owner workspace_janitor.Plan.Proposals.tier_rank
    workspace_janitor.Plan.Rules.contest workspace_janitor.Plan.Rules.evaluate
    workspace_janitor.Plan.Rules.finish workspace_janitor.Plan.Rules.gate
    workspace_janitor.Plan.Rules.resolve workspace_janitor.Prelude.Filepath.base
    workspace_janitor.Prelude.Filepath.clean workspace_janitor.Prelude.Filepath.dir
    workspace_janitor.Prelude.Filepath.is_abs workspace_janitor.Prelude.Match.match_path
    workspace_janitor.Prelude.concat workspace_janitor.Prelude.is_blank
    workspace_janitor.Prelude.sort_by workspace_janitor.Prelude.trim_prefix
    workspace_janitor.Safety.Engine.add_remedied workspace_janitor.Safety.Engine.evaluate
    workspace_janitor.Safety.Engine.guards workspace_janitor.Safety.Engine.run_guards
    workspace_janitor.Safety.Guards.Destination.guard_free_space
    workspace_janitor.Safety.Guards.Destination.guard_quarantine_filesystem
    workspace_janitor.Safety.Guards.Location.guard_durable_evidence
    workspace_janitor.Safety.Guards.Location.guard_job_ownership
    workspace_janitor.Safety.Guards.Location.guard_live_databases
    workspace_janitor.Safety.Guards.Location.guard_protected_paths
    workspace_janitor.Safety.Guards.Location.guard_sensitive_names
    workspace_janitor.Safety.Guards.Location.guard_symlink_containment
    workspace_janitor.Safety.Guards.Location.protected_locations
    workspace_janitor.Safety.Guards.Observed.guard_collected_protections
    workspace_janitor.Safety.Guards.Observed.guard_filesystem_identity
    workspace_janitor.Safety.Guards.Observed.guard_git_state
    workspace_janitor.Safety.Guards.Observed.guard_unknown_evidence Plan.validate Plan.normalize
    Plan.identity_errors
builds = refl
