-- ===== src/Examples/Runs.antt =====
-- Runs of the modelled code on the sample data.
use workspace_janitor.Core.Contract.{parsed, parse_enum}
use workspace_janitor.Core.Retention
use workspace_janitor.Core.Retention.{retentions, days7}
use workspace_janitor.Prelude.{◌^◌, ◌-◌}
use workspace_janitor.Prelude.Int.{pos}
use workspace_janitor.Prelude.Filepath.{clean, is_abs}
use workspace_janitor.Core.ActionKind.{mutating}
use workspace_janitor.Core.Cleanup.{deleted, quarantined, can_transition_to}
use workspace_janitor.Collect.Fingerprint.{fingerprint, snapshot_fingerprint}
use workspace_janitor.Safety.Input.{Input}
use workspace_janitor.Plan.Proposals.{bounded_cache_action}
use workspace_janitor.Plan.Advice.{accept_answer}
use workspace_janitor.Examples.{rule, advice}
use workspace_janitor.Prelude.{ℕ, ◌≡◌, refl, List, [], ◌∷◌, ◌++◌, true, false}
use workspace_janitor.Core.ActionKind.{keep, quarantine}
use workspace_janitor.Core.Verdict.{refused}
use workspace_janitor.Safety.Engine.{evaluate}
use workspace_janitor.Core.Entry.{Entry}
use workspace_janitor.Core.Action.{Action}
use workspace_janitor.Prelude.{String, Option, none, some}
use workspace_janitor.Core.Cleanup.{CleanupItem}
use workspace_janitor.Store.Cleanup.{
  CleanupStore, Result, ok, empty, insert_cleanup, update_cleanup,
}
use workspace_janitor.Examples.{free_input, busy_input, item, moved}
use workspace_janitor.Examples.{scratch}
use workspace_janitor.Examples.{aged}

-- Encodings that tell paths and action identifiers apart.
abbrev pub entry_path : Entry → Option String
entry_path e = some e.path

abbrev pub action_id : Action → Option String
action_id a = some a.id

abbrev pub journaled : CleanupStore
journaled = record {
  items = item ∷ [];
  events =
      record {
        cleanup_id = "c1";
        action_id = "a1";
        from_state = none;
        to_state = "prepared";
        occurred_at = 10;
        reason = "";
      }
      ∷ [];
}

pub inserted : insert_cleanup entry_path action_id item empty ≡ ok journaled
unfolding insert_cleanup workspace_janitor.Core.Action.is_relocate
    workspace_janitor.Core.Action.normalize_action workspace_janitor.Core.Action.validate_action
    workspace_janitor.Core.ActionKind.action_kinds workspace_janitor.Core.ActionKind.to_string
    workspace_janitor.Core.ActionKind.valid workspace_janitor.Core.ActionStatus.action_statuses
    workspace_janitor.Core.ActionStatus.is_unset workspace_janitor.Core.ActionStatus.to_string
    workspace_janitor.Core.ActionStatus.valid workspace_janitor.Core.ArtifactClass.artifact_classes
    workspace_janitor.Core.ArtifactClass.is_unset workspace_janitor.Core.ArtifactClass.to_string
    workspace_janitor.Core.ArtifactClass.valid workspace_janitor.Core.Cleanup.cleanup_errors
    workspace_janitor.Core.Cleanup.normalize workspace_janitor.Core.Cleanup.unsafe_component
    workspace_janitor.Core.Cleanup.valid workspace_janitor.Core.Cleanup.validate
    workspace_janitor.Core.Cleanup.validate_initial workspace_janitor.Core.Contract.valid_enum
    workspace_janitor.Core.Entry.id_eq workspace_janitor.Core.Entry.normalize
    workspace_janitor.Core.Entry.out_of_unit workspace_janitor.Core.Entry.validate
    workspace_janitor.Core.Entry.validate_each workspace_janitor.Core.Entry.validate_evidence
    workspace_janitor.Core.Entry.validate_protection
    workspace_janitor.Core.Entry.validate_recommendation
    workspace_janitor.Core.EntryKind.entry_kinds workspace_janitor.Core.EntryKind.is_unset
    workspace_janitor.Core.EntryKind.to_string workspace_janitor.Core.EntryKind.valid
    workspace_janitor.Core.Errors.add_if workspace_janitor.Core.Errors.error_or_nil
    workspace_janitor.Core.EvidenceSource.evidence_sources
    workspace_janitor.Core.EvidenceSource.to_string workspace_janitor.Core.EvidenceSource.valid
    workspace_janitor.Core.Origin.recommendation_origins workspace_janitor.Core.Origin.to_string
    workspace_janitor.Core.Origin.valid workspace_janitor.Core.Paths.is_abs_clean
    workspace_janitor.Core.ProtectionKind.protection_kinds
    workspace_janitor.Core.ProtectionKind.to_string workspace_janitor.Core.ProtectionKind.valid
    workspace_janitor.Core.Retention.is_unset workspace_janitor.Core.Retention.retentions
    workspace_janitor.Core.Retention.to_string workspace_janitor.Core.Retention.valid
    workspace_janitor.Prelude.Filepath.clean workspace_janitor.Prelude.Filepath.is_abs
    workspace_janitor.Prelude.codes workspace_janitor.Prelude.concat
    workspace_janitor.Prelude.is_blank workspace_janitor.Prelude.itoa workspace_janitor.Prelude.join
    workspace_janitor.Prelude.split workspace_janitor.Store.Cleanup.active_source
    workspace_janitor.Store.Cleanup.collides workspace_janitor.Store.Cleanup.encodes
    workspace_janitor.Store.Cleanup.insert_event workspace_janitor.Store.Cleanup.same_key
inserted = refl

abbrev pub quarantined_store : CleanupStore
quarantined_store = record {
  items = moved ∷ [];
  events =
      journaled.events
      ++ record {
        cleanup_id = "c1";
        action_id = "a1";
        from_state = some "prepared";
        to_state = "quarantined";
        occurred_at = 20;
        reason = "";
      }
        ∷ [];
}

pub updated : update_cleanup entry_path action_id moved "prepared" journaled ≡ ok quarantined_store
unfolding evaluate refused update_cleanup workspace_janitor.Core.Action.is_relocate
    workspace_janitor.Core.Action.normalize_action workspace_janitor.Core.Action.validate_action
    workspace_janitor.Core.ActionKind.action_kinds workspace_janitor.Core.ActionKind.to_string
    workspace_janitor.Core.ActionKind.valid workspace_janitor.Core.ActionStatus.action_statuses
    workspace_janitor.Core.ActionStatus.is_unset workspace_janitor.Core.ActionStatus.to_string
    workspace_janitor.Core.ActionStatus.valid workspace_janitor.Core.ArtifactClass.artifact_classes
    workspace_janitor.Core.ArtifactClass.is_unset workspace_janitor.Core.ArtifactClass.to_string
    workspace_janitor.Core.ArtifactClass.valid workspace_janitor.Core.Cleanup.can_transition_to
    workspace_janitor.Core.Cleanup.cleanup_errors workspace_janitor.Core.Cleanup.normalize
    workspace_janitor.Core.Cleanup.unsafe_component workspace_janitor.Core.Cleanup.valid
    workspace_janitor.Core.Cleanup.validate workspace_janitor.Core.Contract.valid_enum
    workspace_janitor.Core.Entry.id_eq workspace_janitor.Core.Entry.normalize
    workspace_janitor.Core.Entry.out_of_unit workspace_janitor.Core.Entry.validate
    workspace_janitor.Core.Entry.validate_each workspace_janitor.Core.Entry.validate_evidence
    workspace_janitor.Core.Entry.validate_protection
    workspace_janitor.Core.Entry.validate_recommendation workspace_janitor.Core.Entry.zero_id
    workspace_janitor.Core.EntryKind.entry_kinds workspace_janitor.Core.EntryKind.is_unset
    workspace_janitor.Core.EntryKind.to_string workspace_janitor.Core.EntryKind.valid
    workspace_janitor.Core.Errors.add_if workspace_janitor.Core.Errors.error_or_nil
    workspace_janitor.Core.EvidenceSource.evidence_sources
    workspace_janitor.Core.EvidenceSource.to_string workspace_janitor.Core.EvidenceSource.valid
    workspace_janitor.Core.Origin.recommendation_origins workspace_janitor.Core.Origin.to_string
    workspace_janitor.Core.Origin.valid workspace_janitor.Core.Paths.is_abs_clean
    workspace_janitor.Core.Paths.is_database_path workspace_janitor.Core.Paths.path_within
    workspace_janitor.Core.Paths.paths_overlap
    workspace_janitor.Core.ProtectionKind.protection_kinds
    workspace_janitor.Core.ProtectionKind.to_string workspace_janitor.Core.ProtectionKind.valid
    workspace_janitor.Core.Retention.is_unset workspace_janitor.Core.Retention.retentions
    workspace_janitor.Core.Retention.to_string workspace_janitor.Core.Retention.valid
    workspace_janitor.Core.Verdict.is_refuse workspace_janitor.Core.Verdict.normalize
    workspace_janitor.Core.Verdict.protection_less workspace_janitor.Prelude.Filepath.base
    workspace_janitor.Prelude.Filepath.clean workspace_janitor.Prelude.Filepath.ext
    workspace_janitor.Prelude.Filepath.is_abs workspace_janitor.Prelude.Int.add64
    workspace_janitor.Prelude.Int.itoa_int workspace_janitor.Prelude.Match.match_path
    workspace_janitor.Prelude.codes workspace_janitor.Prelude.codes_eq
    workspace_janitor.Prelude.concat workspace_janitor.Prelude.is_blank
    workspace_janitor.Prelude.itoa workspace_janitor.Prelude.join workspace_janitor.Prelude.quote
    workspace_janitor.Prelude.sort_by workspace_janitor.Prelude.split
    workspace_janitor.Prelude.trim_prefix workspace_janitor.Safety.Engine.add_protection
    workspace_janitor.Safety.Engine.add_remedied workspace_janitor.Safety.Engine.evaluate_with
    workspace_janitor.Safety.Engine.guards workspace_janitor.Safety.Engine.run_guards
    workspace_janitor.Safety.Engine.same_protection
    workspace_janitor.Safety.Guards.Destination.guard_free_space
    workspace_janitor.Safety.Guards.Destination.guard_quarantine_filesystem
    workspace_janitor.Safety.Guards.Destination.is_directory
    workspace_janitor.Safety.Guards.Destination.required_bytes
    workspace_janitor.Safety.Guards.Location.guard_durable_evidence
    workspace_janitor.Safety.Guards.Location.guard_job_ownership
    workspace_janitor.Safety.Guards.Location.guard_live_databases
    workspace_janitor.Safety.Guards.Location.guard_protected_paths
    workspace_janitor.Safety.Guards.Location.guard_sensitive_names
    workspace_janitor.Safety.Guards.Location.guard_symlink_containment
    workspace_janitor.Safety.Guards.Location.own_dirs
    workspace_janitor.Safety.Guards.Location.protected_locations
    workspace_janitor.Safety.Guards.Observed.guard_collected_protections
    workspace_janitor.Safety.Guards.Observed.guard_filesystem_identity
    workspace_janitor.Safety.Guards.Observed.guard_git_state
    workspace_janitor.Safety.Guards.Observed.guard_unknown_evidence
    workspace_janitor.Safety.Guards.Observed.with_remedy
    workspace_janitor.Safety.Guards.Raise.raise_if workspace_janitor.Safety.Input.job_state_string
    workspace_janitor.Safety.Input.now_of workspace_janitor.Safety.Input.owning
    workspace_janitor.Safety.Input.protect workspace_janitor.Safety.Remediation.remediation
    workspace_janitor.Store.Cleanup.check_cleanup_immutable workspace_janitor.Store.Cleanup.encodes
    workspace_janitor.Store.Cleanup.lookup workspace_janitor.Store.Cleanup.same_key
    workspace_janitor.Store.Cleanup.set_columns workspace_janitor.Store.Cleanup.set_row
    workspace_janitor.Store.Cleanup.transition_event
updated = refl

-- A free directory may be moved; below a running job nothing may.
verdicts : (refused (evaluate free_input) ≡ false) × (refused (evaluate busy_input) ≡ true)
unfolding evaluate refused workspace_janitor.Core.Entry.zero_id
    workspace_janitor.Core.Paths.is_database_path workspace_janitor.Core.Paths.path_within
    workspace_janitor.Core.Paths.paths_overlap workspace_janitor.Core.ProtectionKind.to_string
    workspace_janitor.Core.Verdict.is_refuse workspace_janitor.Core.Verdict.normalize
    workspace_janitor.Core.Verdict.protection_less workspace_janitor.Prelude.Filepath.base
    workspace_janitor.Prelude.Filepath.clean workspace_janitor.Prelude.Filepath.ext
    workspace_janitor.Prelude.Filepath.is_abs workspace_janitor.Prelude.Int.add64
    workspace_janitor.Prelude.Int.itoa_int workspace_janitor.Prelude.Match.match_path
    workspace_janitor.Prelude.codes workspace_janitor.Prelude.codes_eq
    workspace_janitor.Prelude.concat workspace_janitor.Prelude.itoa workspace_janitor.Prelude.join
    workspace_janitor.Prelude.quote workspace_janitor.Prelude.sort_by
    workspace_janitor.Prelude.split workspace_janitor.Prelude.trim_prefix
    workspace_janitor.Safety.Engine.add_protection workspace_janitor.Safety.Engine.add_remedied
    workspace_janitor.Safety.Engine.evaluate_with workspace_janitor.Safety.Engine.guards
    workspace_janitor.Safety.Engine.run_guards workspace_janitor.Safety.Engine.same_protection
    workspace_janitor.Safety.Guards.Destination.guard_free_space
    workspace_janitor.Safety.Guards.Destination.guard_quarantine_filesystem
    workspace_janitor.Safety.Guards.Destination.is_directory
    workspace_janitor.Safety.Guards.Destination.required_bytes
    workspace_janitor.Safety.Guards.Location.guard_durable_evidence
    workspace_janitor.Safety.Guards.Location.guard_job_ownership
    workspace_janitor.Safety.Guards.Location.guard_live_databases
    workspace_janitor.Safety.Guards.Location.guard_protected_paths
    workspace_janitor.Safety.Guards.Location.guard_sensitive_names
    workspace_janitor.Safety.Guards.Location.guard_symlink_containment
    workspace_janitor.Safety.Guards.Location.own_dirs
    workspace_janitor.Safety.Guards.Location.protected_locations
    workspace_janitor.Safety.Guards.Observed.guard_collected_protections
    workspace_janitor.Safety.Guards.Observed.guard_filesystem_identity
    workspace_janitor.Safety.Guards.Observed.guard_git_state
    workspace_janitor.Safety.Guards.Observed.guard_unknown_evidence
    workspace_janitor.Safety.Guards.Observed.with_remedy
    workspace_janitor.Safety.Guards.Raise.raise_if workspace_janitor.Safety.Input.job_state_string
    workspace_janitor.Safety.Input.now_of workspace_janitor.Safety.Input.owning
    workspace_janitor.Safety.Input.protect workspace_janitor.Safety.Remediation.remediation
verdicts = (refl, refl)

-- A policy whose free-space floor is the largest int64.
abbrev pub full_input : Input
full_input = record free_input {
  policy = record (free_input.policy) { min_free_bytes = pos (2 ^ 63 - 1) };
}

pub busy_refused : refused (evaluate busy_input) ≡ true
busy_refused = verdicts.1

pub may_delete : can_transition_to quarantined deleted ≡ true
unfolding can_transition_to
may_delete = refl

no_digest : snapshot_fingerprint (λ s. s) scratch ≡ some (fingerprint (λ s. s) scratch)
unfolding accept_answer snapshot_fingerprint workspace_janitor.Core.ActionKind.valid
    workspace_janitor.Core.ArtifactClass.valid workspace_janitor.Core.Entry.in_unit
    workspace_janitor.Core.Entry.out_of_unit workspace_janitor.Core.Entry.validate_recommendation
    workspace_janitor.Core.Errors.add_if workspace_janitor.Core.Origin.valid
    workspace_janitor.Core.Retention.is_unset workspace_janitor.Core.Retention.valid
no_digest = refl

accepted : accept_answer advice ≡ some advice
unfolding accept_answer workspace_janitor.Core.ActionKind.valid
    workspace_janitor.Core.ArtifactClass.valid workspace_janitor.Core.Entry.in_unit
    workspace_janitor.Core.Entry.out_of_unit workspace_janitor.Core.Entry.validate_recommendation
    workspace_janitor.Core.Errors.add_if workspace_janitor.Core.Origin.valid
    workspace_janitor.Core.Retention.is_unset workspace_janitor.Core.Retention.valid
accepted = refl

pub exceeded : mutating (bounded_cache_action aged rule).0 ≡ true
unfolding bounded_cache_action mutating workspace_janitor.Plan.Adapters.is_directory
exceeded = refl

pub seven_days : parse_enum Retention.to_string "retention" "7d" retentions ≡ parsed days7
unfolding parse_enum workspace_janitor.Core.Retention.to_string retentions
seven_days = refl
