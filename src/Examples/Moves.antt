-- ===== src/Examples/Moves.antt =====
-- Runs of the executor on the small machine.
use workspace_janitor.Prelude.{
  ℕ, ◌≡◌, refl, Bool, true, false, none, some, [], ◌∷◌, Option, String, is_some,
}
use workspace_janitor.Core.Cleanup.{CleanupItem, prepared}
use workspace_janitor.Safety.Revalidate.{observed}
use workspace_janitor.Store.Cleanup.{CleanupStore}
use workspace_janitor.Actions.{Machine, Outcome}
use workspace_janitor.Actions.Observe.{recollect_receipt}
use workspace_janitor.Actions.Eligible.{eligible}
use workspace_janitor.Actions.Journal.{update}
use workspace_janitor.Actions.Move.{moved_item, quarantine}
use workspace_janitor.Actions.Restore.{restore}
use workspace_janitor.Examples.{item, moved}
use workspace_janitor.Examples.Runs.{quarantined_store}
use workspace_janitor.Examples.Machines.{
  at_destination, system, engine, crashed, moved_machine, week_later, receipt,
}

abbrev pub expiring : CleanupItem
expiring = record moved { expires_at = some week_later }

abbrev pub recovered_store : CleanupStore
recovered_store = record { items = expiring ∷ []; events = quarantined_store.events }

pub seen :
    recollect_receipt (system 20) engine at_destination "/quarantine/c1/a1" "/repos/app"
    ≡ observed receipt
unfolding eligible moved_item quarantine recollect_receipt restore update
    workspace_janitor.Actions.Eligible.planned_receipt
    workspace_janitor.Actions.Eligible.receipt_input
    workspace_janitor.Actions.Eligible.retention_over workspace_janitor.Actions.Journal.with_state
    workspace_janitor.Actions.Manifest.ensure_manifest
    workspace_janitor.Actions.Observe.evidence_gap workspace_janitor.Actions.Observe.observe_around
    workspace_janitor.Actions.Observe.original_references workspace_janitor.Actions.Paths.is_missing
    workspace_janitor.Actions.Reconcile.reconcile workspace_janitor.Core.Action.is_relocate
    workspace_janitor.Core.Action.normalize_action workspace_janitor.Core.Action.validate_action
    workspace_janitor.Core.ActionKind.action_kinds workspace_janitor.Core.ActionKind.mutating
    workspace_janitor.Core.ActionKind.to_string workspace_janitor.Core.ActionKind.valid
    workspace_janitor.Core.ActionStatus.action_statuses workspace_janitor.Core.ActionStatus.is_unset
    workspace_janitor.Core.ActionStatus.to_string workspace_janitor.Core.ActionStatus.valid
    workspace_janitor.Core.ArtifactClass.artifact_classes
    workspace_janitor.Core.ArtifactClass.is_unset workspace_janitor.Core.ArtifactClass.to_string
    workspace_janitor.Core.ArtifactClass.valid workspace_janitor.Core.Cleanup.can_transition_to
    workspace_janitor.Core.Cleanup.cleanup_errors workspace_janitor.Core.Cleanup.normalize
    workspace_janitor.Core.Cleanup.unsafe_component workspace_janitor.Core.Cleanup.valid
    workspace_janitor.Core.Cleanup.validate workspace_janitor.Core.Contract.valid_enum
    workspace_janitor.Core.Entry.id_eq workspace_janitor.Core.Entry.normalize
    workspace_janitor.Core.Entry.out_of_unit workspace_janitor.Core.Entry.validate
    workspace_janitor.Core.Entry.validate_each workspace_janitor.Core.Entry.validate_evidence
    workspace_janitor.Core.Entry.validate_protection
    workspace_janitor.Core.Entry.validate_recommendation
    workspace_janitor.Core.EntryKind.entry_kinds workspace_janitor.Core.EntryKind.is_unset
    workspace_janitor.Core.EntryKind.to_string workspace_janitor.Core.EntryKind.valid
    workspace_janitor.Core.Errors.add_if workspace_janitor.Core.Errors.error_or_nil
    workspace_janitor.Core.EvidenceSource.evidence_sources
    workspace_janitor.Core.EvidenceSource.to_string workspace_janitor.Core.EvidenceSource.valid
    workspace_janitor.Core.Origin.recommendation_origins workspace_janitor.Core.Origin.to_string
    workspace_janitor.Core.Origin.valid workspace_janitor.Core.Paths.is_abs_clean
    workspace_janitor.Core.ProtectionKind.protection_kinds
    workspace_janitor.Core.ProtectionKind.to_string workspace_janitor.Core.ProtectionKind.valid
    workspace_janitor.Core.Retention.expired workspace_janitor.Core.Retention.expires_at
    workspace_janitor.Core.Retention.is_unset workspace_janitor.Core.Retention.retentions
    workspace_janitor.Core.Retention.to_string workspace_janitor.Core.Retention.valid
    workspace_janitor.Core.Retention.window workspace_janitor.Core.Verdict.allows
    workspace_janitor.Core.Verdict.is_refuse workspace_janitor.Core.Verdict.normalize
    workspace_janitor.Core.Verdict.refused workspace_janitor.Prelude.Filepath.clean
    workspace_janitor.Prelude.Filepath.is_abs workspace_janitor.Prelude.codes
    workspace_janitor.Prelude.concat workspace_janitor.Prelude.is_blank
    workspace_janitor.Prelude.itoa workspace_janitor.Prelude.join workspace_janitor.Prelude.sort_by
    workspace_janitor.Prelude.split workspace_janitor.Safety.Revalidate.change_protections
    workspace_janitor.Safety.Revalidate.revalidate workspace_janitor.Store.Cleanup.changed_when_set
    workspace_janitor.Store.Cleanup.check_cleanup_immutable workspace_janitor.Store.Cleanup.encodes
    workspace_janitor.Store.Cleanup.evidence_change workspace_janitor.Store.Cleanup.lookup
    workspace_janitor.Store.Cleanup.same_key workspace_janitor.Store.Cleanup.same_text
    workspace_janitor.Store.Cleanup.set_columns workspace_janitor.Store.Cleanup.set_row
    workspace_janitor.Store.Cleanup.transition_event workspace_janitor.Store.Cleanup.update_cleanup
seen = refl

pub saved :
    update (system 20) (moved_item item receipt 20) prepared crashed
    ≡ (none, record crashed { journal = recovered_store })
unfolding eligible moved_item quarantine recollect_receipt restore update
    workspace_janitor.Actions.Eligible.planned_receipt
    workspace_janitor.Actions.Eligible.receipt_input
    workspace_janitor.Actions.Eligible.retention_over workspace_janitor.Actions.Journal.with_state
    workspace_janitor.Actions.Manifest.ensure_manifest
    workspace_janitor.Actions.Observe.evidence_gap workspace_janitor.Actions.Observe.observe_around
    workspace_janitor.Actions.Observe.original_references workspace_janitor.Actions.Paths.is_missing
    workspace_janitor.Actions.Reconcile.reconcile workspace_janitor.Core.Action.is_relocate
    workspace_janitor.Core.Action.normalize_action workspace_janitor.Core.Action.validate_action
    workspace_janitor.Core.ActionKind.action_kinds workspace_janitor.Core.ActionKind.mutating
    workspace_janitor.Core.ActionKind.to_string workspace_janitor.Core.ActionKind.valid
    workspace_janitor.Core.ActionStatus.action_statuses workspace_janitor.Core.ActionStatus.is_unset
    workspace_janitor.Core.ActionStatus.to_string workspace_janitor.Core.ActionStatus.valid
    workspace_janitor.Core.ArtifactClass.artifact_classes
    workspace_janitor.Core.ArtifactClass.is_unset workspace_janitor.Core.ArtifactClass.to_string
    workspace_janitor.Core.ArtifactClass.valid workspace_janitor.Core.Cleanup.can_transition_to
    workspace_janitor.Core.Cleanup.cleanup_errors workspace_janitor.Core.Cleanup.normalize
    workspace_janitor.Core.Cleanup.unsafe_component workspace_janitor.Core.Cleanup.valid
    workspace_janitor.Core.Cleanup.validate workspace_janitor.Core.Contract.valid_enum
    workspace_janitor.Core.Entry.id_eq workspace_janitor.Core.Entry.normalize
    workspace_janitor.Core.Entry.out_of_unit workspace_janitor.Core.Entry.validate
    workspace_janitor.Core.Entry.validate_each workspace_janitor.Core.Entry.validate_evidence
    workspace_janitor.Core.Entry.validate_protection
    workspace_janitor.Core.Entry.validate_recommendation
    workspace_janitor.Core.EntryKind.entry_kinds workspace_janitor.Core.EntryKind.is_unset
    workspace_janitor.Core.EntryKind.to_string workspace_janitor.Core.EntryKind.valid
    workspace_janitor.Core.Errors.add_if workspace_janitor.Core.Errors.error_or_nil
    workspace_janitor.Core.EvidenceSource.evidence_sources
    workspace_janitor.Core.EvidenceSource.to_string workspace_janitor.Core.EvidenceSource.valid
    workspace_janitor.Core.Origin.recommendation_origins workspace_janitor.Core.Origin.to_string
    workspace_janitor.Core.Origin.valid workspace_janitor.Core.Paths.is_abs_clean
    workspace_janitor.Core.ProtectionKind.protection_kinds
    workspace_janitor.Core.ProtectionKind.to_string workspace_janitor.Core.ProtectionKind.valid
    workspace_janitor.Core.Retention.expired workspace_janitor.Core.Retention.expires_at
    workspace_janitor.Core.Retention.is_unset workspace_janitor.Core.Retention.retentions
    workspace_janitor.Core.Retention.to_string workspace_janitor.Core.Retention.valid
    workspace_janitor.Core.Retention.window workspace_janitor.Core.Verdict.allows
    workspace_janitor.Core.Verdict.is_refuse workspace_janitor.Core.Verdict.normalize
    workspace_janitor.Core.Verdict.refused workspace_janitor.Prelude.Filepath.clean
    workspace_janitor.Prelude.Filepath.is_abs workspace_janitor.Prelude.codes
    workspace_janitor.Prelude.concat workspace_janitor.Prelude.is_blank
    workspace_janitor.Prelude.itoa workspace_janitor.Prelude.join workspace_janitor.Prelude.sort_by
    workspace_janitor.Prelude.split workspace_janitor.Safety.Revalidate.change_protections
    workspace_janitor.Safety.Revalidate.revalidate workspace_janitor.Store.Cleanup.changed_when_set
    workspace_janitor.Store.Cleanup.check_cleanup_immutable workspace_janitor.Store.Cleanup.encodes
    workspace_janitor.Store.Cleanup.evidence_change workspace_janitor.Store.Cleanup.lookup
    workspace_janitor.Store.Cleanup.same_key workspace_janitor.Store.Cleanup.same_text
    workspace_janitor.Store.Cleanup.set_columns workspace_janitor.Store.Cleanup.set_row
    workspace_janitor.Store.Cleanup.transition_event workspace_janitor.Store.Cleanup.update_cleanup
saved = refl

pub may_expire : eligible (system week_later) engine at_destination moved ≡ none
unfolding eligible quarantine recollect_receipt restore
    workspace_janitor.Actions.Dirs.open_existing_dir workspace_janitor.Actions.Eligible.mirror_input
    workspace_janitor.Actions.Eligible.planned_receipt
    workspace_janitor.Actions.Eligible.receipt_action
    workspace_janitor.Actions.Eligible.receipt_input
    workspace_janitor.Actions.Eligible.receipt_policy
    workspace_janitor.Actions.Eligible.retention_over
    workspace_janitor.Actions.Eligible.verify_deletion_tree
    workspace_janitor.Actions.Journal.link_error workspace_janitor.Actions.Journal.save
    workspace_janitor.Actions.Manifest.ensure_manifest workspace_janitor.Actions.Move.move_object
    workspace_janitor.Actions.Observe.evidence_gap workspace_janitor.Actions.Observe.observe_around
    workspace_janitor.Actions.Observe.original_references workspace_janitor.Actions.Paths.absent
    workspace_janitor.Actions.Paths.is_missing workspace_janitor.Actions.Paths.is_object
    workspace_janitor.Actions.Paths.same_filesystem workspace_janitor.Actions.Reconcile.reconcile
    workspace_janitor.Actions.Rename.rename_no_replace workspace_janitor.Actions.Rename.sync_dir
    workspace_janitor.Collect.Fingerprint.fingerprint
    workspace_janitor.Collect.Fingerprint.snapshot_fingerprint
    workspace_janitor.Core.ActionKind.mutating workspace_janitor.Core.Entry.id_eq
    workspace_janitor.Core.Entry.zero_id workspace_janitor.Core.EntryKind.to_string
    workspace_janitor.Core.Paths.path_within workspace_janitor.Core.Paths.paths_overlap
    workspace_janitor.Core.Retention.expired workspace_janitor.Core.Verdict.allows
    workspace_janitor.Core.Verdict.is_refuse workspace_janitor.Core.Verdict.normalize
    workspace_janitor.Core.Verdict.refused workspace_janitor.Prelude.Filepath.base
    workspace_janitor.Prelude.Filepath.clean workspace_janitor.Prelude.Filepath.dir
    workspace_janitor.Prelude.Filepath.is_abs workspace_janitor.Prelude.Int.itoa_int
    workspace_janitor.Prelude.concat workspace_janitor.Prelude.itoa
    workspace_janitor.Prelude.sort_by workspace_janitor.Prelude.trim_prefix
    workspace_janitor.Safety.Engine.add_remedied workspace_janitor.Safety.Engine.evaluate
    workspace_janitor.Safety.Engine.guards workspace_janitor.Safety.Engine.run_guards
    workspace_janitor.Safety.Guards.Destination.guard_free_space
    workspace_janitor.Safety.Guards.Destination.guard_quarantine_filesystem
    workspace_janitor.Safety.Guards.Location.guard_durable_evidence
    workspace_janitor.Safety.Guards.Location.guard_job_ownership
    workspace_janitor.Safety.Guards.Location.guard_live_databases
    workspace_janitor.Safety.Guards.Location.guard_protected_paths
    workspace_janitor.Safety.Guards.Location.guard_sensitive_names
    workspace_janitor.Safety.Guards.Location.guard_symlink_containment
    workspace_janitor.Safety.Guards.Location.protected_locations
    workspace_janitor.Safety.Guards.Observed.guard_collected_protections
    workspace_janitor.Safety.Guards.Observed.guard_filesystem_identity
    workspace_janitor.Safety.Guards.Observed.guard_git_state
    workspace_janitor.Safety.Guards.Observed.guard_unknown_evidence
    workspace_janitor.Safety.Revalidate.change_protections
    workspace_janitor.Safety.Revalidate.revalidate
may_expire = refl

pub restorable : (restore (system 30) engine moved moved_machine).error ≡ none
unfolding quarantine restore workspace_janitor.Actions.Dirs.open_existing_dir
    workspace_janitor.Actions.Journal.link_error workspace_janitor.Actions.Journal.save
    workspace_janitor.Actions.Manifest.ensure_manifest workspace_janitor.Actions.Move.move_object
    workspace_janitor.Actions.Paths.absent workspace_janitor.Actions.Paths.is_missing
    workspace_janitor.Actions.Paths.is_object workspace_janitor.Actions.Paths.same_filesystem
    workspace_janitor.Actions.Reconcile.reconcile workspace_janitor.Actions.Rename.rename_no_replace
    workspace_janitor.Actions.Rename.sync_dir workspace_janitor.Core.Action.normalize_action
    workspace_janitor.Core.Action.validate_action workspace_janitor.Core.ActionKind.valid
    workspace_janitor.Core.ActionStatus.is_unset workspace_janitor.Core.ActionStatus.valid
    workspace_janitor.Core.ArtifactClass.is_unset workspace_janitor.Core.ArtifactClass.valid
    workspace_janitor.Core.Cleanup.can_transition_to workspace_janitor.Core.Cleanup.normalize
    workspace_janitor.Core.Cleanup.valid workspace_janitor.Core.Cleanup.validate
    workspace_janitor.Core.Entry.id_eq workspace_janitor.Core.Entry.normalize
    workspace_janitor.Core.Entry.out_of_unit workspace_janitor.Core.Entry.validate
    workspace_janitor.Core.Entry.zero_id workspace_janitor.Core.EntryKind.is_unset
    workspace_janitor.Core.EntryKind.valid workspace_janitor.Core.Errors.add_if
    workspace_janitor.Core.Errors.error_or_nil workspace_janitor.Core.Paths.is_abs_clean
    workspace_janitor.Core.Retention.is_unset workspace_janitor.Core.Retention.valid
    workspace_janitor.Prelude.Filepath.base workspace_janitor.Prelude.Filepath.clean
    workspace_janitor.Prelude.Filepath.dir workspace_janitor.Prelude.Filepath.is_abs
    workspace_janitor.Prelude.codes workspace_janitor.Prelude.is_blank
    workspace_janitor.Prelude.trim_prefix workspace_janitor.Store.Cleanup.lookup
    workspace_janitor.Store.Cleanup.update_cleanup
restorable = refl

pub unmovable : is_some (quarantine (system 30) engine item crashed).error ≡ true
unfolding quarantine workspace_janitor.Actions.Manifest.ensure_manifest
unmovable = refl
