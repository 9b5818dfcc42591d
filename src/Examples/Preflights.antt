-- ===== src/Examples/Preflights.antt =====
-- Preflights at concrete inputs.
use workspace_janitor.Prelude.{◌≡◌, refl, is_some, str_eq, true, false, none, [], ◌∷◌, String, List}
use workspace_janitor.Core.EntryKind as EntryKind
use workspace_janitor.Core.EntryKind.{file}
use workspace_janitor.Core.Verdict.{refused}
use workspace_janitor.Safety.Engine.{evaluate}
use workspace_janitor.Core.Entry.{Entry, Protection}
use workspace_janitor.Core.ActionKind.{delete_candidate, quarantine, eq}
use workspace_janitor.Core.Action.{Action}
use workspace_janitor.Actions.{found, System, Engine}
use workspace_janitor.Actions.Preflight.{preflight_official, preflight_export, export_input}
use workspace_janitor.Actions.Preflight.Sound.{
  Cleared, preflight_official-Cleared, preflight_export-Cleared,
}
use workspace_janitor.Examples.{scratch, planned_action}
use workspace_janitor.Examples.Machines.{Disk, at_source, system, engine}

abbrev no_text : List Protection → String
no_text ps = ""

abbrev prune_action : Action
prune_action = record planned_action { kind = delete_candidate }

abbrev export_entry : Entry
export_entry = record scratch { kind = file }

abbrev export_action : Action
export_action = record planned_action { kind = quarantine }

abbrev export_system : System Disk
export_system = record (system 30) {
  collect =
      λ d options. found (record { entries = export_entry ∷ []; reports = []; references = [] });
}

abbrev export_engine : Engine
export_engine = record engine {
  options = record engine.options { archive_creation_path = "/repos/app" };
}

clear_prune : preflight_official (system 30) engine no_text at_source scratch prune_action ≡ none
unfolding preflight_export preflight_official workspace_janitor.Actions.Dirs.open_existing_dir
    workspace_janitor.Actions.Eligible.eligible workspace_janitor.Actions.Eligible.mirror_input
    workspace_janitor.Actions.Eligible.planned_receipt
    workspace_janitor.Actions.Eligible.receipt_action
    workspace_janitor.Actions.Eligible.receipt_input
    workspace_janitor.Actions.Eligible.receipt_policy
    workspace_janitor.Actions.Eligible.retention_over
    workspace_janitor.Actions.Eligible.verify_deletion_tree
    workspace_janitor.Actions.Journal.link_error workspace_janitor.Actions.Journal.save
    workspace_janitor.Actions.Manifest.ensure_manifest workspace_janitor.Actions.Move.move_object
    workspace_janitor.Actions.Observe.evidence_gap workspace_janitor.Actions.Observe.observe_around
    workspace_janitor.Actions.Observe.original_references
    workspace_janitor.Actions.Observe.recollect_with_size workspace_janitor.Actions.Paths.absent
    workspace_janitor.Actions.Paths.is_missing workspace_janitor.Actions.Paths.is_object
    workspace_janitor.Actions.Paths.same_filesystem workspace_janitor.Actions.Preflight.export_input
    workspace_janitor.Actions.Preflight.other_than_cache
    workspace_janitor.Actions.Preflight.other_than_export
    workspace_janitor.Actions.Preflight.preflight_entry
    workspace_janitor.Actions.Preflight.preflight_input
    workspace_janitor.Actions.Reconcile.reconcile workspace_janitor.Actions.Rename.rename_no_replace
    workspace_janitor.Actions.Rename.sync_dir workspace_janitor.Collect.Fingerprint.fingerprint
    workspace_janitor.Collect.Fingerprint.snapshot_fingerprint workspace_janitor.Core.ActionKind.eq
    workspace_janitor.Core.ActionKind.mutating workspace_janitor.Core.Entry.id_eq
    workspace_janitor.Core.Entry.zero_id workspace_janitor.Core.EntryKind.to_string
    workspace_janitor.Core.Paths.is_database_path workspace_janitor.Core.Paths.path_within
    workspace_janitor.Core.Paths.paths_overlap workspace_janitor.Core.Retention.expired
    workspace_janitor.Core.Verdict.allows workspace_janitor.Core.Verdict.is_refuse
    workspace_janitor.Core.Verdict.normalize workspace_janitor.Core.Verdict.refused
    workspace_janitor.Prelude.Filepath.base workspace_janitor.Prelude.Filepath.clean
    workspace_janitor.Prelude.Filepath.dir workspace_janitor.Prelude.Filepath.is_abs
    workspace_janitor.Prelude.Int.itoa_int workspace_janitor.Prelude.concat
    workspace_janitor.Prelude.itoa workspace_janitor.Prelude.sort_by
    workspace_janitor.Prelude.trim_prefix workspace_janitor.Safety.Engine.add_remedied
    workspace_janitor.Safety.Engine.evaluate workspace_janitor.Safety.Engine.guards
    workspace_janitor.Safety.Engine.run_guards
    workspace_janitor.Safety.Guards.Destination.guard_free_space
    workspace_janitor.Safety.Guards.Destination.guard_quarantine_filesystem
    workspace_janitor.Safety.Guards.Location.guard_durable_evidence
    workspace_janitor.Safety.Guards.Location.guard_job_ownership
    workspace_janitor.Safety.Guards.Location.guard_live_databases
    workspace_janitor.Safety.Guards.Location.guard_protected_paths
    workspace_janitor.Safety.Guards.Location.guard_sensitive_names
    workspace_janitor.Safety.Guards.Location.guard_symlink_containment
    workspace_janitor.Safety.Guards.Location.protected_locations
    workspace_janitor.Safety.Guards.Observed.guard_collected_protections
    workspace_janitor.Safety.Guards.Observed.guard_filesystem_identity
    workspace_janitor.Safety.Guards.Observed.guard_git_state
    workspace_janitor.Safety.Guards.Observed.guard_unknown_evidence
    workspace_janitor.Safety.Revalidate.change_protections
    workspace_janitor.Safety.Revalidate.revalidate
clear_prune = refl

clear_export :
    preflight_export export_system export_engine no_text at_source export_entry export_action ≡ none
unfolding preflight_export preflight_official workspace_janitor.Actions.Dirs.open_existing_dir
    workspace_janitor.Actions.Eligible.eligible workspace_janitor.Actions.Eligible.mirror_input
    workspace_janitor.Actions.Eligible.planned_receipt
    workspace_janitor.Actions.Eligible.receipt_action
    workspace_janitor.Actions.Eligible.receipt_input
    workspace_janitor.Actions.Eligible.receipt_policy
    workspace_janitor.Actions.Eligible.retention_over
    workspace_janitor.Actions.Eligible.verify_deletion_tree
    workspace_janitor.Actions.Journal.link_error workspace_janitor.Actions.Journal.save
    workspace_janitor.Actions.Manifest.ensure_manifest workspace_janitor.Actions.Move.move_object
    workspace_janitor.Actions.Observe.evidence_gap workspace_janitor.Actions.Observe.observe_around
    workspace_janitor.Actions.Observe.original_references
    workspace_janitor.Actions.Observe.recollect_with_size workspace_janitor.Actions.Paths.absent
    workspace_janitor.Actions.Paths.is_missing workspace_janitor.Actions.Paths.is_object
    workspace_janitor.Actions.Paths.same_filesystem workspace_janitor.Actions.Preflight.export_input
    workspace_janitor.Actions.Preflight.other_than_cache
    workspace_janitor.Actions.Preflight.other_than_export
    workspace_janitor.Actions.Preflight.preflight_entry
    workspace_janitor.Actions.Preflight.preflight_input
    workspace_janitor.Actions.Reconcile.reconcile workspace_janitor.Actions.Rename.rename_no_replace
    workspace_janitor.Actions.Rename.sync_dir workspace_janitor.Collect.Fingerprint.fingerprint
    workspace_janitor.Collect.Fingerprint.snapshot_fingerprint workspace_janitor.Core.ActionKind.eq
    workspace_janitor.Core.ActionKind.mutating workspace_janitor.Core.Entry.id_eq
    workspace_janitor.Core.Entry.zero_id workspace_janitor.Core.EntryKind.to_string
    workspace_janitor.Core.Paths.is_database_path workspace_janitor.Core.Paths.path_within
    workspace_janitor.Core.Paths.paths_overlap workspace_janitor.Core.Retention.expired
    workspace_janitor.Core.Verdict.allows workspace_janitor.Core.Verdict.is_refuse
    workspace_janitor.Core.Verdict.normalize workspace_janitor.Core.Verdict.refused
    workspace_janitor.Prelude.Filepath.base workspace_janitor.Prelude.Filepath.clean
    workspace_janitor.Prelude.Filepath.dir workspace_janitor.Prelude.Filepath.is_abs
    workspace_janitor.Prelude.Int.itoa_int workspace_janitor.Prelude.concat
    workspace_janitor.Prelude.itoa workspace_janitor.Prelude.sort_by
    workspace_janitor.Prelude.trim_prefix workspace_janitor.Safety.Engine.add_remedied
    workspace_janitor.Safety.Engine.evaluate workspace_janitor.Safety.Engine.guards
    workspace_janitor.Safety.Engine.run_guards
    workspace_janitor.Safety.Guards.Destination.guard_free_space
    workspace_janitor.Safety.Guards.Destination.guard_quarantine_filesystem
    workspace_janitor.Safety.Guards.Location.guard_durable_evidence
    workspace_janitor.Safety.Guards.Location.guard_job_ownership
    workspace_janitor.Safety.Guards.Location.guard_live_databases
    workspace_janitor.Safety.Guards.Location.guard_protected_paths
    workspace_janitor.Safety.Guards.Location.guard_sensitive_names
    workspace_janitor.Safety.Guards.Location.guard_symlink_containment
    workspace_janitor.Safety.Guards.Location.protected_locations
    workspace_janitor.Safety.Guards.Observed.guard_collected_protections
    workspace_janitor.Safety.Guards.Observed.guard_filesystem_identity
    workspace_janitor.Safety.Guards.Observed.guard_git_state
    workspace_janitor.Safety.Guards.Observed.guard_unknown_evidence
    workspace_janitor.Safety.Revalidate.change_protections
    workspace_janitor.Safety.Revalidate.revalidate
clear_export = refl

preflight_official-Cleared_example :
    (eq prune_action.kind delete_candidate ≡ true)
    × (str_eq prune_action.path scratch.path ≡ true)
    × (str_eq (EntryKind.to_string scratch.kind) "directory" ≡ true)
    × (is_some scratch.git ≡ false)
    × Cleared (system 30) engine no_text at_source scratch prune_action
preflight_official-Cleared_example =
    preflight_official-Cleared (system 30) engine no_text at_source scratch prune_action clear_prune

preflight_export-Cleared_example :
    (eq export_action.kind quarantine ≡ true)
    × (str_eq export_action.path export_entry.path ≡ true)
    × (str_eq (EntryKind.to_string export_entry.kind) "file" ≡ true)
    × (is_some export_entry.git ≡ false)
    × (str_eq export_engine.options.archive_creation_path export_entry.path ≡ true)
    × (refused (evaluate (export_input export_system export_engine no_text at_source export_entry))
        ≡ false)
    × Cleared export_system export_engine no_text at_source export_entry export_action
preflight_export-Cleared_example =
    preflight_export-Cleared export_system export_engine no_text at_source export_entry
      export_action clear_export
