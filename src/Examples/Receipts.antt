-- ===== src/Examples/Receipts.antt =====
-- The theorems on plans and on the executor at concrete inputs.
use workspace_janitor.Prelude.{
  ◌+◌, ◌≡◌, ◌≤◌, ◌⊎◌, ◌↔◌, refl, true, false, ◌||◌, none, [], ◌∷◌, String, any, All, length, str_eq,
}
use workspace_janitor.Core.ActionKind.{relocate, quarantine, delete_candidate}
use workspace_janitor.Core.Cleanup.{quarantined, restored}
use workspace_janitor.Core.Plan.Summary.{summary, count_kind, total_of, summary-counts}
use workspace_janitor.Core.Plan.Bound.{misplaced, validate-placed}
use workspace_janitor.Store.Cleanup.{empty}
use workspace_janitor.Store.Cleanup.History.{illegal}
use workspace_janitor.Store.Cleanup.Table.{state_of, state_after}
use workspace_janitor.Plan.Digest.{verify_binding}
use workspace_janitor.Plan.Collisions.{resolve_destination_collisions}
use workspace_janitor.Plan.Collisions.Free.{
  relocations, places, resolve_destination_collisions-free,
}
use workspace_janitor.Plan.Build.{build}
use workspace_janitor.Plan.Build.Gated.{backs, build-gated}
use workspace_janitor.Plan.Build.Bound.{build-bound}
use workspace_janitor.Actions.{Machine}
use workspace_janitor.Actions.Paths.{is_object, is_missing, is_found}
use workspace_janitor.Actions.Marker.{has_deletion_marker}
use workspace_janitor.Actions.Eligible.{eligible, retention_over}
use workspace_janitor.Actions.Eligible.Sound.{Deletable, eligible-Deletable}
use workspace_janitor.Actions.Settle.{
  settle_absent, absent_unproven, absent_deleted, absent_restored,
}
use workspace_janitor.Actions.Settle.Exact.{settle_absent_iff}
use workspace_janitor.Actions.Move.{prepare, quarantine as quarantine_item}
use workspace_janitor.Actions.Move.Failing.{quarantine-fails}
use workspace_janitor.Core.Entry.{Entry}
use workspace_janitor.Actions.Reconcile.{reconcile}
use workspace_janitor.Actions.Reconcile.Effects.{reconcile-keeps}
use workspace_janitor.Actions.Restore.{restore}
use workspace_janitor.Actions.Restore.Occupied.{restore-occupied}
use workspace_janitor.Actions.Restore.Returned.{restore-returns}
use workspace_janitor.Actions.Expire.{delete}
use workspace_janitor.Actions.Expire.Guarded.{delete-guarded}
use workspace_janitor.Actions.Runs.{
  Ran, begun, disturbed, prepare_ran, quarantine_ran, operations_refine,
}
use workspace_janitor.Examples.{item, moved}
use workspace_janitor.Examples.Machines.{
  Disk, at_source, at_destination, system, engine, crashed, moved_machine, week_later,
}
use workspace_janitor.Examples.Moves.{may_expire, restorable, unmovable}
use workspace_janitor.Examples.Plans.{
  plan, to_target, known_kinds, valid_plan, digest, encode_policy, format_g, build_input, result_of,
  builds,
}

summary-counts_example :
    (total_of (summary plan).by_kind ≡ (summary plan).total)
    × ((summary plan).total ≡ length plan.actions)
    × ((summary plan).mutates
        ≡ count_kind relocate plan.actions
          + (count_kind quarantine plan.actions + count_kind delete_candidate plan.actions))
summary-counts_example = summary-counts plan known_kinds

validate-placed_example : misplaced "p1" [] plan.actions ≡ false
validate-placed_example = validate-placed plan valid_plan

resolve_destination_collisions-free_example :
    relocations "/canonical/app"
      (resolve_destination_collisions ("/repos/app" ∷ []) (to_target ∷ to_target ∷ []) []).0
    ≤ places ("/repos/app" ∷ []) "/canonical/app"
resolve_destination_collisions-free_example =
    resolve_destination_collisions-free ("/repos/app" ∷ []) (to_target ∷ to_target ∷ []) []
      "/canonical/app"

build-gated_example :
    All
      (λ a. any (backs build_input a) build_input.entries ≡ true)
      (result_of (build digest encode_policy format_g build_input)).plan.actions
build-gated_example =
    build-gated digest encode_policy format_g build_input
      (result_of (build digest encode_policy format_g build_input)) builds

build-bound_example :
    verify_binding encode_policy digest
      (result_of (build digest encode_policy format_g build_input)).plan
      build_input.scan_id
      build_input.entries
      build_input.policy
    ≡ none
build-bound_example =
    build-bound digest encode_policy format_g build_input
      (result_of (build digest encode_policy format_g build_input)) builds

reconcile-keeps_example :
    ((reconcile (system 20) engine item crashed).machine.files ≡ crashed.files)
    × ((reconcile (system 20) engine item crashed).item.source ≡ item.source)
reconcile-keeps_example = reconcile-keeps (system 20) engine item crashed

restore-occupied_example :
    (restore (system 30) engine item (record crashed { files = at_source })).machine.files
    ≡ at_source
unfolding is_missing
restore-occupied_example =
    restore-occupied (system 30) engine item (record crashed { files = at_source }) refl

restore-returns_example :
    str_eq (restore (system 30) engine moved moved_machine).item.state restored ≡ true
restore-returns_example = restore-returns (system 30) engine moved moved_machine restorable

eligible-Deletable_example : Deletable (system week_later) engine at_destination moved
eligible-Deletable_example =
    eligible-Deletable (system week_later) engine at_destination moved may_expire

delete-guarded_example :
    ((delete (system week_later) engine moved moved_machine).machine.files ≡ at_destination)
    ⊎ ((str_eq moved.state quarantined ≡ true)
        × (retention_over moved week_later ≡ true)
        × (settle_absent (system week_later) at_destination moved ≡ absent_unproven)
        × (eligible (system week_later) engine at_destination moved ≡ none))
delete-guarded_example = delete-guarded (system week_later) engine moved moved_machine

settle_absent_iff_example :
    ((settle_absent (system 20) at_source moved ≡ absent_deleted) ↔ (
      (is_missing ((system 20).lstat at_source moved.destination) ≡ true)
      × (has_deletion_marker (system 20) at_source moved ≡ true)
      × (is_object ((system 20).lstat at_source moved.source) moved.entry.filesystem_id ≡ false)
      × ((is_missing ((system 20).lstat at_source moved.source)
            || is_found ((system 20).lstat at_source moved.source))
          ≡ true)))
    × ((settle_absent (system 20) at_source moved ≡ absent_restored) ↔ (
        (is_missing ((system 20).lstat at_source moved.destination) ≡ true)
        × (is_object ((system 20).lstat at_source moved.source) moved.entry.filesystem_id ≡ true)))
settle_absent_iff_example = settle_absent_iff (system 20) at_source moved

quarantine-fails_example :
    (quarantine_item (system 30) engine item crashed).machine.journal ≡ crashed.journal
quarantine-fails_example = quarantine-fails (system 30) engine item crashed unmovable

-- A receipt is prepared, its source is disturbed, and the quarantine is tried.
abbrev ran_machine : Machine Disk
ran_machine =
    (quarantine_item (system 10) engine item
      (record (prepare (system 10) engine item
        (record { files = at_source; journal = empty })).machine {
          files = at_destination;
        })).machine

ran_machine-Ran : Ran (system 10) ran_machine
ran_machine-Ran =
    quarantine_ran engine item _
      (disturbed _ at_destination (prepare_ran engine item _ (begun at_source)))

operations_refine_example :
    (any illegal ran_machine.journal.events ≡ false)
    × ((cid aid : String)
        → state_of cid aid ran_machine.journal.items
          ≡ state_after cid aid ran_machine.journal.events none)
operations_refine_example = operations_refine (system 10) ran_machine ran_machine-Ran
