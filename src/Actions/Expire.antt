-- ===== src/Actions/Expire.antt =====
-- internal/action/retention.go: the deletion of an expired receipt, and its previews.
pub mod Effects
pub mod Guarded
use workspace_janitor.Prelude.{String, not, ◌||◌, Option, none, some, str_eq, if◌then◌else◌}
use workspace_janitor.Core.Cleanup
use workspace_janitor.Core.Cleanup.{CleanupItem, quarantined}
use workspace_janitor.Actions.{System, Engine, Machine, Outcome}
use workspace_janitor.Actions.Paths.{wrap}
use workspace_janitor.Actions.Marker.{write_deletion_marker}
use workspace_janitor.Actions.Eligible.{eligible, retention_over}
use workspace_janitor.Actions.Delete.{delete_anchored}
use workspace_janitor.Actions.Settle.{
  AbsentOutcome, settle_absent, is_unproven, absent_unproven, absent_deleted, absent_restored,
}
use workspace_janitor.Actions.Journal.{stop, with_state, save, investigate_item}
use workspace_janitor.Actions.Move.{after_call}
use workspace_janitor.Actions.Reconcile.{reconcile, retry_refused}

module _ {F : Type 0} (sys : System F) (eng : Engine) where
  unfoldable pub expiry_preview : F → CleanupItem → Option String
  expiry_preview fs item =
      if not (is_unproven (settle_absent sys fs item)) then none else eligible sys eng fs item

  unfoldable pub retry_preview : F → CleanupItem → Option String
  unfolding expiry_preview
  retry_preview fs item =
      let candidate = record item { state = quarantined } in
      elim (retry_refused sys eng fs item) [
        | some e ↦ some e
        | none ↦
            if not (retention_over candidate (sys.now fs))
            then some "retention has not expired"
            else expiry_preview fs candidate
      ]

  deleted_now : CleanupItem → Machine F → Outcome F
  unfolding with_state
  deleted_now item m = save sys (with_state Cleanup.deleted (sys.now m.files) item) quarantined m

  marked : CleanupItem → Option String → Option String
  marked item none = none
  marked item (some e) = some (wrap "record deletion intent" e)

  -- The marker, the deletion, and the journal write.
  delete_object : CleanupItem → Machine F → Outcome F
  unfolding marked deleted_now after_call
  delete_object item m =
      let (fs1, e) = write_deletion_marker sys m.files item in
      after_call sys item m (fs1, marked item e)
        (λ m1.
          after_call sys item m1
            (delete_anchored sys m1.files item.destination item.entry.filesystem_id)
            (deleted_now item))

  delete_guarded : CleanupItem → Machine F → Outcome F
  unfolding delete_object
  delete_guarded item m = elim (eligible sys eng m.files item) [
    | some e ↦ investigate_item sys item e m
    | none ↦ delete_object item m
  ]

  settled : CleanupItem → Machine F → Outcome F
  unfolding with_state
  settled item m =
      save sys
        (record (with_state Cleanup.deleted (sys.now m.files) item) {
          reason =
              "expiry had already deleted the quarantined object but not journaled it; recorded as deleted";
        })
        quarantined m

  -- `switch e.settleAbsent(item)`, and what follows it.
  by_outcome : AbsentOutcome → CleanupItem → Machine F → Outcome F
  unfolding delete_guarded settled
  by_outcome absent_deleted item m = settled item m
  by_outcome absent_restored item m = reconcile sys eng item m
  by_outcome absent_unproven item m = delete_guarded item m

  unfoldable pub delete : CleanupItem → Machine F → Outcome F
  unfolding by_outcome
  delete item m =
      if not (str_eq item.state quarantined) || not (retention_over item (sys.now m.files))
      then stop item "retention has not expired or item is not quarantined" m
      else by_outcome (settle_absent sys m.files item) item m
