-- ===== src/Actions/Restore/Effects.antt =====
-- What a restore does to the journal, and to the files when the original path is occupied.
use workspace_janitor.Prelude.Filepath.{dir}
use workspace_janitor.Actions.Rename.{sync_dir}
use workspace_janitor.Actions.Move.{move_object}
use workspace_janitor.Core.Cleanup
use workspace_janitor.Actions.Paths.{same_filesystem, is_object}
use workspace_janitor.Core.Cleanup.{prepared, quarantined, restored}
use workspace_janitor.Prelude.{◌&&◌, str_eq, not, refl, none}
use workspace_janitor.Core.Cleanup.{CleanupItem, CleanupState}
use workspace_janitor.Actions.{System, Engine, Machine, Outcome}
use workspace_janitor.Actions.Reconcile.Effects.{reconcile-Quiet}
use workspace_janitor.Actions.Journal.{with_state}
use workspace_janitor.Actions.Journal.Effects.{Quiet, stop-Quiet, save-Quiet}
use workspace_janitor.Actions.Move.Effects.{unless-Quiet, if-Quiet}
use workspace_janitor.Actions.Paths.{absent}
use workspace_janitor.Actions.Records.{
  Records, of_Quiet, stop-Records, save-Records, investigate-Records, if-Records, unless-Records,
  after_call-Records,
}
use workspace_janitor.Actions.Restore.{
  restore, restore_prepared, restored_sync, move_back, restore_object, restore_found,
  restore_recoverable, restore_state, wrap_option,
}

module _ {F : Type 0} (sys : System F) (eng : Engine) where
  pub prepared-Quiet :
      (item : CleanupItem) (m : Machine F) → Quiet sys item m (restore_prepared sys eng item m)
  unfolding restore_prepared with_state
  prepared-Quiet item m =
      if-Quiet sys _ item m _ _ (stop-Quiet sys item _ m)
        (unless-Quiet sys item m _ _ (save-Quiet sys item _ _ m refl))

  sync-Records :
      (item : CleanupItem) (before : CleanupState) (m : Machine F)
      → Records sys m (restored_sync sys eng item before m)
  unfolding restored_sync
  sync-Records item before m =
      after_call-Records sys item m (sync_dir sys m.files (dir item.source)) _
        (λ m1. save-Records sys _ before m1)

  move_back-Records :
      (item : CleanupItem) (before : CleanupState) (m : Machine F)
      → Records sys m (move_back sys eng item before m)
  unfolding move_back
  move_back-Records item before m = unless-Records sys item m _ _ (
      after_call-Records sys item m
        (move_object sys eng m.files item item.destination item.source item.entry.filesystem_id) _
        (sync-Records item before))

  object-Records :
      (item : CleanupItem) (before : CleanupState) (m : Machine F)
      → Records sys m (restore_object sys eng item before m)
  unfolding restore_object
  object-Records item before m =
      unless-Records sys item m
        (wrap_option "occupied original source" (absent sys m.files item.source)) _
        (unless-Records sys item m (same_filesystem sys m.files item.destination (dir item.source))
          _
          (if-Records sys
            (not (is_object (sys.lstat m.files item.destination) item.entry.filesystem_id)) m _ _
            (if-Records sys (str_eq before Cleanup.investigate) m _ _ (stop-Records sys item _ m)
              (investigate-Records sys item "quarantined object disappeared or changed identity" m))
            (move_back-Records item before m)))

  pub found-Quiet :
      (item : CleanupItem) (m : Machine F) → Quiet sys item m (restore_found sys eng item m)
  unfolding restore_found with_state
  found-Quiet item m = unless-Quiet sys item m _ _ (save-Quiet sys item _ _ m refl)

  recoverable-Records :
      (item : CleanupItem) (m : Machine F) → Records sys m (restore_recoverable sys eng item m)
  unfolding restore_recoverable
  recoverable-Records item m =
      if-Records sys _ m _ _ (of_Quiet sys item m _ (found-Quiet item m))
        (object-Records item item.state m)

  state-Records :
      (item : CleanupItem) (m : Machine F) → Records sys m (restore_state sys eng item m)
  unfolding restore_state
  state-Records item m =
      if-Records sys (str_eq item.state restored) m _ _ (stop-Records sys item none m) (
        if-Records sys (str_eq item.state prepared) m _ _
          (of_Quiet sys item m _ (prepared-Quiet item m))
          (if-Records sys
            (not (str_eq item.state quarantined) && not (str_eq item.state Cleanup.investigate)) m _
            _ (stop-Records sys item _ m) (recoverable-Records item m)))

  after_reconcile :
      (item : CleanupItem) (m : Machine F) (o : Outcome F)
      → Records sys m o
      → Records sys m (restore_state sys eng o.item o.machine)
  after_reconcile item m o r = record {
    recorded = λ h. (state-Records o.item o.machine).recorded (r.recorded h);
  }

  pub restore-Records :
      (item : CleanupItem) (m : Machine F) → Records sys m (restore sys eng item m)
  unfolding restore
  restore-Records item m =
      let r = of_Quiet sys item m _ (reconcile-Quiet sys eng item m) in
      if-Records sys _ m _ _ r (after_reconcile item m _ r)
