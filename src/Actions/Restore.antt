-- ===== src/Actions/Restore.antt =====
-- internal/action/engine.go: the return of one object to its original path.
pub mod Effects
pub mod Returned
pub mod Occupied
use workspace_janitor.Prelude.{
  String, not, ◌&&◌, Option, none, some, [], ◌∷◌, concat, str_eq, is_some, if◌then◌else◌,
}
use workspace_janitor.Prelude.Filepath.{dir}
use workspace_janitor.Core.Cleanup
use workspace_janitor.Core.Cleanup.{CleanupItem, CleanupState, prepared, quarantined, restored}
use workspace_janitor.Actions.{System, Engine, Machine, Outcome, answer_error}
use workspace_janitor.Actions.Paths.{is_object, is_missing, absent, same_filesystem, wrap}
use workspace_janitor.Actions.Rename.{sync_dir}
use workspace_janitor.Actions.Journal.{stop, done, with_state, save, investigate_item, link_error}
use workspace_janitor.Actions.Move.{after_call, unless, move_object}
use workspace_janitor.Actions.Reconcile.{reconcile}

-- `%v` of an error that may be nil.
error_value : Option String → String
error_value none = "<nil>"
error_value (some e) = e

wrap_option : String → Option String → Option String
wrap_option prefix none = none
wrap_option prefix (some e) = some (wrap prefix e)

module _ {F : Type 0} (sys : System F) (eng : Engine) where
  pub restore_prepared : CleanupItem → Machine F → Outcome F
  unfolding error_value wrap_option unless with_state
  restore_prepared item m =
      let src = sys.lstat m.files item.source in
      if not (is_object src item.entry.filesystem_id)
      then stop item (concat ("prepared source changed: " ∷ error_value (answer_error src) ∷ [])) m
      else unless sys item m
          (wrap_option "prepared destination is occupied" (absent sys m.files item.destination))
          (save sys (with_state restored (sys.now m.files) item) prepared m)

  -- The journal write after the rename back.
  restored_sync : CleanupItem → CleanupState → Machine F → Outcome F
  unfolding after_call with_state
  restored_sync item before m =
      after_call sys item m (sync_dir sys m.files (dir item.source))
        (λ m1. save sys (with_state restored (sys.now m1.files) item) before m1)

  move_back : CleanupItem → CleanupState → Machine F → Outcome F
  unfolding after_call unless restored_sync
  move_back item before m = unless sys item m (link_error sys m.files item item.destination) (
      after_call sys item m
        (move_object sys eng m.files item item.destination item.source item.entry.filesystem_id)
        (restored_sync item before))

  restore_object : CleanupItem → CleanupState → Machine F → Outcome F
  unfolding unless move_back wrap_option
  restore_object item before m =
      unless sys item m (wrap_option "occupied original source" (absent sys m.files item.source)) (
        unless sys item m (same_filesystem sys m.files item.destination (dir item.source)) (
          if not (is_object (sys.lstat m.files item.destination) item.entry.filesystem_id)
          then (if str_eq before Cleanup.investigate
              then stop item "investigated object disappeared or changed identity" m
              else investigate_item sys item "quarantined object disappeared or changed identity" m)
          else move_back item before m))

  -- An investigated object that is back at its source already.
  pub restore_found : CleanupItem → Machine F → Outcome F
  unfolding unless with_state
  restore_found item m =
      unless sys item m (link_error sys m.files item item.source)
        (save sys (with_state restored (sys.now m.files) item) item.state m)

  restore_recoverable : CleanupItem → Machine F → Outcome F
  unfolding restore_found restore_object
  restore_recoverable item m =
      if str_eq item.state Cleanup.investigate
        && is_object (sys.lstat m.files item.source) item.entry.filesystem_id
        && is_missing (sys.lstat m.files item.destination)
      then restore_found item m
      else restore_object item item.state m

  restore_state : CleanupItem → Machine F → Outcome F
  unfolding restore_prepared restore_recoverable
  restore_state item m =
      if str_eq item.state restored
      then done item m
      else if str_eq item.state prepared
      then restore_prepared item m
      else if not (str_eq item.state quarantined) && not (str_eq item.state Cleanup.investigate)
      then stop item (concat (item.action_id ∷ " is " ∷ item.state ∷ ", not recoverable" ∷ [])) m
      else restore_recoverable item m

  -- An error of the reconciliation stops it, unless the item is under investigation.
  unfoldable pub restore : CleanupItem → Machine F → Outcome F
  unfolding restore_state
  restore item m =
      let o = reconcile sys eng item m in
      if is_some o.error && not (str_eq o.item.state Cleanup.investigate)
      then o
      else restore_state o.item o.machine
