-- ===== src/Actions/Restore/Occupied.antt =====
-- A restore whose original path is occupied.
use workspace_janitor.Prelude.{refl, ◌≡◌, ◌∙◌, Bool, true, false, str_eq, not, ◌&&◌, if◌then◌else◌}
use workspace_janitor.Core.Cleanup
use workspace_janitor.Core.Cleanup.{CleanupItem, CleanupState}
use workspace_janitor.Actions.{System, Engine, Machine, Outcome}
use workspace_janitor.Actions.Paths.{is_missing}
use workspace_janitor.Actions.Paths.Absence.{absent_fails}
use workspace_janitor.Actions.Journal.Effects.{Quiet}
use workspace_janitor.Actions.Move.{unless}
use workspace_janitor.Actions.Reconcile.Effects.{reconcile-Quiet}
use workspace_janitor.Actions.Restore.{
  restore, restore_object, restore_recoverable, restore_state, wrap_option,
}
use workspace_janitor.Actions.Restore.Effects.{prepared-Quiet, found-Quiet}

-- `if b { ... } else { ... }`
if_files :
    {F : Type 0} (b : Bool) (fs : F) (o o' : Outcome F)
    → o.machine.files ≡ fs
    → o'.machine.files ≡ fs
    → (if b then o else o').machine.files ≡ fs
if_files true fs o o' h h' = h
if_files false fs o o' h h' = h'

module _ {F : Type 0} (sys : System F) (eng : Engine) where
  object_occupied :
      (item : CleanupItem) (before : CleanupState) (m : Machine F)
      → is_missing (sys.lstat m.files item.source) ≡ false
      → (restore_object sys eng item before m).machine.files ≡ m.files
  unfolding restore_object wrap_option unless
  object_occupied item before m h = let (e, k) = absent_fails sys m.files item.source h in rw k refl

  recoverable_occupied :
      (item : CleanupItem) (m : Machine F)
      → is_missing (sys.lstat m.files item.source) ≡ false
      → (restore_recoverable sys eng item m).machine.files ≡ m.files
  unfolding restore_recoverable
  recoverable_occupied item m h =
      if_files _ m.files _ _ (found-Quiet sys eng item m).files
        (object_occupied item item.state m h)

  state_occupied :
      (item : CleanupItem) (m : Machine F)
      → is_missing (sys.lstat m.files item.source) ≡ false
      → (restore_state sys eng item m).machine.files ≡ m.files
  unfolding restore_state
  state_occupied item m h = if_files (str_eq item.state Cleanup.restored) m.files _ _ refl (
      if_files (str_eq item.state Cleanup.prepared) m.files _ _
        (prepared-Quiet sys eng item m).files
        (if_files
          (not (str_eq item.state Cleanup.quarantined)
            && not (str_eq item.state Cleanup.investigate))
          m.files _ _ refl (recoverable_occupied item m h)))

  after_occupied :
      (item : CleanupItem) (m : Machine F) (o : Outcome F)
      → Quiet sys item m o
      → is_missing (sys.lstat m.files item.source) ≡ false
      → (restore_state sys eng o.item o.machine).machine.files ≡ m.files
  after_occupied item m o q h = state_occupied o.item o.machine (rw (q.files, q.source) h) ∙ q.files

  -- For every item and machine, a restore leaves the files as they were when reading the item's
  -- original path answers anything but that nothing exists there.
  pub restore-occupied :
      (item : CleanupItem) (m : Machine F)
      → is_missing (sys.lstat m.files item.source) ≡ false
      → (restore sys eng item m).machine.files ≡ m.files
  unfolding restore
  restore-occupied item m h =
      let q = reconcile-Quiet sys eng item m in
      if_files _ m.files _ _ q.files (after_occupied item m _ q h)
