-- ===== src/Actions/Restore/Returned.antt =====
-- What a restore without an error returns.
use workspace_janitor.Prelude.{
  refl, String, ◌≡◌, Option, none, some, Bool, true, false, not, ◌&&◌, is_some, str_eq,
  if◌then◌else◌, arith,
}
use workspace_janitor.Core.Cleanup
use workspace_janitor.Core.Cleanup.{CleanupItem, CleanupState, prepared, quarantined, restored}
use workspace_janitor.Actions.{System, Engine, Machine, Outcome}
use workspace_janitor.Actions.Journal.{save, with_state, investigate_item}
use workspace_janitor.Actions.Journal.Effects.{investigate_fails}
use workspace_janitor.Actions.Move.{unless, after_call}
use workspace_janitor.Actions.Reconcile.{reconcile}
use workspace_janitor.Actions.Restore.{
  restore, restore_prepared, restored_sync, move_back, restore_object, restore_found,
  restore_recoverable, restore_state, wrap_option,
}
use workspace_janitor.Actions.Restore.{sync_dir}
use workspace_janitor.Actions.Move.{move_object}
use workspace_janitor.Actions.Restore.{absent}
use workspace_janitor.Actions.Restore.{dir}
use workspace_janitor.Actions.Restore.{same_filesystem}
use workspace_janitor.Actions.Restore.{is_object}

module _ {F : Type 0} (sys : System F) (eng : Engine) where
  -- No error, only with the item restored.
  record Returned (o : Outcome F) : Type 0 where
    state : o.error ≡ none → str_eq o.item.state restored ≡ true

  failed-Returned :
      (item : CleanupItem) (e : String) (m : Machine F)
      → Returned (record { item = item; error = some e; machine = m })
  failed-Returned item e m = record { state = λ h. cc }

  save-Returned :
      (item : CleanupItem) (expected : CleanupState) (m : Machine F)
      → str_eq item.state restored ≡ true
      → Returned (save sys item expected m)
  unfolding save
  save-Returned item expected m h = record { state = λ k. h }

  investigate-Returned :
      (item : CleanupItem) (reason : String) (m : Machine F)
      → Returned (investigate_item sys item reason m)
  investigate-Returned item reason m = record {
    state = λ h. let f = investigate_fails sys item reason m in ground (arith, f, h);
  }

  if-Returned :
      (b : Bool) (o o' : Outcome F) → Returned o → Returned o' → Returned (if b then o else o')
  if-Returned true o o' r r' = r
  if-Returned false o o' r r' = r'

  unless-Returned :
      (item : CleanupItem) (m : Machine F) (e : Option String) (o : Outcome F)
      → Returned o
      → Returned (unless sys item m e o)
  unfolding unless
  unless-Returned item m none o r = r
  unless-Returned item m (some e) o r = failed-Returned item e m

  after_call-Returned :
      (item : CleanupItem) (m : Machine F) (call : F × Option String) (next : Machine F → Outcome F)
      → ((m' : Machine F) → Returned (next m'))
      → Returned (after_call sys item m call next)
  unfolding after_call
  after_call-Returned item m (fs, none) next r = r (record m { files = fs })
  after_call-Returned item m (fs, some e) next r = failed-Returned item e (record m { files = fs })

  prepared-Returned :
      (item : CleanupItem) (m : Machine F) → Returned (restore_prepared sys eng item m)
  unfolding restore_prepared with_state
  prepared-Returned item m = if-Returned _ _ _ (failed-Returned item _ m) (
      unless-Returned item m _ _
        (save-Returned (with_state restored (sys.now m.files) item) prepared m refl))

  sync-Returned :
      (item : CleanupItem) (before : CleanupState) (m : Machine F)
      → Returned (restored_sync sys eng item before m)
  unfolding restored_sync with_state
  sync-Returned item before m =
      after_call-Returned item m (sync_dir sys m.files (dir item.source)) _
        (λ m1. save-Returned (with_state restored (sys.now m1.files) item) before m1 refl)

  move_back-Returned :
      (item : CleanupItem) (before : CleanupState) (m : Machine F)
      → Returned (move_back sys eng item before m)
  unfolding move_back
  move_back-Returned item before m = unless-Returned item m _ _ (
      after_call-Returned item m
        (move_object sys eng m.files item item.destination item.source item.entry.filesystem_id) _
        (sync-Returned item before))

  object-Returned :
      (item : CleanupItem) (before : CleanupState) (m : Machine F)
      → Returned (restore_object sys eng item before m)
  unfolding restore_object
  object-Returned item before m =
      unless-Returned item m
        (wrap_option "occupied original source" (absent sys m.files item.source)) _
        (unless-Returned item m (same_filesystem sys m.files item.destination (dir item.source)) _ (
          if-Returned
            (not (is_object (sys.lstat m.files item.destination) item.entry.filesystem_id)) _ _
            (if-Returned (str_eq before Cleanup.investigate) _ _ (failed-Returned item _ m)
              (investigate-Returned item "quarantined object disappeared or changed identity" m))
            (move_back-Returned item before m)))

  recoverable-Returned :
      (item : CleanupItem) (m : Machine F) → Returned (restore_recoverable sys eng item m)
  unfolding restore_recoverable restore_found with_state
  recoverable-Returned item m =
      if-Returned _ _ _
        (unless-Returned item m _ _
          (save-Returned (with_state restored (sys.now m.files) item) item.state m refl))
        (object-Returned item item.state m)

  done-Returned :
      (b : Bool) (item : CleanupItem) (m : Machine F) (o : Outcome F)
      → str_eq item.state restored ≡ b
      → Returned o
      → Returned (if b then record { item = item; error = none; machine = m } else o)
  done-Returned true item m o h r = record { state = λ k. h }
  done-Returned false item m o h r = r

  state-Returned : (item : CleanupItem) (m : Machine F) → Returned (restore_state sys eng item m)
  unfolding restore_state
  state-Returned item m = done-Returned (str_eq item.state restored) item m _ refl (
      if-Returned (str_eq item.state prepared) _ _ (prepared-Returned item m) (
        if-Returned
          (not (str_eq item.state quarantined) && not (str_eq item.state Cleanup.investigate)) _ _
          (failed-Returned item _ m) (recoverable-Returned item m)))

  kept-Returned :
      (x : Option String) (b : Bool) (o o' : Outcome F)
      → o.error ≡ x
      → Returned o'
      → Returned (if is_some x && b then o else o')
  kept-Returned none b o o' e r = r
  kept-Returned (some e) false o o' h r = r
  kept-Returned (some e) true o o' h r = record { state = λ k. cc }

  after_reconcile :
      (o : Outcome F)
      → Returned (
          if is_some o.error && not (str_eq o.item.state Cleanup.investigate)
          then o
          else restore_state sys eng o.item o.machine)
  after_reconcile o =
      kept-Returned o.error (not (str_eq o.item.state Cleanup.investigate)) o _ refl
        (state-Returned o.item o.machine)

  -- For every item and machine, a restore that returns no error returns the item as restored.
  pub restore-returns :
      (item : CleanupItem) (m : Machine F)
      → (restore sys eng item m).error ≡ none
      → str_eq (restore sys eng item m).item.state restored ≡ true
  unfolding restore
  restore-returns item m = (after_reconcile (reconcile sys eng item m)).state
