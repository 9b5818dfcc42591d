-- ===== src/Actions/Expire/Effects.antt =====
-- What an expiry does to the journal, and when it may touch the files.
use workspace_janitor.Prelude.{not, ◌||◌, str_eq}
use workspace_janitor.Core.Cleanup.{CleanupItem, quarantined}
use workspace_janitor.Actions.{System, Engine, Machine}
use workspace_janitor.Actions.Marker.{write_deletion_marker}
use workspace_janitor.Actions.Eligible.{eligible, retention_over}
use workspace_janitor.Actions.Delete.{delete_anchored}
use workspace_janitor.Actions.Settle.{
  AbsentOutcome, settle_absent, absent_unproven, absent_deleted, absent_restored,
}
use workspace_janitor.Actions.Reconcile.Effects.{reconcile-Quiet}
use workspace_janitor.Actions.Records.{
  Records, of_Quiet, stop-Records, save-Records, investigate-Records, if-Records, option-Records,
  after_call-Records,
}
use workspace_janitor.Actions.Expire.{
  by_outcome, delete, delete_object, delete_guarded, deleted_now, settled, marked,
}

module _ {F : Type 0} (sys : System F) (eng : Engine) where
  now-Records : (item : CleanupItem) (m : Machine F) → Records sys m (deleted_now sys eng item m)
  unfolding deleted_now
  now-Records item m = save-Records sys _ _ m

  object-Records :
      (item : CleanupItem) (m : Machine F) → Records sys m (delete_object sys eng item m)
  unfolding delete_object
  object-Records item m =
      let w = write_deletion_marker sys m.files item in
      after_call-Records sys item m (w.0, marked sys eng item w.1) _
        (λ m1.
          after_call-Records sys item m1
            (delete_anchored sys m1.files item.destination item.entry.filesystem_id) _
            (now-Records item))

  guarded-Records :
      (item : CleanupItem) (m : Machine F) → Records sys m (delete_guarded sys eng item m)
  unfolding delete_guarded
  guarded-Records item m =
      option-Records sys (eligible sys eng m.files item) m _ _
        (λ e. investigate-Records sys item e m) (object-Records item m)

  settled-Records : (item : CleanupItem) (m : Machine F) → Records sys m (settled sys eng item m)
  unfolding settled
  settled-Records item m = save-Records sys _ _ m

  by_outcome-Records :
      (a : AbsentOutcome) (item : CleanupItem) (m : Machine F)
      → Records sys m (by_outcome sys eng a item m)
  unfolding by_outcome
  by_outcome-Records absent_deleted item m = settled-Records item m
  by_outcome-Records absent_restored item m = of_Quiet sys item m _ (reconcile-Quiet sys eng item m)
  by_outcome-Records absent_unproven item m = guarded-Records item m

  pub delete-Records : (item : CleanupItem) (m : Machine F) → Records sys m (delete sys eng item m)
  unfolding delete
  delete-Records item m =
      if-Records sys
        (not (str_eq item.state quarantined) || not (retention_over item (sys.now m.files))) m _ _
        (stop-Records sys item _ m) (by_outcome-Records (settle_absent sys m.files item) item m)
