-- ===== src/Actions/Reconcile/Effects.antt =====
-- What reconciliation does to the files and to the journal.
use workspace_janitor.Actions.Paths.{is_object, is_missing, is_found}
use workspace_janitor.Prelude.{refl, ◌&&◌, none}
use workspace_janitor.Core.Cleanup.{CleanupItem}
use workspace_janitor.Actions.{System, Engine, Machine, Outcome}
use workspace_janitor.Actions.Journal.{with_state}
use workspace_janitor.Actions.Journal.Effects.{Quiet, save-Quiet, stop-Quiet, investigate-Quiet}
use workspace_janitor.Actions.Move.Effects.{unless-Quiet, if-Quiet, option-Quiet, finish_move-Quiet}
use workspace_janitor.Actions.Reconcile.{
  reconcile, reconcile_prepared, reconcile_quarantined, reconcile_restored, recovered,
  retry_investigated,
}
use workspace_janitor.Prelude.{◌∙◌}
use workspace_janitor.Prelude.{◌≡◌}

module _ {F : Type 0} (sys : System F) (eng : Engine) where
  recovered-Quiet :
      (item : CleanupItem) (m : Machine F) (o : Outcome F)
      → Quiet sys item m o
      → Quiet sys item m (recovered sys eng item o)
  unfolding recovered
  recovered-Quiet item m o q =
      option-Quiet sys o.error item m _ o
        (λ e.
          let i = investigate-Quiet sys item _ o.machine in
          record {
            files = i.files ∙ q.files;
            source = i.source;
            recorded = λ r. i.recorded (q.recorded r);
          })
        q

  prepared-Quiet :
      (item : CleanupItem) (m : Machine F) → Quiet sys item m (reconcile_prepared sys eng item m)
  unfolding reconcile_prepared
  prepared-Quiet item m = if-Quiet sys _ item m _ _ (stop-Quiet sys item none m) (
      if-Quiet sys _ item m _ _ (recovered-Quiet item m _ (finish_move-Quiet sys eng item m))
        (investigate-Quiet sys item _ m))

  restored-Quiet :
      (item : CleanupItem) (m : Machine F) → Quiet sys item m (reconcile_restored sys eng item m)
  unfolding reconcile_restored with_state
  restored-Quiet item m =
      option-Quiet sys _ item m _ _ (λ e. investigate-Quiet sys item _ m)
        (save-Quiet sys item _ _ m refl)

  quarantined-Quiet :
      (item : CleanupItem) (m : Machine F) → Quiet sys item m (reconcile_quarantined sys eng item m)
  unfolding reconcile_quarantined
  quarantined-Quiet item m =
      let src = sys.lstat m.files item.source in
      let dst = sys.lstat m.files item.destination in
      let id = item.entry.filesystem_id in
      if-Quiet sys (is_missing src && is_object dst id) item m _ _ (stop-Quiet sys item none m) (
        if-Quiet sys (is_object dst id && is_found src) item m _ _ (stop-Quiet sys item none m) (
          if-Quiet sys (is_object src id && is_missing dst) item m _ _ (restored-Quiet item m)
            (investigate-Quiet sys item _ m)))

  pub reconcile-Quiet :
      (item : CleanupItem) (m : Machine F) → Quiet sys item m (reconcile sys eng item m)
  unfolding reconcile retry_investigated with_state
  reconcile-Quiet item m =
      if-Quiet sys _ item m _ _ (unless-Quiet sys item m _ _ (save-Quiet sys item _ _ m refl)) (
        if-Quiet sys _ item m _ _ (prepared-Quiet item m)
          (if-Quiet sys _ item m _ _ (quarantined-Quiet item m) (stop-Quiet sys item none m)))

  -- For every item and machine, reconciling leaves the files as they were, and returns the item with
  -- the source that it had.
  pub reconcile-keeps :
      (item : CleanupItem) (m : Machine F)
      → ((reconcile sys eng item m).machine.files ≡ m.files)
        × ((reconcile sys eng item m).item.source ≡ item.source)
  reconcile-keeps item m = let q = reconcile-Quiet item m in (q.files, q.source)
