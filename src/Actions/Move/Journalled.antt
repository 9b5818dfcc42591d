-- ===== src/Actions/Move/Journalled.antt =====
-- What the preparation and the quarantine of an item do to the journal.
use workspace_janitor.Prelude.{◌||◌, String, Option, none, some}
use workspace_janitor.Prelude.Filepath.{dir}
use workspace_janitor.Core.Cleanup
use workspace_janitor.Core.Cleanup.{CleanupItem}
use workspace_janitor.Safety.Revalidate.{Handle}
use workspace_janitor.Actions.{System, Engine, Machine}
use workspace_janitor.Actions.Paths.{same_filesystem}
use workspace_janitor.Actions.Dirs.{create_receipt_dir}
use workspace_janitor.Actions.Rename.{sync_dir}
use workspace_janitor.Actions.Manifest.{ensure_manifest}
use workspace_janitor.Actions.Journal.{insert}
use workspace_janitor.Actions.Journal.Effects.{insert-Recorded, Recorded}
use workspace_janitor.Actions.Move.Effects.{finish_move-Quiet}
use workspace_janitor.Actions.Records.{
  Records, answer-Records, option-Records, of_Quiet, stop-Records, unless-Records,
  after_call-Records,
}
use workspace_janitor.Actions.Move.{
  inserted, prepare_receipt, wrapped, moved, quarantine_opened, move_object,
}
use workspace_janitor.Actions.Move.{quarantine}
use workspace_janitor.Actions.Move.{prepare_at}
use workspace_janitor.Actions.Move.{prepare}
use workspace_janitor.Actions.Move.{quarantine_ready}
use workspace_janitor.Actions.Records.{if-Records}
use workspace_janitor.Actions.Move.{receipt_for}
use workspace_janitor.Actions.Move.{is_empty}
use workspace_janitor.Actions.Move.{not}
use workspace_janitor.Actions.Move.{str_eq}
use workspace_janitor.Actions.Move.{prepared}
use workspace_janitor.Actions.Move.{within}

module _ {F : Type 0} (sys : System F) where
  inserted-Records :
      (item : CleanupItem) (m : Machine F) (w : Option String × Machine F)
      → (Recorded sys m → Recorded sys w.1)
      → Records sys m (inserted sys item w)
  unfolding inserted
  inserted-Records item m (some e, m1) r = record { recorded = r }
  inserted-Records item m (none, m1) r =
      let a =
        after_call-Records sys item m1 (ensure_manifest sys m1.files item) _
          (stop-Records sys item none) in
      record { recorded = λ h. a.recorded (r h) }

  receipt-Records :
      (item : CleanupItem) (root base : String) (m : Machine F)
      → Records sys m (prepare_receipt sys item root base m)
  unfolding prepare_receipt
  receipt-Records item root base m =
      after_call-Records sys item m
        (wrapped sys "create receipt directory" (create_receipt_dir sys m.files base)) _
        (λ m1. unless-Records sys item m1 (same_filesystem sys m1.files item.source base) _ (
          after_call-Records sys item m1 (sync_dir sys m1.files (dir base)) _
            (λ m2. inserted-Records item m2 (insert sys item m2) (insert-Recorded sys item m2))))

module _ {F : Type 0} (sys : System F) (eng : Engine) where
  moved-Records : (item : CleanupItem) (m : Machine F) → Records sys m (moved sys eng item m)
  unfolding moved
  moved-Records item m =
      after_call-Records sys item m (sync_dir sys m.files (dir item.destination)) _ (λ m1.
        after_call-Records sys item m1 (sync_dir sys m1.files (dir item.source)) _
          (λ m2. of_Quiet sys item m2 _ (finish_move-Quiet sys eng item m2)))

  opened-Records :
      (item : CleanupItem) (handle : Handle) (m : Machine F)
      → Records sys m (quarantine_opened sys eng item handle m)
  unfolding quarantine_opened
  opened-Records item handle m = unless-Records sys item m _ _ (
      unless-Records sys item m _ _ (
        after_call-Records sys item m
          (move_object sys eng m.files item item.source item.destination handle.identity) _
          (moved-Records item)))

  ready-Records :
      (item : CleanupItem) (m : Machine F) → Records sys m (quarantine_ready sys eng item m)
  unfolding quarantine_ready
  ready-Records item m = unless-Records sys item m _ _ (
      answer-Records sys (sys.open_handle m.files item.source) item m _
        (λ handle. opened-Records item handle m))

  -- For every item and machine, a quarantine leaves a journal that committed writes led to as one.
  pub quarantine-Records :
      (item : CleanupItem) (m : Machine F) → Records sys m (quarantine sys eng item m)
  unfolding quarantine
  quarantine-Records item m =
      if-Records sys (not (str_eq item.state prepared)) m _ _ (stop-Records sys item _ m)
        (after_call-Records sys item m (ensure_manifest sys m.files item) _ (ready-Records item))

  at-Records :
      (item : CleanupItem) (root : String) (m : Machine F)
      → Records sys m (prepare_at sys item root m)
  unfolding prepare_at
  at-Records item0 root m =
      let item = receipt_for item0 root (sys.now m.files) in
      option-Records sys (Cleanup.validate item) m _ _ (λ errs. stop-Records sys item _ m)
        (if-Records sys (within item.source root || within root item.source) m _ _
          (stop-Records sys item _ m) (receipt-Records sys item root _ m))

  pub prepare-Records :
      (item : CleanupItem) (m : Machine F) → Records sys m (prepare sys eng item m)
  unfolding prepare
  prepare-Records item m =
      if-Records sys (is_empty eng.quarantine_dir) m _ _ (stop-Records sys item _ m) (
        answer-Records sys (sys.abs m.files eng.quarantine_dir) item m _
          (λ root. at-Records item root m))
