-- ===== src/Actions/Settle/Exact.antt =====
-- When an expired receipt's object counts as deleted, and when as restored.
use workspace_janitor.Prelude.{◌≡◌, ◌↔◌, true, false, arith}
use workspace_janitor.Core.Cleanup.{CleanupItem}
use workspace_janitor.Actions.{System}
use workspace_janitor.Actions.Paths.{is_object, is_missing, is_found}
use workspace_janitor.Actions.Marker.{has_deletion_marker}
use workspace_janitor.Actions.Settle.{absent_deleted, absent_restored, settle_absent}
use workspace_janitor.Prelude.{◌||◌}

module _ {F : Type 0} (sys : System F) where
  -- For every item and files, the object is settled as deleted exactly when nothing exists at the
  -- destination, this receipt's deletion marker stands, and reading the source answers that nothing
  -- exists there or an object that is not the item's; and as restored exactly when nothing exists at
  -- the destination and the item's object is at the source.
  pub settle_absent_iff :
      (fs : F) (item : CleanupItem)
      → ((settle_absent sys fs item ≡ absent_deleted) ↔ (
          (is_missing (sys.lstat fs item.destination) ≡ true)
          × (has_deletion_marker sys fs item ≡ true)
          × (is_object (sys.lstat fs item.source) item.entry.filesystem_id ≡ false)
          × ((is_missing (sys.lstat fs item.source) || is_found (sys.lstat fs item.source))
              ≡ true)))
        × ((settle_absent sys fs item ≡ absent_restored) ↔ (
            (is_missing (sys.lstat fs item.destination) ≡ true)
            × (is_object (sys.lstat fs item.source) item.entry.filesystem_id ≡ true)))
  unfolding settle_absent
  settle_absent_iff fs item = (ground arith, ground arith)
