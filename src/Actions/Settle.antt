-- ===== src/Actions/Settle.antt =====
-- internal/action/retention.go: what became of an expired receipt's missing object.
pub mod Exact
use workspace_janitor.Prelude.{Bool, true, false, not, ◌&&◌, if◌then◌else◌}
use workspace_janitor.Core.Cleanup.{CleanupItem}
use workspace_janitor.Actions.{System}
use workspace_janitor.Actions.Paths.{is_object, is_missing, is_found}
use workspace_janitor.Actions.Marker.{has_deletion_marker}

pub data AbsentOutcome : Type 0 where
  absent_unproven absent_deleted absent_restored : AbsentOutcome

unfoldable pub is_unproven : AbsentOutcome → Bool
is_unproven absent_unproven = true
is_unproven _ = false

module _ {F : Type 0} (sys : System F) where
  unfoldable pub settle_absent : F → CleanupItem → AbsentOutcome
  settle_absent fs item =
      let src = sys.lstat fs item.source in
      if not (is_missing (sys.lstat fs item.destination))
      then absent_unproven
      else if is_object src item.entry.filesystem_id
      then absent_restored
      else if not (is_found src) && not (is_missing src)
      then absent_unproven
      else if has_deletion_marker sys fs item
      then absent_deleted
      else absent_unproven
