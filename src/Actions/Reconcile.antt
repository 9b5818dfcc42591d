-- ===== src/Actions/Reconcile.antt =====
-- internal/action/engine.go: what a crash between a journal write and a rename is resolved to.
pub mod Effects
pub mod Recovery
use workspace_janitor.Prelude.{
  String, Bool, ◌&&◌, Option, none, some, [], ◌∷◌, concat, str_eq, is_some, if◌then◌else◌,
}
use workspace_janitor.Core.Cleanup
use workspace_janitor.Core.Cleanup.{CleanupItem, prepared, quarantined, restored}
use workspace_janitor.Actions.{System, Engine, Machine, Outcome}
use workspace_janitor.Actions.Paths.{is_object, is_missing, is_found}
use workspace_janitor.Actions.Eligible.{eligible}
use workspace_janitor.Actions.Settle.{settle_absent, is_unproven}
use workspace_janitor.Actions.Journal.{done, with_state, save, investigate_item, link_error}
use workspace_janitor.Actions.Move.{finish_move, unless}

abbrev pub retriable : CleanupItem → Bool
retriable item =
    str_eq item.state Cleanup.investigate && is_some item.quarantine && is_some item.moved_at

module _ {F : Type 0} (sys : System F) (eng : Engine) where
  -- `candidate := item; candidate.State = CleanupQuarantined; e.Eligible(ctx, candidate)`, which is
  -- asked only while the object's absence is unproven.
  unfoldable pub retry_refused : F → CleanupItem → Option String
  retry_refused fs item =
      if is_unproven (settle_absent sys fs item)
      then eligible sys eng fs (record item { state = quarantined })
      else none

  retry_investigated : CleanupItem → Machine F → Outcome F
  unfolding retry_refused unless with_state
  retry_investigated item m = unless sys item m (retry_refused m.files item) (
      save sys (record (with_state quarantined (sys.now m.files) item) { reason = "" })
        Cleanup.investigate m)

  -- `recovered, err := e.finishMove(ctx, item)`, with an investigation of a failure.
  recovered : CleanupItem → Outcome F → Outcome F
  recovered item o = elim o.error [
    | none ↦ o
    | some e ↦
        investigate_item sys item (concat ("post-move observation failed: " ∷ e ∷ [])) o.machine
  ]

  reconcile_prepared : CleanupItem → Machine F → Outcome F
  unfolding recovered
  reconcile_prepared item m =
      let src = sys.lstat m.files item.source in
      let dst = sys.lstat m.files item.destination in
      let id = item.entry.filesystem_id in
      if is_object src id && is_missing dst
      then done item m
      else if is_missing src && is_object dst id
      then recovered item (finish_move sys eng item m)
      else investigate_item sys item
          "prepared move has conflicting or changed source and destination" m

  reconcile_restored : CleanupItem → Machine F → Outcome F
  unfolding with_state
  reconcile_restored item m = elim (link_error sys m.files item item.source) [
    | some e ↦ investigate_item sys item "restored Git registration is invalid" m
    | none ↦ save sys (with_state restored (sys.now m.files) item) quarantined m
  ]

  reconcile_quarantined : CleanupItem → Machine F → Outcome F
  unfolding reconcile_restored
  reconcile_quarantined item m =
      let src = sys.lstat m.files item.source in
      let dst = sys.lstat m.files item.destination in
      let id = item.entry.filesystem_id in
      if is_missing src && is_object dst id
      then done item m
      else if is_object dst id && is_found src
      then done item m
      else if is_object src id && is_missing dst
      then reconcile_restored item m
      else investigate_item sys item
          "quarantined move has conflicting or changed source and destination" m

  unfoldable pub reconcile : CleanupItem → Machine F → Outcome F
  unfolding retry_investigated reconcile_prepared reconcile_quarantined
  reconcile item m =
      if retriable item
      then retry_investigated item m
      else if str_eq item.state prepared
      then reconcile_prepared item m
      else if str_eq item.state quarantined
      then reconcile_quarantined item m
      else done item m
