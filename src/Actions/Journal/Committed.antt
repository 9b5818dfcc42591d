-- ===== src/Actions/Journal/Committed.antt =====
-- What a journal write without an error leaves in the table, and that an investigation is an error.
use workspace_janitor.Prelude.{
  refl, ◌≡◌, String, Option, none, some, is_some, true, arith, inl, inr,
}
use text.Mathlib.TextPositions.{eq_refl}
use workspace_janitor.Core.Cleanup
use workspace_janitor.Core.Cleanup.{CleanupItem, CleanupState}
use workspace_janitor.Store.Cleanup.Journal.{update_cleanup-ok}
use workspace_janitor.Store.Cleanup.Table.{state_of, state_of-set_row}
use workspace_janitor.Actions.{System, Machine}
use workspace_janitor.Actions.Journal.{update, investigate_item, investigated}
use workspace_janitor.Actions.Journal.Effects.{update-cases}

module _ {F : Type 0} (sys : System F) where
  investigated-fails :
      (item : CleanupItem) (reason : String) (w : Option String × Machine F)
      → is_some (investigated sys item reason w).error ≡ true
  unfolding investigated
  investigated-fails item reason (some e, m) = refl
  investigated-fails item reason (none, m) = refl

  pub investigate_item-fails :
      (item : CleanupItem) (reason : String) (m : Machine F)
      → is_some (investigate_item sys item reason m).error ≡ true
  unfolding investigate_item
  investigate_item-fails item reason m = investigated-fails _ reason _

  -- A committed update leaves the key's row in the item's state.
  pub update_row :
      (item : CleanupItem) (expected : CleanupState) (m : Machine F)
      → (update sys item expected m).0 ≡ none
      → state_of item.cleanup_id item.action_id (update sys item expected m).1.journal.items
        ≡ some item.state
  unfolding Cleanup.normalize
  update_row item expected m h = elim (update-cases sys item expected m) [
    | inl (e, k) ↦ ground (arith, k)
    | inr (s, k, u) ↦
        let w = update_cleanup-ok sys.encode_entry sys.encode_action item expected m.journal s k in
        let row =
          state_of-set_row item.cleanup_id item.action_id (Cleanup.normalize item) w.old
            m.journal.items item.cleanup_id item.action_id w.found in
        let i = eq_refl item.cleanup_id in
        let a = eq_refl item.action_id in rw (u, w.items, row, i, a) refl
  ]
