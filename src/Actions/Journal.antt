-- ===== src/Actions/Journal.antt =====
-- internal/action/engine.go and internal/store/store.go: journal writes of the executor.
pub mod Effects
pub mod Committed
use workspace_janitor.Prelude.{String, Option, none, some, [], ◌∷◌, concat, is_empty, if◌then◌else◌}
use workspace_janitor.Core.Retention.{Time}
use workspace_janitor.Core.Entry.{GitState}
use workspace_janitor.Core.Cleanup
use workspace_janitor.Core.Cleanup.{CleanupItem, CleanupState}
use workspace_janitor.Store.Cleanup.{CleanupStore, Result, err, ok, insert_cleanup, update_cleanup}
use workspace_janitor.Actions.{System, Machine, Outcome}

abbrev pub stop : {F : Type 0} → CleanupItem → String → Machine F → Outcome F
stop item e m = record { item = item; error = some e; machine = m }

abbrev pub done : {F : Type 0} → CleanupItem → Machine F → Outcome F
done item m = record { item = item; error = none; machine = m }

-- `item.State, item.UpdatedAt = state, now`
unfoldable pub with_state : CleanupState → Time → CleanupItem → CleanupItem
with_state state now item = record item { state = state; updated_at = now }

-- `Git.WorktreeOf` where `Git != nil && Git.WorktreeOf != ""`
worktree_in : Option GitState → Option String
worktree_in none = none
worktree_in (some g) = if is_empty g.worktree_of then none else some g.worktree_of

unfoldable pub worktree_owner : CleanupItem → Option String
unfolding worktree_in
worktree_owner item = worktree_in item.entry.git

module _ {F : Type 0} (sys : System F) where
  -- `DB.Write`: begin, the statements, commit; a failure of any leaves the journal as it was.
  transacted : Machine F → Result → Option String × Machine F
  transacted m (err e) = (some (sys.store_text e), m)
  transacted m (ok s) = elim (sys.commit_error m.files) [
    | some e ↦ (some e, m)
    | none ↦ (none, record m { journal = s })
  ]

  write_journal : Machine F → (CleanupStore → Result) → Option String × Machine F
  unfolding transacted
  write_journal m call = elim (sys.begin_error m.files) [
    | some e ↦ (some e, m)
    | none ↦ transacted m (call m.journal)
  ]

  unfoldable pub update : CleanupItem → CleanupState → Machine F → Option String × Machine F
  unfolding write_journal
  update item expected m =
      write_journal m (update_cleanup sys.encode_entry sys.encode_action item expected)

  unfoldable pub insert : CleanupItem → Machine F → Option String × Machine F
  unfolding write_journal
  insert item m = write_journal m (insert_cleanup sys.encode_entry sys.encode_action item)

  -- `if err := e.update(...); err != nil { return item, err }; return item, nil`
  unfoldable pub save : CleanupItem → CleanupState → Machine F → Outcome F
  unfolding update
  save item expected m =
      let (e, m') = update item expected m in record { item = item; error = e; machine = m' }

  investigated : CleanupItem → String → Option String × Machine F → Outcome F
  investigated item reason (some e, m) = stop item e m
  investigated item reason (none, m) = stop item (concat (item.action_id ∷ ": " ∷ reason ∷ [])) m

  unfoldable pub investigate_item : CleanupItem → String → Machine F → Outcome F
  unfolding investigated with_state
  investigate_item item reason m =
      let item' = record (with_state Cleanup.investigate (sys.now m.files) item) {
        reason = reason;
      } in
      investigated item' reason (update item' item.state m)

  unfoldable pub link_error : F → CleanupItem → String → Option String
  unfolding worktree_owner
  link_error fs item path = elim (worktree_owner item) [
    | none ↦ none
    | some owner ↦ sys.verify_worktree fs owner path
  ]
