-- ===== src/Actions/Move.antt =====
-- internal/action/engine.go: the receipt, the quarantine move and its completion.
pub mod Effects
pub mod Failing
pub mod Completed
pub mod Journalled
use workspace_janitor.Prelude.{
  String, not, ◌||◌, Option, none, some, [], ◌∷◌, concat, is_empty, str_eq, if◌then◌else◌,
}
use workspace_janitor.Prelude.Filepath.{dir, join_path}
use workspace_janitor.Core.Retention.{Time, expires_at}
use workspace_janitor.Core.Entry.{Entry, FilesystemId, id_eq}
use workspace_janitor.Core.Cleanup
use workspace_janitor.Core.Cleanup.{CleanupItem, prepared, quarantined}
use workspace_janitor.Core.Verdict.{Verdict, allows, summary}
use workspace_janitor.Safety.Revalidate.{
  Handle, Observation, observed, failed as unobserved, RevalidateInput, revalidate,
}
use workspace_janitor.Actions.{missing, failed, found, System, Engine, Machine, Outcome}
use workspace_janitor.Actions.Paths.{absent, same_filesystem, within, wrap}
use workspace_janitor.Actions.Dirs.{create_receipt_dir}
use workspace_janitor.Actions.Rename.{rename_no_replace, sync_dir}
use workspace_janitor.Actions.Manifest.{ensure_manifest}
use workspace_janitor.Actions.Observe.{recollect_receipt, recollect_with_size}
use workspace_janitor.Actions.Journal.{
  stop, done, with_state, worktree_owner, insert, save, link_error,
}

-- `if expiry, ok := r.ExpiresAt(moved); ok { item.ExpiresAt = &expiry }`
expiry_or : Option Time → Option Time → Option Time
expiry_or none before = before
expiry_or (some t) before = some t

unfoldable pub moved_item : CleanupItem → Entry → Time → CleanupItem
unfolding with_state expiry_or
moved_item item fresh moved = record (with_state quarantined moved item) {
  moved_at = some moved;
  expires_at = expiry_or (expires_at item.action.retention moved) item.expires_at;
  quarantine = some fresh;
}

unfoldable pub receipt_for : CleanupItem → String → Time → CleanupItem
receipt_for item root now = Cleanup.normalize (record item {
  destination = join_path (join_path (root ∷ item.cleanup_id ∷ item.action_id ∷ []) ∷ "item" ∷ []);
  state = prepared;
  created_at = now;
  updated_at = now;
})

module _ {F : Type 0} (sys : System F) where
  -- `err := f(); err != nil { return item, err }` for a call that writes files.
  unfoldable pub after_call :
      CleanupItem → Machine F → F × Option String → (Machine F → Outcome F) → Outcome F
  after_call item m (fs, some e) next = stop item e (record m { files = fs })
  after_call item m (fs, none) next = next (record m { files = fs })

  -- `if err := f(); err != nil { return item, err }` for a call that only reads.
  unfoldable pub unless : CleanupItem → Machine F → Option String → Outcome F → Outcome F
  unless item m (some e) next = stop item e m
  unless item m none next = next

  wrapped : String → F × Option String → F × Option String
  wrapped prefix (fs, none) = (fs, none)
  wrapped prefix (fs, some e) = (fs, some (wrap prefix e))

  inserted : CleanupItem → Option String × Machine F → Outcome F
  unfolding after_call
  inserted item (some e, m) = stop item e m
  inserted item (none, m) = after_call item m (ensure_manifest sys m.files item) (done item)

  prepare_receipt : CleanupItem → String → String → Machine F → Outcome F
  unfolding wrapped inserted after_call unless
  prepare_receipt item root base m =
      after_call item m (wrapped "create receipt directory" (create_receipt_dir sys m.files base))
        (λ m1. unless item m1 (same_filesystem sys m1.files item.source base) (
          after_call item m1 (sync_dir sys m1.files (dir base))
            (λ m2. inserted item (insert sys item m2))))

  prepare_at : CleanupItem → String → Machine F → Outcome F
  unfolding prepare_receipt receipt_for
  prepare_at item0 root m =
      let item = receipt_for item0 root (sys.now m.files) in
      elim (Cleanup.validate item) [
        | some errs ↦ stop item (sys.fields_text errs) m
        | none ↦
            if within item.source root || within root item.source
            then stop item (concat ("quarantine overlaps source " ∷ item.source ∷ [])) m
            else prepare_receipt item root
                (join_path (root ∷ item0.cleanup_id ∷ item0.action_id ∷ [])) m
      ]

module _ {F : Type 0} (sys : System F) (eng : Engine) where
  unfoldable pub prepare : CleanupItem → Machine F → Outcome F
  unfolding prepare_at
  prepare item m =
      if is_empty eng.quarantine_dir
      then stop item "quarantine store and directory are required" m
      else elim (sys.abs m.files eng.quarantine_dir) [
        | missing e ↦ stop item e m
        | failed e ↦ stop item e m
        | found root ↦ prepare_at sys item root m
      ]

  finish_observed : CleanupItem → Observation → Machine F → Outcome F
  unfolding unless moved_item
  finish_observed item (unobserved e) m = stop item (wrap "moved object requires investigation" e) m
  finish_observed item (observed fresh) m =
      if not (id_eq fresh.filesystem_id item.entry.filesystem_id)
      then stop item "moved object identity changed; investigate receipt" m
      else unless sys item m (link_error sys m.files item item.destination)
          (save sys (moved_item item fresh (sys.now m.files)) prepared m)

  unfoldable pub finish_move : CleanupItem → Machine F → Outcome F
  unfolding finish_observed
  finish_move item m = elim (absent sys m.files item.source) [
    | some e ↦ stop item (wrap "source reappeared after move" e) m
    | none ↦ finish_observed item (recollect_receipt sys eng m.files item.destination item.source) m
  ]

  unfoldable pub move_object : F → CleanupItem → String → String → FilesystemId → F × Option String
  unfolding worktree_owner
  move_object fs item from to expected = elim (worktree_owner item) [
    | none ↦ rename_no_replace sys fs from to expected
    | some owner ↦ sys.move_worktree fs owner from to
  ]

  unfoldable pub quarantine_input : F → CleanupItem → Handle → RevalidateInput
  quarantine_input fs item handle = record {
    planned = item.entry;
    action = item.action;
    policy = eng.policy;
    jobs = [];
    target = some (sys.resolve_target fs (dir item.destination));
    now = sys.now fs;
    clock = sys.now fs;
    recollect = some (λ path. recollect_with_size sys eng fs path item.entry.size_is_deep);
    handle = some handle;
  }

  refusal_of : CleanupItem → Verdict → Option String
  refusal_of item v =
      if not (allows v item.action.kind)
      then some (concat ("revalidation refused " ∷ item.source ∷ ": " ∷ summary v ∷ []))
      else none

  moved : CleanupItem → Machine F → Outcome F
  unfolding after_call
  moved item m =
      after_call sys item m (sync_dir sys m.files (dir item.destination))
        (λ m1. after_call sys item m1 (sync_dir sys m1.files (dir item.source)) (finish_move item))

  quarantine_opened : CleanupItem → Handle → Machine F → Outcome F
  unfolding unless refusal_of moved
  quarantine_opened item handle m =
      unless sys item m
        (refusal_of item (revalidate sys.sha256_hex (quarantine_input m.files item handle)))
        (unless sys item m (absent sys m.files item.destination) (
          after_call sys item m
            (move_object m.files item item.source item.destination handle.identity) (moved item)))

  quarantine_ready : CleanupItem → Machine F → Outcome F
  unfolding unless quarantine_opened
  quarantine_ready item m =
      unless sys item m (same_filesystem sys m.files item.source (dir item.destination))
        (elim (sys.open_handle m.files item.source) [
          | missing e ↦ stop item e m
          | failed e ↦ stop item e m
          | found handle ↦ quarantine_opened item handle m
        ])

  unfoldable pub quarantine : CleanupItem → Machine F → Outcome F
  unfolding quarantine_ready
  quarantine item m =
      if not (str_eq item.state prepared)
      then stop item (concat ("item " ∷ item.action_id ∷ " is not prepared" ∷ [])) m
      else after_call sys item m (ensure_manifest sys m.files item) (quarantine_ready item)
