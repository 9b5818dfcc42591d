-- ===== src/Actions/Delete.antt =====
-- internal/action/delete_linux.go: the deletion of one object below an opened parent.
use workspace_janitor.Prelude.{ℕ, String, not, Option, none, some, if◌then◌else◌}
use workspace_janitor.Prelude.Filepath.{base, dir}
use workspace_janitor.Core.Entry.{FilesystemId, id_eq}
use workspace_janitor.Actions.{Answer, missing, failed, found, FileInfo, System}
use workspace_janitor.Actions.Dirs.{open_existing_dir}

module _ {F : Type 0} (sys : System F) where
  remove_named : F → ℕ → String → ℕ → F × Option String
  remove_named fs parent name device =
      let (fs1, removed) = sys.remove_at fs parent name device in
      elim removed [ some e ↦ (fs1, some e) | none ↦ sys.fsync fs1 parent ]

  remove_checked : F → ℕ → String → FilesystemId → Answer FileInfo → F × Option String
  unfolding remove_named
  remove_checked fs parent name expected (missing e) = (fs, some e)
  remove_checked fs parent name expected (failed e) = (fs, some e)
  remove_checked fs parent name expected (found info) =
      if not (id_eq expected info.identity)
      then (fs, some "quarantined identity changed")
      else remove_named fs parent name info.identity.device

  unfoldable pub delete_anchored : F → String → FilesystemId → F × Option String
  unfolding remove_checked
  delete_anchored fs path expected = elim (open_existing_dir sys fs (dir path)) [
    | missing e ↦ (fs, some e)
    | failed e ↦ (fs, some e)
    | found parent ↦
        remove_checked fs parent (base path) expected (sys.fstatat fs parent (base path))
  ]
