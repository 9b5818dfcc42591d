-- ===== src/Actions/Rename.antt =====
-- internal/action/rename_linux.go: the rename that never replaces, and the sync of a directory.
use workspace_janitor.Prelude.{ℕ, String, not, Option, none, some, ◌==◌, if◌then◌else◌}
use workspace_janitor.Prelude.Filepath.{base, dir}
use workspace_janitor.Core.Entry.{FilesystemId, id_eq}
use workspace_janitor.Actions.{Answer, missing, failed, found, FileInfo, System}
use workspace_janitor.Actions.Paths.{wrap}
use workspace_janitor.Actions.Dirs.{open_existing_dir}

-- The checks between the two parents being open and the rename.
rename_refused : Answer FileInfo → Answer FileInfo → FilesystemId → Option String
rename_refused (missing e) parent expected = some (wrap "stat source" e)
rename_refused (failed e) parent expected = some (wrap "stat source" e)
rename_refused (found source) parent expected =
    if not (id_eq source.identity expected)
    then some "source identity changed before rename"
    else elim parent [
      | missing e ↦ some (wrap "stat destination parent" e)
      | failed e ↦ some (wrap "stat destination parent" e)
      | found destination ↦
          if not (source.identity.device == destination.identity.device)
          then some "cross-filesystem quarantine is unsupported"
          else none
    ]

moved_refused : Answer FileInfo → FilesystemId → Option String
moved_refused (missing e) expected =
    some (wrap "moved object identity did not match the checked source" e)
moved_refused (failed e) expected =
    some (wrap "moved object identity did not match the checked source" e)
moved_refused (found info) expected =
    if id_eq info.identity expected
    then none
    else some "moved object identity did not match the checked source: <nil>"

module _ {F : Type 0} (sys : System F) where
  sync_after : F → ℕ → ℕ → F × Option String
  sync_after fs from_dir to_dir =
      let (fs1, first) = sys.fsync fs to_dir in
      elim first [
        | some e ↦ (fs1, some (wrap "sync destination parent" e))
        | none ↦
            let (fs2, second) = sys.fsync fs1 from_dir in
            elim second [ some e ↦ (fs2, some (wrap "sync source parent" e)) | none ↦ (fs2, none) ]
      ]

  -- The rename itself, between two opened parents.
  rename_between : F → ℕ → String → ℕ → String → FilesystemId → F × Option String
  unfolding sync_after moved_refused
  rename_between fs from_dir from_name to_dir to_name expected =
      let (fs1, renamed) = sys.rename_noreplace fs from_dir from_name to_dir to_name in
      elim renamed [
        | some e ↦ (fs1, some (wrap "atomic no-replace rename" e))
        | none ↦ elim (moved_refused (sys.fstatat fs1 to_dir to_name) expected) [
          | some e ↦ (fs1, some e)
          | none ↦ sync_after fs1 from_dir to_dir
        ]
      ]

  rename_opened : F → ℕ → String → ℕ → String → FilesystemId → F × Option String
  unfolding rename_refused rename_between
  rename_opened fs from_dir from_name to_dir to_name expected =
      elim (rename_refused (sys.fstatat fs from_dir from_name) (sys.fstat fs to_dir) expected) [
        | some e ↦ (fs, some e)
        | none ↦ rename_between fs from_dir from_name to_dir to_name expected
      ]

  unfoldable pub rename_no_replace : F → String → String → FilesystemId → F × Option String
  unfolding rename_opened
  rename_no_replace fs from to expected = elim (open_existing_dir sys fs (dir from)) [
    | missing e ↦ (fs, some (wrap "open source parent" e))
    | failed e ↦ (fs, some (wrap "open source parent" e))
    | found from_dir ↦ elim (open_existing_dir sys fs (dir to)) [
      | missing e ↦ (fs, some (wrap "open destination parent" e))
      | failed e ↦ (fs, some (wrap "open destination parent" e))
      | found to_dir ↦ rename_opened fs from_dir (base from) to_dir (base to) expected
    ]
  ]

  unfoldable pub sync_dir : F → String → F × Option String
  sync_dir fs path = elim (sys.open_path fs path) [
    | missing e ↦ (fs, some e)
    | failed e ↦ (fs, some e)
    | found fd ↦ sys.fsync fs fd
  ]
