-- ===== src/Actions/Marker.antt =====
-- internal/action/marker_linux.go: the file that proves that expiry started deleting an object.
use workspace_janitor.Prelude.{
  ℕ, suc, String, Bool, false, not, ◌||◌, Option, none, some, [], ◌∷◌, concat, itoa, str_eq, ◌==◌,
  if◌then◌else◌,
}
use workspace_janitor.Prelude.Filepath.{base, dir}
use workspace_janitor.Core.Entry.{FilesystemId, id_eq}
use workspace_janitor.Core.Cleanup.{CleanupItem}
use workspace_janitor.Actions.{Answer, missing, failed, found, FileInfo, System}
use workspace_janitor.Actions.Paths.{wrap}

abbrev deletion_marker_name : String
deletion_marker_name = "deleting"

unfoldable pub marker_content : CleanupItem → FilesystemId → String
marker_content item d =
    let object = item.entry.filesystem_id in
    concat (
      item.action_id
      ∷ " dir="
      ∷ itoa d.device
      ∷ ":"
      ∷ itoa d.inode
      ∷ " object="
      ∷ itoa object.device
      ∷ ":"
      ∷ itoa object.inode
      ∷ "\n"
      ∷ [])

holds_object : CleanupItem → Answer FileInfo → Option String
holds_object item (missing e) = some (wrap "receipt directory does not hold the object" e)
holds_object item (failed e) = some (wrap "receipt directory does not hold the object" e)
holds_object item (found object) =
    if id_eq object.identity item.entry.filesystem_id
    then none
    else some "receipt directory holds a different object"

module _ {F : Type 0} (sys : System F) where
  opened_receipt : F → Answer ℕ → Answer (ℕ × FilesystemId)
  opened_receipt fs (missing e) = missing e
  opened_receipt fs (failed e) = failed e
  opened_receipt fs (found fd) = elim (sys.fstat fs fd) [
    | missing e ↦ missing e
    | failed e ↦ failed e
    | found info ↦ found (fd, info.identity)
  ]

  unfoldable pub open_receipt_dir : F → CleanupItem → Answer (ℕ × FilesystemId)
  unfolding opened_receipt
  open_receipt_dir fs item = opened_receipt fs (sys.open_dir fs (dir item.destination))

  -- Write, sync, close and sync of the directory: the first failure ends it.
  install_marker : F → ℕ → ℕ → String → F × Option String
  install_marker fs d fd content =
      let (fs1, written) = sys.write fs fd content in
      elim written [
        | some e ↦ ((sys.close fs1 fd).0, some e)
        | none ↦
            let (fs2, synced) = sys.fsync fs1 fd in
            elim synced [
              | some e ↦ ((sys.close fs2 fd).0, some e)
              | none ↦
                  let (fs3, closed) = sys.close fs2 fd in
                  elim closed [ some e ↦ (fs3, some e) | none ↦ sys.fsync fs3 d ]
            ]
      ]

  create_marker : F → CleanupItem → ℕ → FilesystemId → F × Option String
  unfolding install_marker
  create_marker fs item d identity =
      let (fs1, created) = sys.create_at fs d deletion_marker_name in
      elim created [
        | missing e ↦ (fs1, some e)
        | failed e ↦ (fs1, some e)
        | found fd ↦ install_marker fs1 d fd (marker_content item identity)
      ]

  unfoldable pub write_deletion_marker : F → CleanupItem → F × Option String
  unfolding holds_object create_marker
  write_deletion_marker fs item = elim (open_receipt_dir fs item) [
    | missing e ↦ (fs, some e)
    | failed e ↦ (fs, some e)
    | found (d, identity) ↦ elim (holds_object item (sys.fstatat fs d (base item.destination))) [
      | some e ↦ (fs, some e)
      | none ↦ create_marker fs item d identity
    ]
  ]

  -- The file has the size of `want`, and reading one byte more than that gives `want`.
  reads_as : F → ℕ → String → Bool
  reads_as fs fd want = elim (sys.fstat fs fd) [
    | missing e ↦ false
    | failed e ↦ false
    | found info ↦
        if not info.regular || not (info.size == sys.byte_length want)
        then false
        else elim (sys.read fs fd (suc (sys.byte_length want))) [
          | missing e ↦ false
          | failed e ↦ false
          | found got ↦ str_eq got want
        ]
  ]

  marker_reads : F → CleanupItem → ℕ → FilesystemId → Bool
  unfolding reads_as
  marker_reads fs item d identity = elim (sys.openat fs d deletion_marker_name) [
    | missing e ↦ false
    | failed e ↦ false
    | found fd ↦ reads_as fs fd (marker_content item identity)
  ]

  unfoldable pub has_deletion_marker : F → CleanupItem → Bool
  unfolding marker_reads
  has_deletion_marker fs item = elim (open_receipt_dir fs item) [
    | missing e ↦ false
    | failed e ↦ false
    | found (d, identity) ↦ marker_reads fs item d identity
  ]
