-- ===== src/Actions/Manifest.antt =====
-- internal/action/manifest.go: the receipt's manifest, installed once and never replaced.
use workspace_janitor.Prelude.{
  ℕ, suc, ◌*◌, String, not, ◌||◌, Option, none, some, str_eq, ltb, if◌then◌else◌,
}
use workspace_janitor.Prelude.Filepath.{dir, join_path}
use workspace_janitor.Core.Cleanup
use workspace_janitor.Core.Cleanup.{CleanupItem, prepared}
use workspace_janitor.Actions.{Answer, missing, failed, found, FileInfo, System}
use workspace_janitor.Actions.Paths.{wrap}
use workspace_janitor.Actions.Rename.{rename_no_replace, sync_dir}
use workspace_janitor.Prelude.{◌∷◌}
use workspace_janitor.Prelude.{[]}
use workspace_janitor.Actions.{Bool}
use workspace_janitor.Prelude.{true}

abbrev max_manifest_bytes : ℕ
max_manifest_bytes = 4 * 1_048_576

module _ {F : Type 0} (sys : System F) where
  matching_body : Answer String → String → Answer Bool
  matching_body (missing e) want = missing e
  matching_body (failed e) want = failed e
  matching_body (found got) want =
      if str_eq got want
      then found true
      else failed "receipt manifest differs from prepared journal row"

  matching_file : F → ℕ → String → Answer FileInfo → Answer Bool
  unfolding matching_body
  matching_file fs fd want (missing e) = missing e
  matching_file fs fd want (failed e) = failed e
  matching_file fs fd want (found info) =
      if not info.regular || ltb max_manifest_bytes info.size
      then failed "manifest is not a bounded regular file"
      else matching_body (sys.read fs fd (suc max_manifest_bytes)) want

  matches_manifest : F → String → String → Answer Bool
  unfolding matching_file
  matches_manifest fs path want = elim (sys.open_path fs path) [
    | missing e ↦ missing e
    | failed e ↦ failed e
    | found fd ↦ matching_file fs fd want (sys.fstat fs fd)
  ]

  first_error : Option String → Option String → Option String
  first_error none next = next
  first_error (some e) next = some e

  -- `if err == nil { err = f() }`, where the call is made only then.
  then_call : F × Option String → (F → F × Option String) → F × Option String
  then_call (fs, none) call = call fs
  then_call (fs, some e) call = (fs, some e)

  -- Chmod, write and sync until one fails; the file is closed in any case.
  staged : F → ℕ → String → F × Option String
  unfolding then_call first_error
  staged fs fd body =
      let (fs1, e) =
        then_call (then_call (sys.chmod fs fd) (λ g. sys.write g fd body)) (λ g. sys.fsync g fd) in
      let (fs2, closed) = sys.close fs1 fd in (fs2, first_error e closed)

  -- The rename of the staged file; a manifest that is there already and the same is no failure.
  installed : F → String → String → String → String → FileInfo → F × Option String
  unfolding matches_manifest
  installed fs base path staging body info =
      let (fs1, e) = rename_no_replace sys fs staging path info.identity in
      elim e [
        | none ↦ sync_dir sys fs1 base
        | some e ↦ elim (matches_manifest fs1 path body) [
          | found u ↦ (fs1, none)
          | _ ↦ (fs1, some (wrap "install manifest without replacement" e))
        ]
      ]

  stage_manifest : F → String → String → String → String → ℕ → F × Option String
  unfolding staged installed
  stage_manifest fs base path staging body fd =
      let (fs1, e) = staged fs fd body in
      elim e [
        | some e ↦ (fs1, some (wrap "sync staged manifest" e))
        | none ↦ elim (sys.lstat fs1 staging) [
          | missing e ↦ (fs1, some e)
          | failed e ↦ (fs1, some e)
          | found info ↦ installed fs1 base path staging body info
        ]
      ]

  -- `defer os.Remove(tmp.Name())`
  remove_staging : String → F × Option String → F × Option String
  remove_staging staging (fs, e) = (sys.remove fs staging, e)

  install_manifest : F → String → String → String → F × Option String
  unfolding stage_manifest remove_staging
  install_manifest fs base path body =
      let (fs1, created) = sys.create_temp fs base ".manifest-*" in
      elim created [
        | missing e ↦ (fs1, some (wrap "create manifest staging file" e))
        | failed e ↦ (fs1, some (wrap "create manifest staging file" e))
        | found (staging, fd) ↦
            remove_staging staging (stage_manifest fs1 base path staging body fd)
      ]

  manifest_for : F → String → String → F × Option String
  unfolding matches_manifest install_manifest
  manifest_for fs base body =
      let path = join_path (base ∷ "manifest.json" ∷ []) in
      if ltb max_manifest_bytes (sys.byte_length body)
      then (fs, some "receipt manifest exceeds size bound")
      else elim (matches_manifest fs path body) [
        | found u ↦ (fs, none)
        | failed e ↦ (fs, some e)
        | missing e ↦ install_manifest fs base path body
      ]

  unfoldable pub ensure_manifest : F → CleanupItem → F × Option String
  unfolding manifest_for
  ensure_manifest fs item =
      if not (str_eq item.state prepared)
      then (fs, some "only prepared receipts can install a manifest")
      else elim (sys.encode_item (Cleanup.normalize item)) [
        | missing e ↦ (fs, some e)
        | failed e ↦ (fs, some e)
        | found body ↦ manifest_for fs (dir item.destination) body
      ]
