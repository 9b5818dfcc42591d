-- ===== src/Actions/Dirs.antt =====
-- internal/action/mkdir_linux.go: directories opened component by component, without symlinks.
use workspace_janitor.Prelude.{
  ℕ, String, not, ◌||◌, Option, none, some, List, [], ◌∷◌, concat, str_eq, is_empty, split,
  trim_prefix, if◌then◌else◌,
}
use workspace_janitor.Prelude.Filepath.{clean, is_abs, slash}
use workspace_janitor.Actions.{Answer, missing, failed, found, System}
use workspace_janitor.Actions.Paths.{wrap}

-- `%q` of a name without characters to escape.
quoted : String → String
quoted s = concat ("\"" ∷ s ∷ "\"" ∷ [])

component_error : String → String → String → String
component_error what part e = concat (what ∷ " " ∷ part ∷ " without symlinks: " ∷ e ∷ [])

component_opened : String → Answer ℕ → Answer ℕ
unfolding component_error
component_opened part (missing e) = missing (component_error "open receipt component" part e)
component_opened part (failed e) = failed (component_error "open receipt component" part e)
component_opened part (found fd) = found fd

module _ {F : Type 0} (sys : System F) where
  -- The part of `openExistingDirNoSymlinks` after `/` is open: `fd` is the directory so far.
  open_parts : F → ℕ → List String → Answer ℕ
  unfolding component_error quoted
  open_parts fs fd [] = found fd
  open_parts fs fd (part ∷ parts) =
      if is_empty part then open_parts fs fd parts else elim (sys.openat_dir fs fd part) [
        | missing e ↦ missing (component_error "open directory component" (quoted part) e)
        | failed e ↦ failed (component_error "open directory component" (quoted part) e)
        | found next ↦ open_parts fs next parts
      ]

  unfoldable pub open_existing_dir : F → String → Answer ℕ
  unfolding open_parts
  open_existing_dir fs path =
      if not (is_abs path) || not (str_eq (clean path) path)
      then failed (concat ("directory path must be absolute and canonical: " ∷ path ∷ []))
      else elim (sys.open_dir fs "/") [
        | missing e ↦ missing e
        | failed e ↦ failed e
        | found fd ↦ open_parts fs fd (split slash (trim_prefix path "/"))
      ]

  -- The descriptor of a component that `mkdirat` has just made, once its parent is synced.
  made_part : F → ℕ → String → F × Answer ℕ
  unfolding component_opened
  made_part fs fd part =
      let (fs1, made) = sys.mkdirat fs fd part in
      elim made [
        | some e ↦ (fs1, failed (concat ("create receipt component " ∷ part ∷ ": " ∷ e ∷ [])))
        | none ↦
            let (fs2, synced) = sys.fsync fs1 fd in
            elim synced [
              | some e ↦ (fs2, failed (wrap "sync new receipt parent" e))
              | none ↦ (fs2, component_opened part (sys.openat_dir fs2 fd part))
            ]
      ]

  opened_part : F → ℕ → String → F × Answer ℕ
  unfolding made_part component_error
  opened_part fs fd part = elim (sys.openat_dir fs fd part) [
    | missing e ↦ made_part fs fd part
    | failed e ↦ (fs, failed (component_error "open receipt component" part e))
    | found next ↦ (fs, found next)
  ]

  create_parts : F → ℕ → List String → F × Option String
  unfolding opened_part
  create_parts fs fd [] = sys.fsync fs fd
  create_parts fs fd (part ∷ parts) =
      if is_empty part
      then create_parts fs fd parts
      else let (fs', opened) = opened_part fs fd part in
        elim opened [
          | missing e ↦ (fs', some e)
          | failed e ↦ (fs', some e)
          | found next ↦ create_parts fs' next parts
        ]

  unfoldable pub create_receipt_dir : F → String → F × Option String
  unfolding create_parts
  create_receipt_dir fs path =
      if not (is_abs path)
      then (fs, some "receipt directory must be absolute")
      else elim (sys.open_dir fs "/") [
        | missing e ↦ (fs, some e)
        | failed e ↦ (fs, some e)
        | found fd ↦ create_parts fs fd (split slash (trim_prefix (clean path) "/"))
      ]
