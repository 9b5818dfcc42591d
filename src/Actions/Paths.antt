-- ===== src/Actions/Paths.antt =====
-- internal/action/engine.go and retention.go: identities, absence, containment and devices.
pub mod Absence
use workspace_janitor.Prelude.{
  String, Bool, true, false, not, ◌&&◌, ◌||◌, Option, none, some, [], ◌∷◌, concat, str_eq,
  has_prefix, ◌==◌, if◌then◌else◌,
}
use workspace_janitor.Prelude.Filepath.{rel}
use workspace_janitor.Core.Entry.{FilesystemId, zero_id, id_eq}
use workspace_janitor.Actions.{Answer, missing, failed, found, FileInfo, System}

unfoldable pub identity_matches : FileInfo → FilesystemId → Bool
identity_matches info id = not (zero_id id) && id_eq info.identity id

-- `err == nil && identityMatches(info, id)`
unfoldable pub is_object : Answer FileInfo → FilesystemId → Bool
unfolding identity_matches
is_object (found info) id = identity_matches info id
is_object _ id = false

-- `errors.Is(err, os.ErrNotExist)`
unfoldable pub is_missing {ℓ} : {A : Type ℓ} → Answer A → Bool
is_missing (missing e) = true
is_missing _ = false

-- `err == nil`
unfoldable pub is_found {ℓ} : {A : Type ℓ} → Answer A → Bool
is_found (found a) = true
is_found _ = false

unfoldable pub within : String → String → Bool
unfolding rel
within path root = elim (rel root path) [
  | none ↦ false
  | some r ↦ not (str_eq r "..") && not (has_prefix r "../")
]

occupied : String → Answer FileInfo → Option String
occupied path (missing e) = none
occupied path (failed e) = some e
occupied path (found info) = some (concat (path ∷ " is occupied" ∷ []))

same_device : FileInfo → FileInfo → Option String
same_device object parent =
    if not parent.directory
    then some "destination parent is not a directory"
    else if zero_id object.identity
        || zero_id parent.identity
        || not (object.identity.device == parent.identity.device)
    then some "cross-filesystem rename is unsupported"
    else none

-- `fmt.Errorf(prefix + ": %w", err)`
unfoldable pub wrap : String → String → String
wrap prefix e = concat (prefix ∷ ": " ∷ e ∷ [])

parent_device : FileInfo → Answer FileInfo → Option String
unfolding same_device
parent_device object (found parent) = same_device object parent
parent_device object (missing e) = some (wrap "inspect destination parent" e)
parent_device object (failed e) = some (wrap "inspect destination parent" e)

object_device : Answer FileInfo → Answer FileInfo → Option String
unfolding parent_device
object_device (found object) parent = parent_device object parent
object_device (missing e) parent = some (wrap "inspect source" e)
object_device (failed e) parent = some (wrap "inspect source" e)

module _ {F : Type 0} (sys : System F) where
  unfoldable pub absent : F → String → Option String
  unfolding occupied
  absent fs path = occupied path (sys.lstat fs path)

  unfoldable pub same_filesystem : F → String → String → Option String
  unfolding object_device
  same_filesystem fs source dest_dir = object_device (sys.lstat fs source) (sys.stat fs dest_dir)
