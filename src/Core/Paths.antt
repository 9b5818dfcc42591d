-- ===== src/Core/Paths.antt =====
-- internal/core/paths.go: canonical paths and containment.
pub mod Containment
use Prim.Native.String.{◌++◌ as append}
use workspace_janitor.Prelude.{
  ℕ, ◌-◌, ◌+◌, String, Bool, true, false, not, ◌&&◌, ◌||◌, List, [], ◌∷◌, map, leb, ◌==◌, str_eq,
  is_empty, has_prefix, if◌then◌else◌, codes, codes_eq,
}
use workspace_janitor.Prelude.Filepath.{clean, is_abs, ext}

unfoldable pub is_abs_clean : String → Bool
is_abs_clean p = if is_empty p || not (is_abs p) then false else str_eq (clean p) p

-- The part of `PathWithin` after both paths are cleaned.
within_clean : String → String → Bool
within_clean path target =
    if str_eq path target
    then true
    else if str_eq target "/"
    then is_abs path
    else has_prefix path (append target "/")

unfoldable pub path_within : String → String → Bool
unfolding within_clean
path_within path target =
    if is_empty path || is_empty target then false else within_clean (clean path) (clean target)

unfoldable pub paths_overlap : String → String → Bool
paths_overlap a b = path_within a b || path_within b a

-- strings.ToLower on one character: of the characters whose lower case is an ASCII letter, two lie
-- outside ASCII.
lower : ℕ → ℕ
lower c =
    if leb b'A' c && leb c b'Z'
    then c + 32
    else if c == 304
    then b'i'
    else if c == 8490
    then b'k'
    else c

database_extensions : List String
database_extensions = ".db" ∷ ".db3" ∷ ".sqlite" ∷ ".sqlite3" ∷ ".mdb" ∷ ".ldb" ∷ []

one_of : List ℕ → List String → Bool
one_of s [] = false
one_of s (w ∷ ws) = codes_eq s (codes w) || one_of s ws

unfoldable pub is_database_path : String → Bool
unfolding lower database_extensions one_of codes codes_eq ext
is_database_path path = one_of (map lower (codes (ext path))) database_extensions
