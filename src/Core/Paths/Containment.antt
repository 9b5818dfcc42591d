-- ===== src/Core/Paths/Containment.antt =====
-- internal/core/paths.go: laws of containment and overlap.
use Prim.Native.String.{◌++◌ as joined}
use Prim.Native.String.append
use workspace_janitor.Prelude.{String, ◌≡◌, refl, true, false, arith, is_empty}
use workspace_janitor.Prelude.Filepath.{clean, is_abs}
use text.Mathlib.TextPositions.{eq_refl}
use workspace_janitor.Core.Paths.{path_within, paths_overlap, is_database_path}

-- Overlap does not depend on the order of the two paths.
pub paths_overlap_comm : (a b : String) → paths_overlap a b ≡ paths_overlap b a
unfolding paths_overlap
paths_overlap_comm a b = ground arith

-- A non-empty path lies within itself.
pub path_within_refl : (p : String) → is_empty p ≡ false → path_within p p ≡ true
unfolding path_within
path_within_refl p h = rw (h, eq_refl (clean p))

database : is_database_path "/srv/app/State.SQLite3" ≡ true
unfolding is_database_path
database = refl

no_sibling :
    (path_within "/repos/ab" "/repos/a" ≡ false)
    × (path_within "/repos/a/b/.." "/repos/a" ≡ true)
    × (path_within "/etc" "/" ≡ true)
unfolding path_within clean is_abs
no_sibling = (refl, refl, refl)
