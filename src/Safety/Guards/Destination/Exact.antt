-- ===== src/Safety/Guards/Destination/Exact.antt =====
-- The two destination guards together report exactly when the destination is a risk.
use workspace_janitor.Prelude.{◌≡◌, refl, ◌||◌, Option, none, some, any, arith}
use workspace_janitor.Core.Entry.{Protection, is_blocking}
use workspace_janitor.Safety.Input.{Input, Target, protect}
use workspace_janitor.Safety.Risk.{target_risk}
use workspace_janitor.Safety.Guards.Destination.{
  guard_quarantine_filesystem, guard_free_space, target_protections, space_protections,
  is_directory, on_target, required_bytes,
}
use workspace_janitor.Prelude.{false}
use workspace_janitor.Prelude.{Bool}
use workspace_janitor.Prelude.{not}

-- A protection that does not block.
abbrev is_idle : Protection → Bool
is_idle p = not p.blocking

destination_at :
    (i : Input) (t : Option Target)
    → (any is_blocking (on_target (target_protections i) t)
        || any is_blocking (on_target (space_protections i) t))
      ≡ target_risk i t
unfolding on_target target_protections space_protections is_directory target_risk protect
    required_bytes
destination_at i none = refl
destination_at i (some t) = ground arith

pub destination_guards_exact :
    (i : Input)
    → (any is_blocking (guard_quarantine_filesystem i) || any is_blocking (guard_free_space i))
      ≡ target_risk i i.target
unfolding guard_quarantine_filesystem guard_free_space
destination_guards_exact i = destination_at i i.target

destination_blocks_at :
    (i : Input) (t : Option Target)
    → (any is_idle (on_target (target_protections i) t) ≡ false)
      × (any is_idle (on_target (space_protections i) t) ≡ false)
unfolding on_target target_protections space_protections is_directory protect
destination_blocks_at i none = (refl, refl)
destination_blocks_at i (some t) = (ground arith, ground arith)

-- Neither guard reports a protection that does not block.
pub destination_guards_block :
    (i : Input)
    → (any is_idle (guard_quarantine_filesystem i) ≡ false)
      × (any is_idle (guard_free_space i) ≡ false)
unfolding guard_quarantine_filesystem guard_free_space
destination_guards_block i = destination_blocks_at i i.target
