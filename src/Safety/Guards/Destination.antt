-- ===== src/Safety/Guards/Destination.antt =====
-- internal/safety/guards.go: the destination that a mutation would use.
pub mod Exact
pub mod Overflow
use workspace_janitor.Prelude.{
  Bool, true, false, not, ◌&&◌, ◌||◌, Option, none, some, List, [], ◌∷◌, ◌==◌, is_empty, concat,
  itoa, if◌then◌else◌,
}
use workspace_janitor.Prelude.Int.{ℤ, add64, leb_ℤ, itoa_int}
use workspace_janitor.Core.EntryKind.{EntryKind, directory}
use workspace_janitor.Core.EvidenceSource.{EvidenceSource}
use workspace_janitor.Core.ProtectionKind.{
  live_database, durable_evidence, symlink_escape, insufficient_space, cross_filesystem,
  collector_failure, policy_protected,
}
use workspace_janitor.Core.Entry.{Protection, zero_id}
use workspace_janitor.Safety.Input.{Input, Target, protect}
use workspace_janitor.Safety.Guards.Raise.{raise_if}

unfoldable pub is_directory : EntryKind → Bool
is_directory directory = true
is_directory _ = false

target_protections : Input → Target → List Protection
unfolding raise_if
target_protections i t =
    if not t.known
    then protect collector_failure EvidenceSource.filesystem (
        concat (
          "destination "
          ∷ t.dir
          ∷ " is unusable: "
          ∷ (if is_empty t.detail then "the destination could not be inspected" else t.detail)
          ∷ []))
      ∷ []
    else if i.policy.allow_cross_filesystem_copy || zero_id i.entry.filesystem_id
    then []
    else raise_if (not (t.device == i.entry.filesystem_id.device)) (
        protect cross_filesystem EvidenceSource.filesystem (
          concat (
            "destination "
            ∷ t.dir
            ∷ " is on device "
            ∷ itoa t.device
            ∷ ", the item is on device "
            ∷ itoa i.entry.filesystem_id.device
            ∷ ", and no cross-filesystem copy policy is configured"
            ∷ [])))

on_target : (Target → List Protection) → Option Target → List Protection
on_target check none = []
on_target check (some t) = check t

unfoldable pub guard_quarantine_filesystem : Input → List Protection
unfolding on_target target_protections
guard_quarantine_filesystem i = on_target (target_protections i) i.target

-- The headroom test on int64: the sum wraps around.
unfoldable pub required_bytes : Input → ℤ
required_bytes i = add64 i.entry.size_bytes i.policy.min_free_bytes

space_protections : Input → Target → List Protection
unfolding raise_if
space_protections i t =
    if not t.known
    then []
    else if not (zero_id i.entry.filesystem_id) && (t.device == i.entry.filesystem_id.device)
    then []
    else if is_directory i.entry.kind && not i.entry.size_is_deep
    then protect insufficient_space EvidenceSource.filesystem (
        concat (
          i.entry.path
          ∷ " would be copied to "
          ∷ t.dir
          ∷ " on another filesystem, but its size is unmeasured: the recorded "
          ∷ itoa_int i.entry.size_bytes
          ∷ " byte(s) is directory metadata, not the size of its contents"
          ∷ []))
      ∷ []
    else raise_if (not (leb_ℤ (required_bytes i) t.free_bytes)) (
        protect insufficient_space EvidenceSource.filesystem (
          concat (
            "destination "
            ∷ t.dir
            ∷ " has "
            ∷ itoa_int t.free_bytes
            ∷ " free byte(s); "
            ∷ itoa_int (required_bytes i)
            ∷ " are required for "
            ∷ itoa_int i.entry.size_bytes
            ∷ " byte(s) plus "
            ∷ itoa_int i.policy.min_free_bytes
            ∷ " byte(s) of headroom"
            ∷ [])))

unfoldable pub guard_free_space : Input → List Protection
unfolding on_target space_protections
guard_free_space i = on_target (space_protections i) i.target
