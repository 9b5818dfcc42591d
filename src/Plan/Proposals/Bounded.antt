-- ===== src/Plan/Proposals/Bounded.antt =====
-- internal/plan/rules.go: the evidence behind what a bounded cache rule proposes.
use workspace_janitor.Prelude.{
  ◌≡◌, true, false, not, ◌&&◌, ◌||◌, ltb, ◌-◌, arith, Bool, Bool-cases, inl, inr,
}
use workspace_janitor.Prelude.Int.{ℤ, pos, ltb_ℤ, leb_ℤ}
use workspace_janitor.Core.Retention.{Time, is_zero_time}
use workspace_janitor.Core.ActionKind.{mutating}
use workspace_janitor.Core.Entry.{Entry}
use workspace_janitor.Plan.Policy.{CacheRule}
use workspace_janitor.Plan.Adapters.{is_directory}
use workspace_janitor.Plan.Proposals.{bounded_cache_action, modified_of, is_file}

-- The newest change is unknown or after the observation, or the time since is below the time to live.
unfoldable pub unproven_age : Time → Time → ℤ → Bool
unproven_age newest observed ttl =
    is_zero_time newest
    || is_zero_time observed
    || ltb observed newest
    || ltb_ℤ (pos (observed - newest)) ttl

-- If a cache rule proposes a mutation, then the size is not at or below a positive byte bound; under a
-- positive time to live, the age since the latest change below a directory, or since the change of
-- what is no directory, is known and not below it; and under a bound a directory was measured deeply
-- and anything else is a file.
pub bounded_cache_action-evidence :
    (e : Entry) (rule : CacheRule)
    → mutating (bounded_cache_action e rule).0 ≡ true
    → ((ltb_ℤ (pos 0) rule.max_bytes && leb_ℤ e.size_bytes rule.max_bytes) ≡ false)
      × ((ltb_ℤ (pos 0) rule.ttl
            && is_directory e.kind
            && unproven_age e.latest_modified_at e.observed_at rule.ttl)
          ≡ false)
      × ((ltb_ℤ (pos 0) rule.ttl
            && not (is_directory e.kind)
            && unproven_age e.modified_at e.observed_at rule.ttl)
          ≡ false)
      × (((ltb_ℤ (pos 0) rule.max_bytes || ltb_ℤ (pos 0) rule.ttl)
            && is_directory e.kind
            && not e.size_is_deep)
          ≡ false)
      × (((ltb_ℤ (pos 0) rule.max_bytes || ltb_ℤ (pos 0) rule.ttl)
            && not (is_directory e.kind)
            && not (is_file e.kind))
          ≡ false)
unfolding bounded_cache_action mutating modified_of unproven_age
bounded_cache_action-evidence e rule h = elim (Bool-cases (is_directory e.kind)) [
  | inl d ↦ (ground arith, ground arith, ground arith, ground arith, ground arith)
  | inr d ↦ (ground arith, ground arith, ground arith, ground arith, ground arith)
]
