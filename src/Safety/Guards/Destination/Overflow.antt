-- ===== src/Safety/Guards/Destination/Overflow.antt =====
-- internal/safety/guards.go: the sum of the free-space guard on int64.
use workspace_janitor.Prelude.{ℕ, ◌+◌, ◌^◌, ◌≤◌, ◌<◌, ◌≡◌, true, arith}
use workspace_janitor.Prelude.Int.{pos, ltb_ℤ, add64}
use workspace_janitor.Safety.Input.{Input}
use workspace_janitor.Safety.Guards.Destination.{required_bytes}

-- If the entry's size and the policy's free-space floor are non-negative int64 values whose sum is
-- 2^63 or more, then the number of bytes that the free-space guard asks for is negative.
pub required_bytes-wraps :
    (i : Input) (size floor : ℕ)
    → i.entry.size_bytes ≡ pos size
    → i.policy.min_free_bytes ≡ pos floor
    → size < 2 ^ 63
    → floor < 2 ^ 63
    → 2 ^ 63 ≤ size + floor
    → ltb_ℤ (required_bytes i) (pos 0) ≡ true
unfolding required_bytes add64
required_bytes-wraps i size floor hs hf ls lf l = rw (hs, hf) (ground arith)
