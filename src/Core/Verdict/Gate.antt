-- ===== src/Core/Verdict/Gate.antt =====
-- internal/core/verdict.go: the decision and the gate of a normalized verdict.
use workspace_janitor.Prelude.{◌≡◌, not, ◌||◌, any, any-sort_by, arith}
use workspace_janitor.Core.ActionKind.{ActionKind, mutating}
use workspace_janitor.Core.Entry.{is_blocking}
use workspace_janitor.Core.Verdict.{Verdict, normalize, protection_less, refused, is_refuse, allows}

-- A normalized verdict refuses exactly when one of its protections blocks.
pub refused-normalize : (v : Verdict) → refused (normalize v) ≡ any is_blocking v.protections
unfolding refused normalize is_refuse
refused-normalize v = ground (arith, any-sort_by protection_less is_blocking v.protections)

-- Normalizing again changes nothing about the decision.
pub allows-normalize :
    (v : Verdict) (k : ActionKind)
    → allows (normalize v) k ≡ (not (mutating k) || not (any is_blocking v.protections))
unfolding allows
allows-normalize v k = ground (arith, refused-normalize v)
