-- ===== src/Plan/Proposals/Builtin.antt =====
-- internal/plan/rules.go: the risk of the built-in defaults.
use workspace_janitor.Prelude.{◌≤◌, arith}
use workspace_janitor.Core.ActionKind.{quarantine, risk_rank}
use workspace_janitor.Core.ArtifactClass.{ArtifactClass}
use workspace_janitor.Core.Entry.{Entry}
use workspace_janitor.Core.Retention.{Retention}
use workspace_janitor.Plan.Classify.{Classification}
use workspace_janitor.Plan.Policy.{Policy}
use workspace_janitor.Plan.Proposals.Gather.{
  builtin_proposal, by_class, worktree_default, cache_default,
}

worktree_default-mild :
    (e : Entry) (c : Classification) (r : Retention)
    → risk_rank (worktree_default e c r).kind ≤ risk_rank quarantine
unfolding worktree_default risk_rank
worktree_default-mild e c r = ground arith

cache_default-mild :
    (e : Entry) (c : Classification) (r : Retention)
    → risk_rank (cache_default e c r).kind ≤ risk_rank quarantine
unfolding cache_default risk_rank
cache_default-mild e c r = ground arith

by_class-mild :
    (e : Entry) (c : Classification) (r : Retention) (k : ArtifactClass)
    → risk_rank (by_class e c r k).kind ≤ risk_rank quarantine
unfolding by_class risk_rank
by_class-mild e c r k = ground (arith, worktree_default-mild e c r, cache_default-mild e c r)

-- For every entry, class and policy, the built-in proposal has at most the risk rank of quarantine.
pub builtin_proposal-mild :
    (e : Entry) (c : Classification) (p : Policy)
    → risk_rank (builtin_proposal e c p).kind ≤ risk_rank quarantine
unfolding builtin_proposal
builtin_proposal-mild e c p = by_class-mild e c p.default_retention c.class
