-- ===== src/Plan/Rules/Safest.antt =====
-- internal/plan/rules.go: the risk of the decision against the proposals of the winning tier.
use workspace_janitor.Prelude.{
  ◌≡◌, refl, Bool, true, false, not, ◌&&◌, List, [], ◌∷◌, any, Bool-cases, inl, inr, ltb, ◌==◌, ◌≤◌,
  arith,
}
use workspace_janitor.Core.ActionKind.{ActionKind, risk_rank, safer, eq}
use workspace_janitor.Plan.Proposals.{Proposal, Tier, tier_rank}
use workspace_janitor.Plan.Rules.{
  Contest, clear_unused, conclude, contend, contest, default_retention, gate, require_destination,
}
use workspace_janitor.Plan.Rules.{evaluate}
use workspace_janitor.Plan.Rules.{consider}
use workspace_janitor.Plan.Rules.{finish}
use workspace_janitor.Plan.Rules.{resolve}
use workspace_janitor.Plan.Rules.{default_retention}
use workspace_janitor.Plan.Rules.{Policy}
use workspace_janitor.Plan.Rules.{Entry}
use workspace_janitor.Plan.Rules.{clear_unused}
use workspace_janitor.Plan.Rules.{Verdict}
use workspace_janitor.Plan.Rules.{Decision}
use workspace_janitor.Plan.Rules.{proposals}
use workspace_janitor.Plan.Rules.{gate}
use workspace_janitor.Plan.Rules.{require_destination}
use workspace_janitor.Plan.Rules.{classify}

-- The test by which a candidate takes the place of the winner.
abbrev beats : ActionKind → ActionKind → Bool
beats winner kind = eq (safer winner kind) kind && not (eq kind winner)

beats-safer :
    (winner kind : ActionKind) → beats winner kind ≡ true → risk_rank kind ≤ risk_rank winner
unfolding eq safer risk_rank
beats-safer winner kind h = ground arith

loses-riskier :
    (winner kind : ActionKind) → beats winner kind ≡ false → risk_rank winner ≤ risk_rank kind
unfolding eq safer risk_rank
loses-riskier winner kind h = ground arith

contend-safest :
    (c : Contest) (p : Proposal)
    → (risk_rank (contend c p).winner.kind ≤ risk_rank c.winner.kind)
      × (risk_rank (contend c p).winner.kind ≤ risk_rank p.kind)
unfolding contend
contend-safest c p = elim (Bool-cases (beats c.winner.kind p.kind)) [
  | inl h ↦ let r = beats-safer c.winner.kind p.kind h in rw h (r, ground arith)
  | inr h ↦
      let r = loses-riskier c.winner.kind p.kind h in rw h (ground (arith, r), ground (arith, r))
]

-- A candidate of the tier that asks for something safer than a kind.
unfoldable pub undercuts : Tier → ActionKind → Proposal → Bool
undercuts tier kind p =
    (tier_rank p.tier == tier_rank tier) && ltb (risk_rank p.kind) (risk_rank kind)

consider-safest :
    (tier : Tier) (c : Contest) (p : Proposal)
    → (risk_rank (consider tier c p).winner.kind ≤ risk_rank c.winner.kind)
      × (undercuts tier (consider tier c p).winner.kind p ≡ false)
unfolding consider undercuts
consider-safest tier c p =
    let here = contend-safest c p in
    elim (Bool-cases (tier_rank p.tier == tier_rank tier)) [
      | inl h ↦ rw h (here.0, ground (arith, here.1))
      | inr h ↦ rw h (ground arith, refl)
    ]

still_safe :
    (tier : Tier) (kind later : ActionKind) (p : Proposal)
    → risk_rank later ≤ risk_rank kind
    → undercuts tier kind p ≡ false
    → undercuts tier later p ≡ false
unfolding undercuts
still_safe tier kind later p l h = ground arith

contest-safest :
    (tier : Tier) (c : Contest) (ps : List Proposal)
    → (risk_rank (contest tier c ps).winner.kind ≤ risk_rank c.winner.kind)
      × (any (undercuts tier (contest tier c ps).winner.kind) ps ≡ false)
unfolding contest
contest-safest tier c [] = (ground arith, refl)
contest-safest tier c (p ∷ ps) =
    let here = consider-safest tier c p in
    let rest = contest-safest tier (consider tier c p) ps in
    let safe =
      still_safe tier _ (contest tier (consider tier c p) ps).winner.kind p rest.0 here.1 in
    (ground (arith, here.0, rest.0), rw safe rest.1)

self_safe : (q : Proposal) → undercuts q.tier q.kind q ≡ false
unfolding undercuts
self_safe q = ground arith

-- What follows the contest only lowers the risk.
finish-lowers :
    (p : Policy) (v : Verdict) (c : Contest)
    → risk_rank (finish p v c).kind ≤ risk_rank c.winner.kind
unfolding finish default_retention clear_unused gate require_destination conclude risk_rank
finish-lowers p v c = ground arith

any-still_safe :
    (tier : Tier) (kind later : ActionKind) (ps : List Proposal)
    → risk_rank later ≤ risk_rank kind
    → any (undercuts tier kind) ps ≡ false
    → any (undercuts tier later) ps ≡ false
any-still_safe tier kind later [] l h = refl
any-still_safe tier kind later (p ∷ ps) l h =
    let here = still_safe tier kind later p l (ground arith) in
    rw here (any-still_safe tier kind later ps l (ground arith))

-- The candidates of the first candidate's tier that ask for something safer than a kind.
unfoldable pub undercut : ActionKind → List Proposal → Bool
undercut kind [] = false
undercut kind (q ∷ qs) = any (undercuts q.tier kind) (q ∷ qs)

resolve-safest :
    (p : Policy) (v : Verdict) (d : Decision) (qs : List Proposal)
    → undercut (resolve p v d qs).kind qs ≡ false
unfolding resolve undercut
resolve-safest p v d [] = refl
resolve-safest p v d (q ∷ qs) =
    let c = contest q.tier (record { winner = q; decision = d }) qs in
    let safest = contest-safest q.tier (record { winner = q; decision = d }) qs in
    let lowered = finish-lowers p v c in
    let first =
      still_safe q.tier q.kind (finish p v c).kind q (ground (arith, safest.0, lowered))
        (self_safe q) in
    rw first (any-still_safe q.tier c.winner.kind (finish p v c).kind qs lowered safest.1)

-- For every entry, policy and verdict, no proposal in the tier of the first sorted proposal asks
-- for an action of lower risk rank than the action decided.
pub evaluate-safest :
    (e : Entry) (p : Policy) (v : Verdict)
    → undercut (evaluate e p v).kind (proposals e (classify e p) p v) ≡ false
unfolding evaluate
evaluate-safest e p v = resolve-safest p v _ _
