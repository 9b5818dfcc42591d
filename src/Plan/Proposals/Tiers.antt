-- ===== src/Plan/Proposals/Tiers.antt =====
-- internal/plan/rules.go: the tier of the first proposal.
use workspace_janitor.Prelude.{◌≡◌, ◌≤◌, true, false, lowest_first, lowest_first-sort_by, arith}
use workspace_janitor.Core.Entry.{Entry}
use workspace_janitor.Core.Verdict.{Verdict}
use workspace_janitor.Plan.Classify.{Classification}
use workspace_janitor.Plan.Policy.{Policy}
use workspace_janitor.Plan.Proposals.{Proposal, tier_rank}
use workspace_janitor.Plan.Proposals.Ordered.{proposals, gathered, proposal_less}
use workspace_janitor.Plan.Proposals.{ℕ}

abbrev pub rank_of : Proposal → ℕ
rank_of p = tier_rank p.tier

less-up : (a b : Proposal) → proposal_less a b ≡ true → rank_of a ≤ rank_of b
unfolding proposal_less
less-up a b h = ground arith

less-down : (a b : Proposal) → proposal_less a b ≡ false → rank_of b ≤ rank_of a
unfolding proposal_less
less-down a b h = ground arith

-- For every entry, class, policy and verdict, no proposal is of a lower tier than the first of the
-- sorted proposals, by whose tier the decision is made.
pub proposals-lowest_first :
    (e : Entry) (c : Classification) (p : Policy) (v : Verdict)
    → lowest_first proposal_less rank_of (proposals e c p v) ≡ true
unfolding proposals
proposals-lowest_first e c p v =
    lowest_first-sort_by proposal_less rank_of (gathered e c p v) less-up less-down
