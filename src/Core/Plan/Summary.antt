-- ===== src/Core/Plan/Summary.antt =====
-- internal/core/plan.go: the counts of a plan's actions by kind.
use workspace_janitor.Prelude.{
  ℕ, suc, ◌+◌, String, ◌≡◌, refl, Bool, List, [], ◌∷◌, map, length, if◌then◌else◌, arith,
}
use workspace_janitor.Core.ActionKind.{ActionKind, action_kinds, mutating, eq}
use workspace_janitor.Core.Action.{Action}
use workspace_janitor.Core.Plan.{Plan}
use workspace_janitor.Core.Plan.{any}
use workspace_janitor.Prelude.{false}
use workspace_janitor.Core.ActionKind.{relocate}
use workspace_janitor.Core.ActionKind.{other_action}
use workspace_janitor.Core.ActionKind.{quarantine}
use workspace_janitor.Prelude.{true}
use workspace_janitor.Core.ActionKind.{delete_candidate}

pub record KindCount : Type 0 where
  pub kind : ActionKind
  pub count : ℕ

pub record PlanSummary : Type 0 where
  pub plan_id : String
  pub total : ℕ
  pub by_kind : List KindCount
  pub mutates : ℕ

-- `counts[kind]` after the loop.
unfoldable pub count_kind : ActionKind → List Action → ℕ
count_kind k [] = 0
count_kind k (a ∷ xs) = let n = count_kind k xs in if eq a.kind k then suc n else n

unfoldable pub count_mutating : List Action → ℕ
count_mutating [] = 0
count_mutating (a ∷ xs) = let n = count_mutating xs in if mutating a.kind then suc n else n

unfoldable pub summary : Plan → PlanSummary
unfolding count_kind count_mutating
summary p = record {
  plan_id = p.id;
  total = length p.actions;
  by_kind = map (λ k. record { kind = k; count = count_kind k p.actions }) action_kinds;
  mutates = count_mutating p.actions;
}

-- A kind that is none of the constants.
unfoldable pub unknown_kind : Action → Bool
unknown_kind a = elim a.kind [ other_action s ↦ true | _ ↦ false ]

unfoldable pub total_of : List KindCount → ℕ
total_of [] = 0
total_of (r ∷ rs) = r.count + total_of rs

kind_counts : List Action → List KindCount
kind_counts actions = map (λ k. record { kind = k; count = count_kind k actions }) action_kinds

sum_counts :
    (actions : List Action)
    → any unknown_kind actions ≡ false
    → (total_of (kind_counts actions) ≡ length actions)
      × (count_mutating actions
          ≡ count_kind relocate actions
            + (count_kind quarantine actions + count_kind delete_candidate actions))
unfolding kind_counts total_of action_kinds count_kind count_mutating mutating unknown_kind eq
sum_counts [] h = (refl, refl)
sum_counts (a ∷ xs) h =
    let (i, j) = sum_counts xs (ground (arith, h)) in (ground (arith, i), ground (arith, j))

-- For every plan whose actions all have one of the five kinds, the counts by kind of its summary add
-- up to the total, which is the number of actions, and the mutating actions counted are the
-- relocations, the quarantines and the deletion candidates.
pub summary-counts :
    (p : Plan)
    → any unknown_kind p.actions ≡ false
    → (total_of (summary p).by_kind ≡ (summary p).total)
      × ((summary p).total ≡ length p.actions)
      × ((summary p).mutates
          ≡ count_kind relocate p.actions
            + (count_kind quarantine p.actions + count_kind delete_candidate p.actions))
unfolding summary kind_counts
summary-counts p h = let (i, j) = sum_counts p.actions h in (i, refl, j)
