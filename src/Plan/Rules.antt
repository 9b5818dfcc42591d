-- ===== src/Plan/Rules.antt =====
-- internal/plan/rules.go: `Evaluate`, which resolves every proposal into one decision.
pub mod Gate
pub mod Safest
use workspace_janitor.Prelude.{
  ℕ, String, Bool, true, false, not, ◌&&◌, List, [], ◌∷◌, ◌++◌, ◌==◌, concat, is_empty,
  if◌then◌else◌,
}
use workspace_janitor.Core.ActionKind
use workspace_janitor.Core.ActionKind.{
  ActionKind, keep, relocate, quarantine, investigate, mutating, safer, eq,
}
use workspace_janitor.Core.Action.{RejectedAction, is_relocate}
use workspace_janitor.Core.ArtifactClass.{ArtifactClass, unknown_class}
use workspace_janitor.Core.Entry.{Entry}
use workspace_janitor.Core.Retention
use workspace_janitor.Core.Retention.{Retention, none_retention}
use workspace_janitor.Core.Verdict.{Verdict, refused, summary}
use workspace_janitor.Plan.Policy.{Policy}
use workspace_janitor.Plan.Classify.{Classification, classify}
use workspace_janitor.Plan.Proposals.{Proposal, Tier, tier_rank, tier_string, unset_retention}
use workspace_janitor.Plan.Proposals.Ordered.{proposals}

pub record Decision : Type 0 where
  pub class : ArtifactClass
  pub kind : ActionKind
  pub retention : Retention
  pub destination : String
  pub rules : List String
  pub reasons : List String
  pub rejected : List RejectedAction
  pub ambiguous : Bool
  pub conflicts : List RejectedAction

is_unknown : ArtifactClass → Bool
is_unknown unknown_class = true
is_unknown _ = false

abbrev rejection : ActionKind → String → List String → Bool → RejectedAction
rejection kind rule reason conflict = record {
  kind = kind;
  rule = rule;
  reason = concat reason;
  conflict = conflict;
}

start : Classification → Decision
unfolding is_unknown
start class = record {
  class = class.class;
  kind = investigate;
  retention = unset_retention;
  destination = "";
  rules = class.rule ∷ [];
  reasons = class.reason ∷ [];
  rejected = [];
  ambiguous = is_unknown class.class;
  conflicts = [];
}

-- The loop's state: the winner so far and the decision it has filled.
pub record Contest : Type 0 where
  pub winner : Proposal
  pub decision : Decision

conflict_with : Proposal → Proposal → RejectedAction
conflict_with loser better =
    rejection loser.kind loser.rule
      ("conflicting rule "
        ∷ better.rule
        ∷ " asked for the safer "
        ∷ ActionKind.to_string better.kind
        ∷ [])
      true

add_conflict : RejectedAction → Decision → Decision
add_conflict r d = record d { conflicts = d.conflicts ++ r ∷ [] }

credit : Proposal → Decision → Decision
credit p d = record d { rules = d.rules ++ p.rule ∷ []; reasons = d.reasons ++ p.reason ∷ [] }

-- One candidate of the winning tier against the winner.
unfoldable pub contend : Contest → Proposal → Contest
unfolding conflict_with add_conflict credit safer
contend c p =
    if eq (safer c.winner.kind p.kind) p.kind && not (eq p.kind c.winner.kind)
    then record { winner = p; decision = add_conflict (conflict_with c.winner p) c.decision }
    else if not (eq p.kind c.winner.kind)
    then record c { decision = add_conflict (conflict_with p c.winner) c.decision }
    else record c { decision = credit p c.decision }

-- A candidate of a later tier is recorded as a rejected alternative.
defer_to : Tier → Proposal → Decision → Decision
defer_to tier p d = record d {
  rejected =
      d.rejected
      ++ rejection p.kind p.rule (tier_string tier ∷ " tier decided first: " ∷ p.reason ∷ []) false
        ∷ [];
}

unfoldable pub consider : Tier → Contest → Proposal → Contest
unfolding contend defer_to
consider tier c p =
    if tier_rank p.tier == tier_rank tier
    then contend c p
    else record c { decision = defer_to tier p c.decision }

unfoldable pub contest : Tier → Contest → List Proposal → Contest
unfolding consider
contest tier c [] = c
contest tier c (p ∷ ps) = contest tier (consider tier c p) ps

conclude : Contest → Decision
conclude c =
    let d = c.decision in
    record d {
      kind = c.winner.kind;
      retention = c.winner.retention;
      destination = c.winner.destination;
      rules = d.rules ++ c.winner.rule ∷ [];
      reasons = d.reasons ++ c.winner.reason ∷ [];
      rejected = d.rejected ++ d.conflicts;
    }

require_destination : String → Decision → Decision
unfolding is_relocate
require_destination rule d =
    if is_relocate d.kind && is_empty d.destination
    then record d {
      rejected =
          d.rejected
          ++ rejection relocate rule ("no canonical destination is configured for this class" ∷ [])
              false
            ∷ [];
      kind = investigate;
    }
    else d

unfoldable pub gate : Verdict → Decision → Decision
gate v d =
    if mutating d.kind && refused v
    then record d {
      rejected =
          d.rejected
          ++ rejection d.kind "safety.refused"
              ("the safety engine refuses any mutation: " ∷ summary v ∷ []) false
            ∷ [];
      kind = keep;
      retention = none_retention;
      destination = "";
    }
    else d

clear_unused : Decision → Decision
unfolding is_relocate
clear_unused d = if mutating d.kind then d else record d {
  retention = none_retention;
  destination = if is_relocate d.kind then d.destination else "";
}

is_quarantine : ActionKind → Bool
is_quarantine quarantine = true
is_quarantine _ = false

default_retention : Policy → Decision → Decision
unfolding is_quarantine
default_retention p d =
    if is_quarantine d.kind && Retention.is_unset d.retention
    then record d { retention = p.default_retention }
    else d

unfoldable pub finish : Policy → Verdict → Contest → Decision
unfolding conclude require_destination clear_unused default_retention
finish p v c =
    default_retention p (clear_unused (gate v (require_destination c.winner.rule (conclude c))))

without_candidates : Decision → Decision
without_candidates d = record d {
  rules = d.rules ++ "fallback.no_rule" ∷ [];
  reasons = d.reasons ++ "no rule applied, so the path is left for review" ∷ [];
}

unfoldable pub resolve : Policy → Verdict → Decision → List Proposal → Decision
unfolding without_candidates
resolve p v d [] = without_candidates d
resolve p v d (q ∷ qs) = finish p v (contest q.tier (record { winner = q; decision = d }) qs)

unfoldable pub evaluate : Entry → Policy → Verdict → Decision
unfolding start
evaluate e p v = let class = classify e p in resolve p v (start class) (proposals e class p v)
