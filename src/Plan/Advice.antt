-- ===== src/Plan/Advice.antt =====
-- internal/plan/plan.go: what an advisor's answer may do to a decision.
pub mod Gated
use workspace_janitor.Prelude.{
  ◌≤◌, ◌≡◌, String, Bool, true, false, not, ◌&&◌, ◌||◌, List, [], ◌∷◌, ◌++◌, concat, join, leb,
  if◌then◌else◌, arith, length, ◌==◌, Option, none, some,
}
use workspace_janitor.Prelude.Int.{pos}
use workspace_janitor.Core.ActionKind
use workspace_janitor.Core.ActionKind.{
  ActionKind, keep, quarantine, investigate, mutating, risk_rank, eq,
}
use workspace_janitor.Core.Action.{RejectedAction}
use workspace_janitor.Core.ArtifactClass
use workspace_janitor.Core.ArtifactClass.{ArtifactClass, unknown_class}
use workspace_janitor.Core.Entry.{
  Confidence, thousandths, Recommendation, validate_recommendation, in_unit,
}
use workspace_janitor.Core.Retention
use workspace_janitor.Core.Retention.{none_retention}
use workspace_janitor.Core.Verdict.{Verdict}
use workspace_janitor.Safety.Engine.{clamp_recommendation}
use workspace_janitor.Plan.Rules.{Decision}

pub record Trace : Type 0 where
  pub path : String
  pub class : ArtifactClass
  pub action : ActionKind
  pub rules : List String
  pub reasons : List String
  pub rejected : List RejectedAction
  pub ambiguous : Bool
  pub advised_by : String
  pub fingerprint : String

unfoldable pub join_reasons : List String → String
unfolding join
join_reasons [] = "the advisor gave no reason"
join_reasons rs = join "; " rs

-- An omitted retention is none; any other malformed answer is dropped.
complete : Recommendation → Recommendation
complete r = record r {
  retention = if Retention.is_unset r.retention then none_retention else r.retention;
}

unfoldable pub accept_answer : Recommendation → Option Recommendation
unfolding complete
accept_answer r =
    if not (in_unit (complete r).confidence)
      || not (length (validate_recommendation "advisor" (complete r)) == 0)
    then none
    else some (complete r)

advisable : ActionKind → Bool
advisable keep = true
advisable quarantine = true
advisable investigate = true
advisable _ = false

is_unknown : ArtifactClass → Bool
is_unknown unknown_class = true
is_unknown _ = false

-- A proposal that is not taken: recorded in the trace, and the decision shows the trace's list.
reject : ActionKind → String → String → Decision × Trace → Decision × Trace
reject kind rule reason (d, t) =
    let rejected =
      t.rejected ++ record { kind = kind; rule = rule; reason = reason; conflict = false } ∷ [] in
    (record d { rejected = rejected }, record t { rejected = rejected })

credit : String → Recommendation → Decision × Trace → Decision × Trace
unfolding join_reasons
credit rule r (d, t) =
    let rules = d.rules ++ rule ∷ [] in
    let reasons = d.reasons ++ join_reasons r.reasons ∷ [] in
    (record d { rules = rules; reasons = reasons }, record t { rules = rules; reasons = reasons })

relabel : ArtifactClass → Decision × Trace → Decision × Trace
relabel class (d, t) = (record d { class = class }, record t { class = class })

-- The advisor agrees with the rules: its reason is added, and its class where it has one.
agree : String → Recommendation → Decision × Trace → Decision × Trace
unfolding relabel credit is_unknown
agree rule r dt =
    if ArtifactClass.valid r.class && not (is_unknown r.class)
    then credit rule r (relabel r.class dt)
    else credit rule r dt

adopt : String → Recommendation → Decision × Trace → Decision × Trace
unfolding reject credit relabel
adopt rule r dt =
    let shown =
      reject dt.0.kind "builtin.unknown"
        (concat ("the advisor proposed the safer " ∷ ActionKind.to_string r.action ∷ [])) dt in
    credit rule r
      (relabel r.class (record shown.0 { kind = r.action; retention = r.retention }, shown.1))

fold_clamped : String → Recommendation → Decision × Trace → Decision × Trace
unfolding agree adopt reject
fold_clamped rule r dt =
    if eq r.action dt.0.kind
    then agree rule r dt
    else if leb (risk_rank dt.0.kind) (risk_rank r.action)
    then reject r.action rule
        (concat (
          "the advisor proposed "
          ∷ ActionKind.to_string r.action
          ∷ ", which is not safer than the rules' "
          ∷ ActionKind.to_string dt.0.kind
          ∷ ": "
          ∷ join_reasons r.reasons
          ∷ []))
        dt
    else adopt rule r dt

unfoldable pub apply_advice :
    Decision → Trace → Recommendation → Verdict → String → Decision × Trace
unfolding advisable reject fold_clamped clamp_recommendation
apply_advice d t r v advisor =
    let rule = concat ("advisor:" ∷ advisor ∷ []) in
    let dt : Decision × Trace = (d, record t { advised_by = advisor }) in
    if advisable r.action
    then fold_clamped rule (clamp_recommendation v r) dt
    else reject r.action rule "advisor actions are limited to keep, quarantine, and investigate" dt

-- Confidence levels of the planner.
unfoldable pub confidence_for : Decision → Confidence
confidence_for d =
    if d.ambiguous
    then thousandths (pos 300)
    else if not (length d.conflicts == 0)
    then thousandths (pos 600)
    else thousandths (pos 900)

fold_clamped-lowers :
    (rule : String) (r : Recommendation) (dt : Decision × Trace)
    → risk_rank (fold_clamped rule r dt).0.kind ≤ risk_rank dt.0.kind
unfolding fold_clamped agree adopt reject credit relabel
fold_clamped-lowers rule r (d, t) = ground arith

-- For every decision, trace, recommendation, verdict and advisor, the action after applying the
-- advice has at most the risk rank of the action before.
pub apply_advice-lowers :
    (d : Decision) (t : Trace) (r : Recommendation) (v : Verdict) (advisor : String)
    → risk_rank (apply_advice d t r v advisor).0.kind ≤ risk_rank d.kind
unfolding apply_advice reject
apply_advice-lowers d t r v advisor = ground (
  arith,
  fold_clamped-lowers (concat ("advisor:" ∷ advisor ∷ [])) (clamp_recommendation v r)
      (d, record t { advised_by = advisor }),
)
