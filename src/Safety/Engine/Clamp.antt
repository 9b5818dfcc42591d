-- ===== src/Safety/Engine/Clamp.antt =====
-- internal/safety/safety.go: the clamp of a recommendation, and a policy with further protections.
use workspace_janitor.Prelude.Filepath.{base}
use workspace_janitor.Safety.Guards.Destination.{required_bytes}
use workspace_janitor.Prelude.{
  ◌∙◌, sym, Option, none, some, ◌≤◌, ◌≡◌, refl, true, ◌++◌, List, arith, any-append, String,
}
use workspace_janitor.Core.ActionKind.{mutating, risk_rank}
use workspace_janitor.Core.Entry.{Recommendation}
use workspace_janitor.Core.Verdict.{Verdict, refused, allows}
use workspace_janitor.Safety.Input.{Input, Target}
use workspace_janitor.Safety.Risk.{unsafe, target_risk, overlap_risk, name_risk}
use workspace_janitor.Safety.Engine.{clamp_recommendation, evaluate}
use workspace_janitor.Safety.Engine.Exact.{refused-evaluate}
use workspace_janitor.Safety.Risk.{location_risk}

-- For every verdict and recommendation, the action that the clamp returns is allowed by the verdict
-- and has at most the risk rank of the action proposed.
pub clamp_recommendation-safe :
    (v : Verdict) (r : Recommendation)
    → (allows v (clamp_recommendation v r).action ≡ true)
      × (risk_rank (clamp_recommendation v r).action ≤ risk_rank r.action)
unfolding clamp_recommendation allows mutating risk_rank
clamp_recommendation-safe v r = (ground arith, ground arith)

-- The same input under a policy with further protected paths and name patterns.
abbrev pub stricter : Input → List String → List String → Input
stricter i paths patterns = record i {
  policy = record (i.policy) {
    protected_paths = paths ++ i.policy.protected_paths;
    name_patterns = patterns ++ i.policy.name_patterns;
  };
}

target_risk-stricter :
    (i : Input) (paths patterns : List String) (t : Option Target)
    → target_risk (stricter i paths patterns) t ≡ target_risk i t
unfolding target_risk required_bytes
target_risk-stricter i paths patterns none = refl
target_risk-stricter i paths patterns (some t) = refl

unsafe-stricter :
    (i : Input) (paths patterns : List String)
    → unsafe i ≡ true
    → unsafe (stricter i paths patterns) ≡ true
unfolding unsafe location_risk
unsafe-stricter i paths patterns h =
    let f = overlap_risk i.entry.path in
    ground (
      arith,
      any-append f paths i.policy.protected_paths,
      any-append (name_risk (base i.entry.path)) patterns i.policy.name_patterns,
      target_risk-stricter i paths patterns i.target,
    )

-- If an input is refused, then it is still refused under the same policy with any further protected
-- paths and name patterns put in front.
pub policy_only_adds :
    (i : Input) (paths patterns : List String)
    → refused (evaluate i) ≡ true
    → refused (evaluate (stricter i paths patterns)) ≡ true
policy_only_adds i paths patterns h =
    refused-evaluate (stricter i paths patterns)
    ∙ unsafe-stricter i paths patterns (sym (refused-evaluate i) ∙ h)
