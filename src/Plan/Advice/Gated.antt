-- ===== src/Plan/Advice/Gated.antt =====
-- Advice on a decision that a refusing verdict has gated.
use workspace_janitor.Prelude.{[], ◌∷◌, String, ◌≡◌, false, ◌&&◌, concat, arith}
use workspace_janitor.Core.ActionKind.{mutating}
use workspace_janitor.Core.Entry.{Recommendation}
use workspace_janitor.Core.Verdict.{Verdict, refused, allows}
use workspace_janitor.Safety.Engine.{clamp_recommendation}
use workspace_janitor.Plan.Rules.{Decision}
use workspace_janitor.Plan.Advice.{
  Trace, apply_advice, fold_clamped, agree, adopt, reject, credit, relabel,
}

clamped-gated :
    (v : Verdict) (r : Recommendation)
    → (mutating (clamp_recommendation v r).action && refused v) ≡ false
unfolding clamp_recommendation allows mutating
clamped-gated v r = ground arith

fold_clamped-gated :
    (v : Verdict) (rule : String) (r : Recommendation) (dt : Decision × Trace)
    → (mutating r.action && refused v) ≡ false
    → (mutating dt.0.kind && refused v) ≡ false
    → (mutating (fold_clamped rule r dt).0.kind && refused v) ≡ false
unfolding fold_clamped agree adopt reject credit relabel
fold_clamped-gated v rule r (d, t) h k = ground (arith, h, k)

pub apply_advice-gated :
    (d : Decision) (t : Trace) (r : Recommendation) (v : Verdict) (advisor : String)
    → (mutating d.kind && refused v) ≡ false
    → (mutating (apply_advice d t r v advisor).0.kind && refused v) ≡ false
unfolding apply_advice reject
apply_advice-gated d t r v advisor h = ground (
  arith,
  h,
  fold_clamped-gated v (concat ("advisor:" ∷ advisor ∷ [])) (clamp_recommendation v r)
      (d, record t { advised_by = advisor }) (clamped-gated v r) h,
)
