-- ===== src/Plan/Build/Bound.antt =====
-- A built plan is bound to what it was built from.
use text.Mathlib.TextPositions.{eq_refl}
use workspace_janitor.Prelude.{
  String, ◌≡◌, refl, Option, none, List, map, sort_by, str_lt, is_empty, Bool, Bool-cases, inl, inr,
  arith,
}
use workspace_janitor.Core.Entry.{Entry, Confidence}
use workspace_janitor.Core.Plan
use workspace_janitor.Core.Plan.{Plan}
use workspace_janitor.Plan.Policy.{Policy}
use workspace_janitor.Plan.Digest.{evidence_digest, policy_digest, verify_binding}
use workspace_janitor.Plan.Digest.Binding.{verify_binding_iff, evidence_text-sort_by}
use workspace_janitor.Plan.Build.{
  BuildInput, BuildResult, built, build, build_sorted, resolved, judge, draft_plan,
}
use workspace_janitor.Plan.Build.Gated.{checked_plan}

module _ (sha256_hex : String → String) (encode_policy : Policy → Option String)
    (format_g : Confidence → String) (i : BuildInput) where
  sorted_bound :
      (es : List Entry) (r : BuildResult)
      → build_sorted sha256_hex encode_policy format_g i es ≡ built r
      → (r.plan.scan_id ≡ i.scan_id)
        × (r.plan.evidence_digest ≡ evidence_digest sha256_hex es)
        × (r.plan.policy_digest ≡ policy_digest encode_policy sha256_hex i.policy)
  unfolding build_sorted resolved draft_plan Plan.normalize
  sorted_bound es r h =
      let raw = (resolved sha256_hex encode_policy format_g i es (map (judge i) es)).0 in
      rw (checked_plan (Plan.validate (Plan.normalize raw)) _ r h) (refl, refl, refl)

  -- If a plan is built, verifying its binding against the scan, the entries and the policy that it
  -- was built from finds no mismatch.
  pub build-bound :
      (r : BuildResult)
      → build sha256_hex encode_policy format_g i ≡ built r
      → verify_binding encode_policy sha256_hex r.plan i.scan_id i.entries i.policy ≡ none
  unfolding build evidence_digest
  build-bound r h = elim (Bool-cases (is_empty i.scan_id)) [
    | inl e ↦ ground (arith, e, h)
    | inr e ↦
        let less : Entry → Entry → Bool = λ a b. str_lt a.path b.path in
        let b = sorted_bound (sort_by less i.entries) r (ground (arith, e, h)) in
        (verify_binding_iff encode_policy sha256_hex r.plan i.scan_id i.entries i.policy).1 (
          rw b.0 (eq_refl i.scan_id),
          rw (b.1, evidence_text-sort_by i.entries) (eq_refl _),
          rw b.2 (eq_refl _),
        )
  ]
