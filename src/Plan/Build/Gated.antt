-- ===== src/Plan/Build/Gated.antt =====
-- The actions of a built plan against the verdicts on the entries they are about.
use text.Mathlib.TextPositions.{eq_refl}
use workspace_janitor.Core.Retention.{Time}
use workspace_janitor.Prelude.Tests.{||_true_right}
use workspace_janitor.Plan.Collisions.{downgrade}
use workspace_janitor.Core.Plan.{stamp}
use workspace_janitor.Core.Action.{normalize_action}
use workspace_janitor.Plan.Collisions.Keeps.{resolve-All}
use workspace_janitor.Core.Plan
use workspace_janitor.Core.Plan.{Plan, action_less}
use workspace_janitor.Plan.Policy.{Policy}
use workspace_janitor.Core.Errors.{FieldErrors}
use workspace_janitor.Plan.Build.{
  BuildResult, built, build, build_sorted, checked, resolved, build_time,
}
use workspace_janitor.Prelude.{
  is_empty, All-map_of, sym, sym, if◌then◌else◌, refl, String, ◌≡◌, Bool, true, false, not, ◌&&◌,
  Option, none, some, List, [], ◌∷◌, map, any, All, any-sort_by, sort_by, str_lt, str_eq,
  Bool-cases, inl, inr, arith,
}
use workspace_janitor.Prelude.Sort.{All-sort_by}
use workspace_janitor.Core.ActionKind.{mutating}
use workspace_janitor.Core.Entry.{Entry, Recommendation, Confidence}
use workspace_janitor.Core.Action.{Action}
use workspace_janitor.Core.Verdict.{refused}
use workspace_janitor.Safety.Engine.{evaluate}
use workspace_janitor.Plan.Rules.{Decision}
use workspace_janitor.Plan.Rules.Gate.{evaluate-gated}
use workspace_janitor.Plan.Advice.{Trace}
use workspace_janitor.Plan.Advice.Gated.{apply_advice-gated}
use workspace_janitor.Plan.Digest.{advice_at}
use workspace_janitor.Plan.Build.{
  BuildInput, advised_with, with_confidence, Judged, judge, safety_input, advised, trace_of,
  action_of, actions_of,
}
use workspace_janitor.Prelude.{All-map}

-- The entry has the action's path, and no verdict refuses it while the action mutates.
unfoldable pub backs : BuildInput → Action → Entry → Bool
backs i a e = str_eq e.path a.path && not (mutating a.kind && refused (evaluate (safety_input i e)))

if-gated :
    (b refusing : Bool) (x y : Decision × Trace × Confidence)
    → (mutating x.0.kind && refusing) ≡ false
    → (mutating y.0.kind && refusing) ≡ false
    → (mutating (if b then x else y).0.kind && refusing) ≡ false
if-gated true refusing x y h k = h
if-gated false refusing x y h k = k

advised_with-gated :
    (advisor : String) (j : Judged) (o : Option Recommendation)
    → (mutating j.decision.kind && refused j.verdict) ≡ false
    → (mutating (advised_with advisor j o).0.kind && refused j.verdict) ≡ false
unfolding advised_with with_confidence
advised_with-gated advisor j none h = h
advised_with-gated advisor j (some r) h =
    if-gated (not j.decision.ambiguous) (refused j.verdict) _ _ h
      (apply_advice-gated j.decision (trace_of j) r j.verdict advisor h)

advised-gated :
    (advisor : String) (advice : List (String × Recommendation)) (j : Judged)
    → (mutating j.decision.kind && refused j.verdict) ≡ false
    → (mutating (advised advisor advice j).0.kind && refused j.verdict) ≡ false
unfolding advised
advised-gated advisor advice j h = advised_with-gated advisor j (advice_at j.entry.path advice) h

pub checked_plan : (o : Option FieldErrors) (r s : BuildResult) → checked o r ≡ built s → s ≡ r
unfolding checked
checked_plan none r s h = cc
checked_plan (some errs) r s h = cc

module _ (i : BuildInput) where
  -- Some entry of the list backs the action.
  Backed : List Entry → Action → Type 0
  Backed es a = any (backs i a) es ≡ true

  by_first : (a : Action) (e : Entry) (es : List Entry) → backs i a e ≡ true → Backed (e ∷ es) a
  unfolding Backed
  by_first a e es h = rw h refl

  by_later : (a : Action) (e : Entry) (es : List Entry) → Backed es a → Backed (e ∷ es) a
  unfolding Backed
  by_later a e es h = rw h (||_true_right (backs i a e))

  module _ (sha256_hex : String → String) where
    judged-backs :
        (plan : String) (now : Time) (advisor : String) (advice : List (String × Recommendation))
        (e : Entry)
        → backs i (action_of sha256_hex plan now (judge i e) (advised advisor advice (judge i e))) e
          ≡ true
    unfolding backs action_of judge
    judged-backs plan now advisor advice e =
        let v = evaluate (safety_input i e) in
        let g = advised-gated advisor advice (judge i e) (evaluate-gated e i.policy v) in
        ground (arith, eq_refl e.path, g)

    actions-Backed :
        (plan : String) (now : Time) (advisor : String) (advice : List (String × Recommendation))
        (all es : List Entry)
        → ((a : Action) → Backed es a → Backed all a)
        → All (Backed all) (actions_of sha256_hex plan now advisor advice (map (judge i) es))
    unfolding actions_of
    actions-Backed plan now advisor advice all [] sub = tt
    actions-Backed plan now advisor advice all (e ∷ es) sub = (
      sub _ (by_first _ e es (judged-backs plan now advisor advice e)),
      actions-Backed plan now advisor advice all es (λ a h. sub a (by_later a e es h)),
    )

  downgrade-Backed :
      (es : List Entry) (reason : String) (a : Action)
      → Backed es a
      → Backed es (downgrade reason a)
  unfolding Backed backs downgrade mutating
  downgrade-Backed [] reason a h = h
  downgrade-Backed (e ∷ es) reason a h = elim (Bool-cases (any (backs i a) es)) [
    | inl k ↦ rw (downgrade-Backed es reason a k) (||_true_right _)
    | inr k ↦ ground (arith, h, k)
  ]

  stamp-Backed :
      (es : List Entry) (plan : String) (a : Action) → Backed es a → Backed es (stamp plan a)
  unfolding Backed backs stamp normalize_action
  stamp-Backed es plan a h = h

  sorted-Backed :
      (less : Entry → Entry → Bool) (es : List Entry) (a : Action)
      → Backed (sort_by less es) a
      → Backed es a
  unfolding Backed
  sorted-Backed less es a h = rw (sym (any-sort_by less (backs i a) es)) h

  module _ (sha256_hex : String → String) (encode_policy : Policy → Option String)
      (format_g : Confidence → String) where
    resolved-Backed :
        (es : List Entry)
        → All
            (Backed es)
            (resolved sha256_hex encode_policy format_g i es (map (judge i) es)).0.actions
    unfolding resolved
    resolved-Backed es =
        resolve-All (Backed es) (downgrade-Backed es) (map (λ e. e.path) es) _ _
          (actions-Backed sha256_hex _ (build_time i) _ _ es es (λ a h. h))

    normal-Backed :
        (es : List Entry) (p : Plan)
        → All (Backed es) p.actions
        → All (Backed es) (Plan.normalize p).actions
    unfolding Plan.normalize
    normal-Backed es p h =
        All-sort_by action_less (Backed es) (map (stamp p.id) p.actions)
          (All-map (Backed es) (stamp p.id) p.actions (stamp-Backed es p.id) h)

    sorted-gated :
        (es : List Entry) (r : BuildResult)
        → build_sorted sha256_hex encode_policy format_g i es ≡ built r
        → All (Backed es) r.plan.actions
    unfolding build_sorted
    sorted-gated es r h =
        let raw = (resolved sha256_hex encode_policy format_g i es (map (judge i) es)).0 in
        rw (checked_plan (Plan.validate (Plan.normalize raw)) _ r h)
          (normal-Backed es raw (resolved-Backed es))

-- If a plan is built, each of its actions has the path of one of the input's entries, and either the
-- safety verdict on that entry does not refuse or the action is not a mutating one.
pub build-gated :
    (sha256_hex : String → String) (encode_policy : Policy → Option String)
    (format_g : Confidence → String) (i : BuildInput) (r : BuildResult)
    → build sha256_hex encode_policy format_g i ≡ built r
    → All (λ a. any (backs i a) i.entries ≡ true) r.plan.actions
unfolding build Backed
build-gated sha256_hex encode_policy format_g i r h = elim (Bool-cases (is_empty i.scan_id)) [
  | inl e ↦ ground (arith, e, h)
  | inr e ↦
      let less : Entry → Entry → Bool = λ a b. str_lt a.path b.path in
      All-map_of r.plan.actions (sorted-Backed i less i.entries) (
        sorted-gated i sha256_hex encode_policy format_g (sort_by less i.entries) r
          (ground (arith, e, h)))
]
