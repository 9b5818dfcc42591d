-- ===== src/Plan/Build/Heard.antt =====
-- internal/plan/plan.go: the answers of an advisor that a plan takes up.
use workspace_janitor.Prelude.{
  ◌≡◌, refl, String, Bool, false, not, ◌||◌, Option, none, some, List, [], ◌∷◌, any, length, ◌==◌,
  Option-cases, inl, inr, arith,
}
use workspace_janitor.Core.Entry.{Entry, Recommendation, validate_recommendation, in_unit}
use workspace_janitor.Plan.Advice.{accept_answer}
use workspace_janitor.Plan.Digest.{advice_at}
use workspace_janitor.Plan.Build.{Advisor, advise, accepted, answered}

-- The confidence is not within [0,1], or the validation has failures.
unfoldable pub malformed : String × Recommendation → Bool
malformed (path, r) =
    not (in_unit r.confidence) || not (length (validate_recommendation "advisor" r) == 0)

accept_answer-formed :
    (path : String) (r s : Recommendation) → accept_answer r ≡ some s → malformed (path, s) ≡ false
unfolding accept_answer malformed
accept_answer-formed path r s h = ground arith

accepted-formed :
    (answers : List (String × Recommendation)) (es : List Entry)
    → any malformed (accepted answers es) ≡ false
unfolding accepted
accepted-formed answers [] = refl
accepted-formed answers (e ∷ es) = elim (Option-cases (advice_at e.path answers)) [
  | inl h ↦ ground (arith, accepted-formed answers es)
  | inr (r, h) ↦ elim (Option-cases (accept_answer r)) [
    | inl k ↦ ground (arith, accepted-formed answers es)
    | inr (s, k) ↦ ground (arith, accept_answer-formed e.path r s k, accepted-formed answers es)
  ]
]

answered-formed :
    (answers : Option (List (String × Recommendation))) (es : List Entry)
    → any malformed (answered answers es) ≡ false
unfolding answered
answered-formed none es = refl
answered-formed (some answers) es = accepted-formed answers es

-- For every advisor, or none, and all entries, whatever the advisor answers, each answer that the plan
-- takes up has a confidence within [0,1] and no validation failure.
pub advise-formed :
    (advisor : Option Advisor) (es : List Entry) → any malformed (advise advisor es) ≡ false
unfolding advise
advise-formed none es = refl
advise-formed (some a) [] = refl
advise-formed (some a) (e ∷ es) = answered-formed (a.classify (e ∷ es)) (e ∷ es)
