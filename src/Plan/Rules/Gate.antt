-- ===== src/Plan/Rules/Gate.antt =====
-- internal/plan/rules.go: the gate at the end of `Evaluate`.
use workspace_janitor.Prelude.{◌≡◌, refl, false, ◌&&◌, List, [], ◌∷◌, arith}
use workspace_janitor.Core.ActionKind.{mutating}
use workspace_janitor.Core.Entry.{Entry}
use workspace_janitor.Core.Verdict.{Verdict, refused}
use workspace_janitor.Plan.Policy.{Policy}
use workspace_janitor.Plan.Proposals.{Proposal}
use workspace_janitor.Plan.Rules.{
  Decision, Contest, resolve, finish, gate, clear_unused, default_retention, evaluate,
}

gated : (v : Verdict) (d : Decision) → (mutating (gate v d).kind && refused v) ≡ false
unfolding gate mutating
gated v d = ground arith

kind-clear_unused : (d : Decision) → (clear_unused d).kind ≡ d.kind
unfolding clear_unused
kind-clear_unused d = ground arith

kind-default_retention : (p : Policy) (d : Decision) → (default_retention p d).kind ≡ d.kind
unfolding default_retention
kind-default_retention p d = ground arith

finish-gated :
    (p : Policy) (v : Verdict) (c : Contest) → (mutating (finish p v c).kind && refused v) ≡ false
unfolding finish
finish-gated p v c = rw (kind-default_retention p _, kind-clear_unused _) (gated v _)

resolve-gated :
    (p : Policy) (v : Verdict) (d : Decision) (qs : List Proposal)
    → mutating d.kind ≡ false
    → (mutating (resolve p v d qs).kind && refused v) ≡ false
unfolding resolve
resolve-gated p v d [] h = rw h
resolve-gated p v d (q ∷ qs) h = finish-gated p v _

-- For every entry, policy and verdict, the decision of `Evaluate` is not a mutating action while
-- the verdict refuses.
pub evaluate-gated :
    (e : Entry) (p : Policy) (v : Verdict) → (mutating (evaluate e p v).kind && refused v) ≡ false
unfolding evaluate mutating
evaluate-gated e p v = resolve-gated p v _ _ refl
