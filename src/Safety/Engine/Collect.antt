-- ===== src/Safety/Engine/Collect.antt =====
-- internal/safety/safety.go: how the evaluation collects the guards' protections without duplicates.
use workspace_janitor.Prelude.{
  ◌≡◌, refl, ◌∙◌, Bool, true, false, not, ◌||◌, List, [], ◌∷◌, any, any-append, arith, Bool-cases,
  inl, inr,
}
use workspace_janitor.Core.Entry.{Protection, is_blocking}
use workspace_janitor.Core.Verdict.{refused}
use workspace_janitor.Core.Verdict.Gate.{refused-normalize}
use workspace_janitor.Safety.Input.{Input}
use workspace_janitor.Safety.Guards.Observed.{with_remedy}
use workspace_janitor.Safety.Engine.{
  Guard, add_protection, same_protection, add_remedied, run_guards, evaluate_with,
}

-- A protection that does not block.
abbrev pub is_idle : Protection → Bool
is_idle p = not p.blocking

blocking_when_any :
    (q : Protection → Bool) (ps : List Protection)
    → any is_idle ps ≡ false
    → any q ps ≡ true
    → any is_blocking ps ≡ true
blocking_when_any q [] h k = cc
blocking_when_any q (p ∷ ps) h k = ground (arith, blocking_when_any q ps)

pub any-add_protection :
    (ps : List Protection) (p : Protection)
    → any is_idle ps ≡ false
    → p.blocking ≡ true
    → (any is_blocking (add_protection ps p) ≡ true) × (any is_idle (add_protection ps p) ≡ false)
unfolding add_protection
any-add_protection ps p h b = elim (Bool-cases (any (same_protection p) ps)) [
  | inl e ↦ rw e (blocking_when_any (same_protection p) ps h e, h)
  | inr e ↦ rw e (
    ground (arith, any-append is_blocking ps (p ∷ [])),
    ground (arith, any-append is_idle ps (p ∷ [])),
  )
]

blocking-with_remedy : (p : Protection) → (with_remedy p).blocking ≡ p.blocking
unfolding with_remedy
blocking-with_remedy p = ground arith

pub any-add_remedied :
    (ps qs : List Protection)
    → any is_idle ps ≡ false
    → any is_idle qs ≡ false
    → (any is_blocking (add_remedied ps qs) ≡ (any is_blocking ps || any is_blocking qs))
      × (any is_idle (add_remedied ps qs) ≡ false)
unfolding add_remedied
any-add_remedied ps [] h k = (ground arith, h)
any-add_remedied ps (q ∷ qs) h k =
    let added = any-add_protection ps (with_remedy q) h (blocking-with_remedy q ∙ ground arith) in
    let rest = any-add_remedied (add_protection ps (with_remedy q)) qs added.1 (ground arith) in
    (ground (arith, rest.0, added.0), rest.1)

-- A guard set that only blocks, on one input.
abbrev pub OnlyBlocks : Input → List Guard → Type 0
OnlyBlocks i [] = Unit {0}
OnlyBlocks i (g ∷ gs) = (any is_idle (g.check i) ≡ false) × OnlyBlocks i gs

abbrev pub reports : Input → Guard → Bool
reports i g = any is_blocking (g.check i)

pub any-run_guards :
    (i : Input) (gs : List Guard) (ps : List Protection)
    → OnlyBlocks i gs
    → any is_idle ps ≡ false
    → any is_blocking (run_guards i gs ps) ≡ (any is_blocking ps || any (reports i) gs)
unfolding run_guards
any-run_guards i [] ps o h = ground arith
any-run_guards i (g ∷ gs) ps o h =
    let added = any-add_remedied ps (g.check i) h o.0 in
    any-run_guards i gs (add_remedied ps (g.check i)) o.1 added.1 ∙ ground (arith, added.0)

pub idle-run_guards :
    (i : Input) (gs : List Guard) (ps : List Protection)
    → OnlyBlocks i gs
    → any is_idle ps ≡ false
    → any is_idle (run_guards i gs ps) ≡ false
unfolding run_guards
idle-run_guards i [] ps o h = h
idle-run_guards i (g ∷ gs) ps o h =
    idle-run_guards i gs (add_remedied ps (g.check i)) o.1 (any-add_remedied ps (g.check i) h o.0).1

-- Any set of guards that only block refuses exactly when one of them reports.
pub refused-evaluate_with :
    (i : Input) (active : List Guard)
    → OnlyBlocks i active
    → refused (evaluate_with i active) ≡ any (reports i) active
unfolding evaluate_with
refused-evaluate_with i active o = refused-normalize _ ∙ any-run_guards i active [] o refl
