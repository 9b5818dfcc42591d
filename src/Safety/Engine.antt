-- ===== src/Safety/Engine.antt =====
-- internal/safety/safety.go: the guards in registration order, the evaluation and the clamp.
pub mod Collect
pub mod Exact
pub mod Clamp
use workspace_janitor.Prelude.{
  String, ◌≡◌, refl, Bool, true, false, ◌&&◌, ◌||◌, List, [], ◌∷◌, ◌++◌, map, any, str_eq, concat,
  if◌then◌else◌, arith,
}
use workspace_janitor.Core.ActionKind
use workspace_janitor.Core.ActionKind.{investigate}
use workspace_janitor.Core.Retention.{none_retention}
use workspace_janitor.Core.ProtectionKind
use workspace_janitor.Core.Entry.{Protection, Recommendation}
use workspace_janitor.Core.Verdict.{Verdict, other_decision, normalize, allows, summary}
use workspace_janitor.Safety.Input.{Input, now_of}
use workspace_janitor.Safety.Guards.Observed.{
  guard_collected_protections, guard_unknown_evidence, guard_filesystem_identity, guard_git_state,
  with_remedy,
}
use workspace_janitor.Safety.Guards.Location.{
  guard_symlink_containment, guard_protected_paths, guard_sensitive_names, guard_live_databases,
  guard_durable_evidence, guard_job_ownership,
}
use workspace_janitor.Safety.Guards.Destination.{guard_quarantine_filesystem, guard_free_space}

pub record Guard : Type 0 where
  pub name : String
  pub check : Input → List Protection

unfoldable pub guards : List Guard
guards =
    record { name = "collected_protections"; check = guard_collected_protections }
    ∷ record { name = "unknown_evidence"; check = guard_unknown_evidence }
    ∷ record { name = "filesystem_identity"; check = guard_filesystem_identity }
    ∷ record { name = "git_state"; check = guard_git_state }
    ∷ record { name = "symlink_containment"; check = guard_symlink_containment }
    ∷ record { name = "protected_paths"; check = guard_protected_paths }
    ∷ record { name = "sensitive_names"; check = guard_sensitive_names }
    ∷ record { name = "live_databases"; check = guard_live_databases }
    ∷ record { name = "durable_evidence"; check = guard_durable_evidence }
    ∷ record { name = "job_ownership"; check = guard_job_ownership }
    ∷ record { name = "quarantine_filesystem"; check = guard_quarantine_filesystem }
    ∷ record { name = "free_space"; check = guard_free_space }
    ∷ []

unfoldable pub guard_names : List String
unfolding guards
guard_names = map (λ g. g.name) guards

unfoldable pub same_protection : Protection → Protection → Bool
same_protection p existing =
    str_eq (ProtectionKind.to_string existing.kind) (ProtectionKind.to_string p.kind)
    && str_eq existing.reason p.reason

unfoldable pub add_protection : List Protection → Protection → List Protection
unfolding same_protection
add_protection ps p = if any (same_protection p) ps then ps else ps ++ p ∷ []

unfoldable pub add_remedied : List Protection → List Protection → List Protection
unfolding with_remedy
add_remedied ps [] = ps
add_remedied ps (q ∷ qs) = add_remedied (add_protection ps (with_remedy q)) qs

unfoldable pub run_guards : Input → List Guard → List Protection → List Protection
run_guards i [] ps = ps
run_guards i (g ∷ gs) ps = run_guards i gs (add_remedied ps (g.check i))

unfoldable pub evaluate_with : Input → List Guard → Verdict
evaluate_with i active = normalize (record {
  version = 0;
  path = i.entry.path;
  decision = other_decision "";
  protections = run_guards i active [];
  guards = map (λ g. g.name) active;
  evaluated_at = now_of i;
})

unfoldable pub evaluate : Input → Verdict
unfolding evaluate_with
evaluate i = evaluate_with i guards

unfoldable pub clamp_recommendation : Verdict → Recommendation → Recommendation
clamp_recommendation v r = if allows v r.action then r else record r {
  action = investigate;
  retention = none_retention;
  reasons =
      r.reasons
      ++ concat ("safety engine refused " ∷ ActionKind.to_string r.action ∷ ": " ∷ summary v ∷ [])
        ∷ [];
}
