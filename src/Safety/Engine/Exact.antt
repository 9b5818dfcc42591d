-- ===== src/Safety/Engine/Exact.antt =====
-- internal/safety/safety.go: the registered guards together, compared with the reading of Safety/Risk.
use workspace_janitor.Prelude.{[], any-sort_by, ◌≡◌, refl, ◌∙◌, Bool, ◌||◌, false, any, arith}
use workspace_janitor.Core.Entry.{is_blocking}
use workspace_janitor.Safety.Guards.Destination.{guard_quarantine_filesystem, guard_free_space}
use workspace_janitor.Core.Verdict.{protection_less, normalize, refused}
use workspace_janitor.Safety.Input.{Input}
use workspace_janitor.Safety.Risk.{unsafe}
use workspace_janitor.Safety.Guards.Observed.Exact.{
  guard_collected_protections_exact, guard_unknown_evidence_exact, guard_filesystem_identity_exact,
  guard_git_state_exact, observed_guards_block,
}
use workspace_janitor.Safety.Guards.Location.Exact.{
  guard_symlink_containment_exact, guard_protected_paths_exact, guard_sensitive_names_exact,
  guard_live_databases_exact, guard_durable_evidence_exact, guard_job_ownership_exact,
  location_guards_block,
}
use workspace_janitor.Safety.Guards.Destination.Exact.{
  destination_guards_exact, destination_guards_block,
}
use workspace_janitor.Safety.Engine.{run_guards, guards, evaluate}
use workspace_janitor.Safety.Engine.Collect.{
  is_idle, any-run_guards, idle-run_guards, OnlyBlocks, reports, refused-evaluate_with,
}
use workspace_janitor.Safety.Engine.{evaluate_with}

guards_block : (i : Input) → OnlyBlocks i guards
unfolding guards
guards_block i =
    let o = observed_guards_block i in
    let l = location_guards_block i in
    let d = destination_guards_block i in
    (o.0, (o.1, (o.2, (o.3, (l.0, (l.1, (l.2, (l.3, (l.4, (l.5, (d.0, (d.1, tt))))))))))))

or_end : (a b : Bool) → (a || (b || false)) ≡ (a || b)
or_end a b = ground arith

reports-guards : (i : Input) → any (reports i) guards ≡ unsafe i
unfolding guards unsafe
reports-guards i = rw (
  guard_collected_protections_exact i,
  guard_unknown_evidence_exact i,
  guard_filesystem_identity_exact i,
  guard_git_state_exact i,
  guard_symlink_containment_exact i,
  guard_protected_paths_exact i,
  guard_sensitive_names_exact i,
  guard_live_databases_exact i,
  guard_durable_evidence_exact i,
  guard_job_ownership_exact i,
  or_end (any is_blocking (guard_quarantine_filesystem i)) (any is_blocking (guard_free_space i)),
  destination_guards_exact i,
)

-- For every input, the verdict of the evaluation refuses exactly when the independent reading
-- `unsafe` of the input finds a risk.
pub refused-evaluate : (i : Input) → refused (evaluate i) ≡ unsafe i
unfolding evaluate
refused-evaluate i = refused-evaluate_with i guards (guards_block i) ∙ reports-guards i

-- Every protection of a verdict blocks.
pub idle-evaluate : (i : Input) → any is_idle (evaluate i).protections ≡ false
unfolding evaluate evaluate_with normalize
idle-evaluate i =
    any-sort_by protection_less is_idle (run_guards i guards [])
    ∙ idle-run_guards i guards [] (guards_block i) refl

pub blocking-evaluate : (i : Input) → any is_blocking (evaluate i).protections ≡ unsafe i
unfolding evaluate evaluate_with normalize
blocking-evaluate i =
    any-sort_by protection_less is_blocking (run_guards i guards [])
    ∙ any-run_guards i guards [] (guards_block i) refl
    ∙ reports-guards i
