-- ===== src/Safety/Guards/Location/Exact.antt =====
-- internal/safety/guards.go: the guards on the path, the name and the owners against Safety/Risk.
use workspace_janitor.Prelude.{
  String, ◌≡◌, refl, ◌∙◌, Bool, true, false, Option, none, some, List, [], ◌∷◌, ◌++◌, any, arith,
  any-append,
}
use workspace_janitor.Prelude.Filepath.{base}
use workspace_janitor.Prelude.Match.{match_path}
use workspace_janitor.Core.Entry.{is_blocking}
use workspace_janitor.Safety.Input.{Input, JobRef, protect}
use workspace_janitor.Safety.Risk.{
  symlink_risk, overlap_risk, location_risk, name_risk, database_risk, evidence_risk, job_risk,
}
use workspace_janitor.Safety.Guards.Location.{
  guard_symlink_containment, guard_protected_paths, guard_sensitive_names, guard_live_databases,
  guard_durable_evidence, guard_job_ownership, protected_locations, own_dirs, overlapping,
  name_protection, sensitive, owned,
}
use workspace_janitor.Core.Entry.{Protection}
use workspace_janitor.Prelude.{not}

-- A protection that does not block.
abbrev is_idle : Protection → Bool
is_idle p = not p.blocking

pub guard_symlink_containment_exact :
    (i : Input) → any is_blocking (guard_symlink_containment i) ≡ symlink_risk i.entry.kind i.entry
unfolding guard_symlink_containment symlink_risk protect
guard_symlink_containment_exact i = ground arith

any-overlapping :
    (path : String) (cs : List String)
    → any is_blocking (overlapping path cs) ≡ any (overlap_risk path) cs
unfolding overlapping overlap_risk protect
any-overlapping path [] = refl
any-overlapping path (c ∷ cs) = ground (arith, any-overlapping path cs)

pub guard_protected_paths_exact :
    (i : Input) → any is_blocking (guard_protected_paths i) ≡ location_risk i.entry.path i.policy
unfolding guard_protected_paths protected_locations location_risk own_dirs overlap_risk
guard_protected_paths_exact i =
    let f = overlap_risk i.entry.path in
    let own = own_dirs (i.policy.state_dir ∷ i.policy.quarantine_dir ∷ []) in
    any-overlapping i.entry.path (i.policy.protected_paths ++ own)
    ∙ ground (arith, any-append f i.policy.protected_paths own)

any-name_protection :
    (name pattern : String) (m : Option Bool)
    → any is_blocking (name_protection name pattern m) ≡ elim m [ none ↦ true | some hit ↦ hit ]
unfolding name_protection protect
any-name_protection name pattern none = refl
any-name_protection name pattern (some true) = refl
any-name_protection name pattern (some false) = refl

any-sensitive :
    (name : String) (ps : List String)
    → any is_blocking (sensitive name ps) ≡ any (name_risk name) ps
unfolding sensitive name_risk
any-sensitive name [] = refl
any-sensitive name (p ∷ ps) =
    any-append is_blocking (name_protection name p (match_path p name)) (sensitive name ps)
    ∙ ground (arith, any-name_protection name p (match_path p name), any-sensitive name ps)

pub guard_sensitive_names_exact :
    (i : Input)
    → any is_blocking (guard_sensitive_names i)
      ≡ any (name_risk (base i.entry.path)) i.policy.name_patterns
unfolding guard_sensitive_names
guard_sensitive_names_exact i = any-sensitive (base i.entry.path) i.policy.name_patterns

pub guard_live_databases_exact :
    (i : Input) → any is_blocking (guard_live_databases i) ≡ database_risk i.entry.kind i.entry
unfolding guard_live_databases database_risk protect
guard_live_databases_exact i = ground arith

pub guard_durable_evidence_exact :
    (i : Input) → any is_blocking (guard_durable_evidence i) ≡ evidence_risk i.entry.class
unfolding guard_durable_evidence evidence_risk protect
guard_durable_evidence_exact i = ground arith

any-owned :
    (path : String) (js : List JobRef) → any is_blocking (owned path js) ≡ any (job_risk path) js
unfolding owned job_risk protect
any-owned path [] = refl
any-owned path (j ∷ js) = ground (arith, any-owned path js)

pub guard_job_ownership_exact :
    (i : Input) → any is_blocking (guard_job_ownership i) ≡ any (job_risk i.entry.path) i.jobs
unfolding guard_job_ownership
guard_job_ownership_exact i = any-owned i.entry.path i.jobs

overlapping_blocks : (path : String) (cs : List String) → any is_idle (overlapping path cs) ≡ false
unfolding overlapping protect
overlapping_blocks path [] = refl
overlapping_blocks path (c ∷ cs) = ground (arith, overlapping_blocks path cs)

name_protection_blocks :
    (name pattern : String) (m : Option Bool) → any is_idle (name_protection name pattern m) ≡ false
unfolding name_protection protect
name_protection_blocks name pattern none = refl
name_protection_blocks name pattern (some true) = refl
name_protection_blocks name pattern (some false) = refl

sensitive_blocks : (name : String) (ps : List String) → any is_idle (sensitive name ps) ≡ false
unfolding sensitive
sensitive_blocks name [] = refl
sensitive_blocks name (p ∷ ps) =
    any-append is_idle (name_protection name p (match_path p name)) (sensitive name ps)
    ∙ ground (arith, name_protection_blocks name p (match_path p name), sensitive_blocks name ps)

owned_blocks : (path : String) (js : List JobRef) → any is_idle (owned path js) ≡ false
unfolding owned protect
owned_blocks path [] = refl
owned_blocks path (j ∷ js) = ground (arith, owned_blocks path js)

-- None of these guards reports a protection that does not block.
pub location_guards_block :
    (i : Input)
    → (any is_idle (guard_symlink_containment i) ≡ false)
      × (any is_idle (guard_protected_paths i) ≡ false)
      × (any is_idle (guard_sensitive_names i) ≡ false)
      × (any is_idle (guard_live_databases i) ≡ false)
      × (any is_idle (guard_durable_evidence i) ≡ false)
      × (any is_idle (guard_job_ownership i) ≡ false)
unfolding guard_symlink_containment guard_protected_paths guard_sensitive_names guard_live_databases
    guard_durable_evidence guard_job_ownership protect
location_guards_block i = (
  ground arith,
  overlapping_blocks i.entry.path (protected_locations i.policy),
  sensitive_blocks (base i.entry.path) i.policy.name_patterns,
  ground arith,
  ground arith,
  owned_blocks i.entry.path i.jobs,
)
