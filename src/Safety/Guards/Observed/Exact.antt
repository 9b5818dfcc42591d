-- ===== src/Safety/Guards/Observed/Exact.antt =====
-- Each guard on the observations reports exactly when its invariant is broken, and only blocks.
use workspace_janitor.Prelude.{◌≡◌, refl, Option, none, some, List, [], ◌∷◌, any, arith}
use workspace_janitor.Core.Entry.{Protection, Evidence, GitState, is_blocking, zero_id}
use workspace_janitor.Safety.Input.{Input, protect}
use workspace_janitor.Safety.Risk.{git_risk, unknown_risk}
use workspace_janitor.Safety.Guards.Observed.{
  guard_collected_protections, guard_unknown_evidence, guard_filesystem_identity, guard_git_state,
  collected, unknowns, git_protections,
}
use workspace_janitor.Prelude.{false}
use workspace_janitor.Prelude.{Bool}
use workspace_janitor.Prelude.{not}

-- A protection that does not block.
abbrev is_idle : Protection → Bool
is_idle p = not p.blocking

any-collected : (ps : List Protection) → any is_blocking (collected ps) ≡ any is_blocking ps
unfolding collected
any-collected [] = refl
any-collected (p ∷ ps) = ground (arith, any-collected ps)

pub guard_collected_protections_exact :
    (i : Input)
    → any is_blocking (guard_collected_protections i) ≡ any is_blocking i.entry.protections
unfolding guard_collected_protections
guard_collected_protections_exact i = any-collected i.entry.protections

any-unknowns : (es : List Evidence) → any is_blocking (unknowns es) ≡ any unknown_risk es
unfolding unknowns unknown_risk protect
any-unknowns [] = refl
any-unknowns (e ∷ es) = ground (arith, any-unknowns es)

pub guard_unknown_evidence_exact :
    (i : Input) → any is_blocking (guard_unknown_evidence i) ≡ any unknown_risk i.entry.evidence
unfolding guard_unknown_evidence
guard_unknown_evidence_exact i = any-unknowns i.entry.evidence

pub guard_filesystem_identity_exact :
    (i : Input) → any is_blocking (guard_filesystem_identity i) ≡ zero_id i.entry.filesystem_id
unfolding guard_filesystem_identity protect
guard_filesystem_identity_exact i = ground arith

git_protections_exact : (g : Option GitState) → any is_blocking (git_protections g) ≡ git_risk g
unfolding git_protections git_risk protect
git_protections_exact none = refl
git_protections_exact (some s) = ground arith

pub guard_git_state_exact : (i : Input) → any is_blocking (guard_git_state i) ≡ git_risk i.entry.git
unfolding guard_git_state
guard_git_state_exact i = git_protections_exact i.entry.git

collected_blocks : (ps : List Protection) → any is_idle (collected ps) ≡ false
unfolding collected
collected_blocks [] = refl
collected_blocks (p ∷ ps) = ground (arith, collected_blocks ps)

unknowns_block : (es : List Evidence) → any is_idle (unknowns es) ≡ false
unfolding unknowns protect
unknowns_block [] = refl
unknowns_block (e ∷ es) = ground (arith, unknowns_block es)

git_protections_block : (g : Option GitState) → any is_idle (git_protections g) ≡ false
unfolding git_protections protect
git_protections_block none = refl
git_protections_block (some s) = ground arith

-- None of these guards reports a protection that does not block.
pub observed_guards_block :
    (i : Input)
    → (any is_idle (guard_collected_protections i) ≡ false)
      × (any is_idle (guard_unknown_evidence i) ≡ false)
      × (any is_idle (guard_filesystem_identity i) ≡ false)
      × (any is_idle (guard_git_state i) ≡ false)
unfolding guard_collected_protections guard_unknown_evidence guard_filesystem_identity
    guard_git_state protect
observed_guards_block i = (
  collected_blocks i.entry.protections,
  unknowns_block i.entry.evidence,
  ground arith,
  git_protections_block i.entry.git,
)
