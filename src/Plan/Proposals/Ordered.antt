-- ===== src/Plan/Proposals/Ordered.antt =====
-- internal/plan/rules.go: `proposals`, every opinion sorted by tier, specificity and rule name. The
-- order of the policy file is not used.
use workspace_janitor.Prelude.{
  Bool, false, not, ◌&&◌, Option, none, some, List, [], ◌∷◌, ◌++◌, ltb, ◌==◌, is_some, str_eq,
  str_lt, concat, itoa, sort_by, if◌then◌else◌,
}
use workspace_janitor.Core.ActionKind.{keep, quarantine, investigate}
use workspace_janitor.Core.Entry.{Entry, WorkspaceArchiveBinding}
use workspace_janitor.Core.Retention.{Retention, Time, expired}
use workspace_janitor.Core.Verdict.{Verdict}
use workspace_janitor.Plan.Policy.{Policy, EvidenceExportRule, WorkspaceArchiveRule}
use workspace_janitor.Plan.Durations.{byte_len}
use workspace_janitor.Plan.Classify.{Classification}
use workspace_janitor.Plan.Proposals.{
  Proposal, tier_explicit, tier_rank, propose, unset_retention, canonical_root_for, foreign_owner,
}
use workspace_janitor.Plan.Proposals.Gather.{
  propose_if, safety_proposals, protected_proposals, managed_proposals, canonical_proposals,
  cache_proposals, builtin_proposal,
}

export_due : Entry → EvidenceExportRule → Bool
export_due e r =
    r.local_expiry_enabled
    && is_some e.export_archive
    && expired r.local_retention r.completed_at e.observed_at

export_proposals : Entry → Retention → List EvidenceExportRule → List Proposal
unfolding propose_if export_due
export_proposals e retention [] = []
export_proposals e retention (r ∷ rs) =
    propose_if (str_eq e.path r.path) (
      propose (concat ("policy.evidence_export:" ∷ r.name ∷ [])) tier_explicit
        (if export_due e r then quarantine else keep) retention (byte_len r.path)
        ((if export_due e r
            then "exact completed export has a verified archive and its approved local lifetime has elapsed"
            else "export remains retained until its approved local lifetime and verified archive permit expiry")
          ∷ []))
    ++ export_proposals e retention rs

archived_at : Retention → Time → Option WorkspaceArchiveBinding → Bool
archived_at retention now none = false
archived_at retention now (some b) = expired retention b.created_at now

archive_due : Entry → WorkspaceArchiveRule → Bool
unfolding archived_at
archive_due e r =
    r.local_expiry_enabled && archived_at r.local_retention e.observed_at e.workspace_archive

archive_proposals : Entry → Retention → List WorkspaceArchiveRule → List Proposal
unfolding propose_if archive_due
archive_proposals e retention [] = []
archive_proposals e retention (r ∷ rs) =
    propose_if (str_eq e.path r.path) (
      propose (concat ("policy.workspace_archive:" ∷ r.name ∷ [])) tier_explicit
        (if archive_due e r then quarantine else keep) retention (byte_len r.path)
        ((if archive_due e r
            then "released workspace exactly matches its pinned verified archive and its approved local lifetime has elapsed"
            else "released workspace remains retained until local expiry is enabled, its approved local lifetime has elapsed and its pinned archive matches the local tree")
          ∷ []))
    ++ archive_proposals e retention rs

owner_proposals : Entry → Policy → List Proposal
unfolding propose_if
owner_proposals e p = propose_if (p.investigate_foreign_owner && foreign_owner e p) (
    propose "policy.foreign_owner" tier_explicit investigate unset_retention (byte_len e.path)
      (e.path ∷ " is owned by uid " ∷ itoa e.ownership.uid ∷ ", not the expected owner" ∷ []))

-- The comparison of `sort.SliceStable`.
unfoldable pub proposal_less : Proposal → Proposal → Bool
proposal_less a b =
    if not (tier_rank a.tier == tier_rank b.tier)
    then ltb (tier_rank a.tier) (tier_rank b.tier)
    else if not (a.specificity == b.specificity)
    then ltb b.specificity a.specificity
    else str_lt a.rule b.rule

unfoldable pub gathered : Entry → Classification → Policy → Verdict → List Proposal
unfolding export_proposals archive_proposals owner_proposals
gathered e class p v =
    safety_proposals e v
    ++ protected_proposals e p.protect_paths
    ++ managed_proposals e p.gitmoot_home
    ++ canonical_proposals e class (canonical_root_for p class.class)
    ++ cache_proposals e p.caches
    ++ export_proposals e p.default_retention p.evidence_exports
    ++ archive_proposals e p.default_retention p.workspace_archives
    ++ owner_proposals e p
    ++ builtin_proposal e class p ∷ []

unfoldable pub proposals : Entry → Classification → Policy → Verdict → List Proposal
proposals e class p v = sort_by proposal_less (gathered e class p v)
