-- ===== src/Actions/Expire/Guarded.antt =====
-- When an expiry may touch the files.
use workspace_janitor.Prelude.{
  refl, ◌≡◌, ◌⊎◌, inl, inr, none, true, str_eq, Bool-cases, Option-cases,
}
use workspace_janitor.Core.Cleanup.{CleanupItem, quarantined}
use workspace_janitor.Actions.{System, Engine, Machine}
use workspace_janitor.Actions.Journal.Effects.{save-Quiet, investigate-Quiet}
use workspace_janitor.Actions.Journal.{with_state}
use workspace_janitor.Actions.Eligible.{eligible, retention_over}
use workspace_janitor.Actions.Settle.{
  AbsentOutcome, settle_absent, absent_unproven, absent_deleted, absent_restored,
}
use workspace_janitor.Actions.Reconcile.Effects.{reconcile-Quiet}
use workspace_janitor.Actions.Expire.{by_outcome, delete, delete_guarded, settled}

module _ {F : Type 0} (sys : System F) (eng : Engine) where
  settled_files :
      (item : CleanupItem) (m : Machine F) → (settled sys eng item m).machine.files ≡ m.files
  unfolding settled with_state
  settled_files item m = (save-Quiet sys item _ quarantined m refl).files

  guarded_files :
      (item : CleanupItem) (m : Machine F)
      → ((delete_guarded sys eng item m).machine.files ≡ m.files)
        ⊎ (eligible sys eng m.files item ≡ none)
  unfolding delete_guarded
  guarded_files item m = elim (Option-cases (eligible sys eng m.files item)) [
    | inl h ↦ inr h
    | inr (e, h) ↦ inl (rw (h, delete_guarded) (investigate-Quiet sys item e m).files)
  ]

  outcome_files :
      (a : AbsentOutcome) (item : CleanupItem) (m : Machine F)
      → ((by_outcome sys eng a item m).machine.files ≡ m.files)
        ⊎ ((a ≡ absent_unproven) × (eligible sys eng m.files item ≡ none))
  unfolding by_outcome
  outcome_files absent_deleted item m = inl (settled_files item m)
  outcome_files absent_restored item m = inl (reconcile-Quiet sys eng item m).files
  outcome_files absent_unproven item m = elim (guarded_files item m) [
    | inl h ↦ inl h
    | inr h ↦ inr (refl, h)
  ]

  -- For every item and machine, a deletion either leaves the files as they were, or the item is
  -- quarantined, its retention is over, its object is not settled as gone, and it is eligible.
  pub delete-guarded :
      (item : CleanupItem) (m : Machine F)
      → ((delete sys eng item m).machine.files ≡ m.files)
        ⊎ ((str_eq item.state quarantined ≡ true)
            × (retention_over item (sys.now m.files) ≡ true)
            × (settle_absent sys m.files item ≡ absent_unproven)
            × (eligible sys eng m.files item ≡ none))
  unfolding delete
  delete-guarded item m = elim (Bool-cases (str_eq item.state quarantined)) [
    | inl q ↦ elim (Bool-cases (retention_over item (sys.now m.files))) [
      | inl r ↦ elim (outcome_files (settle_absent sys m.files item) item m) [
        | inl h ↦ inl (rw (q, r, delete) h)
        | inr (s, e) ↦ inr (q, r, s, e)
      ]
      | inr r ↦ inl (rw (q, r, delete) refl)
    ]
    | inr q ↦ inl (rw (q, delete) refl)
  ]
