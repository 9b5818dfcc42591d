-- ===== src/Actions/Eligible/Sound.antt =====
-- What a receipt that may be deleted has passed.
use workspace_janitor.Actions.Observe.Unused.{Answer-cases, original_references-none, unfit}
use workspace_janitor.Prelude.{
  String, ◌≡◌, none, some, true, false, str_eq, Bool-cases, any, arith, not, ◌==◌,
}
use workspace_janitor.Core.Cleanup.{CleanupItem, quarantined}
use workspace_janitor.Core.ActionKind.{mutating}
use workspace_janitor.Core.Entry.{Entry}
use workspace_janitor.Core.Verdict.{Verdict, allows, refused}
use workspace_janitor.Safety.Engine.{evaluate}
use workspace_janitor.Safety.Revalidate.{Handle, revalidate}
use workspace_janitor.Actions.{answer_error, found, System, Engine, Collected}
use workspace_janitor.Actions.Observe.{original_references, covers, observe_options}
use workspace_janitor.Actions.Eligible.{
  retention_over, refusal_text, planned_receipt, receipt_input, mirror_input, verify_deletion_tree,
}
use workspace_janitor.Actions.Eligible.{after_references}
use workspace_janitor.Actions.Eligible.{judged}
use workspace_janitor.Actions.Eligible.{footprint}
use workspace_janitor.Prelude.{Option-cases}
use workspace_janitor.Prelude.{inr}
use workspace_janitor.Prelude.{inl}
use workspace_janitor.Actions.Eligible.{eligible}

refusal_text-none :
    (prefix : String) (v : Verdict) → refusal_text prefix v ≡ none → refused v ≡ false
unfolding refusal_text allows mutating
refusal_text-none prefix v h = ground arith

module _ {F : Type 0} (sys : System F) (eng : Engine) where
  -- The item is quarantined, its retention is over, a collection with no unfit report found nothing that
  -- uses its original path, neither the
  -- verdict on the receipt nor the one under the original names refuses, and no mount lies below it.
  pub record Deletable (fs : F) (item : CleanupItem) : Type 0 where
    pub quarantine : str_eq item.state quarantined ≡ true
    pub over : retention_over item (sys.now fs) ≡ true
    pub snapshot : Entry
    pub snapshotted : item.quarantine ≡ some snapshot
    pub observed : Collected
    pub collected :
        sys.collect fs (observe_options sys eng eng.options item.source false) ≡ found observed
    pub complete : any (unfit (not (eng.options.agent_sources == 0))) observed.reports ≡ false
    pub unused : any (covers item.source) observed.references ≡ false
    pub handle : Handle
    pub opened : sys.open_handle fs item.destination ≡ found handle
    pub receipt_safe :
        refused (
          revalidate sys.sha256_hex
            (receipt_input sys eng fs item (planned_receipt sys eng item snapshot) handle))
        ≡ false
    pub source_safe :
        refused (evaluate (mirror_input sys eng fs item (planned_receipt sys eng item snapshot)))
        ≡ false
    pub unmounted : verify_deletion_tree sys fs item.destination snapshot.filesystem_id ≡ none

  footprint-none :
      (fs : F) (item : CleanupItem) (planned : Entry)
      → footprint sys eng fs item planned ≡ none
      → verify_deletion_tree sys fs item.destination planned.filesystem_id ≡ none
  unfolding footprint
  footprint-none fs item planned h = ground arith

  judged-none :
      (fs : F) (item : CleanupItem) (planned : Entry) (handle : Handle)
      → judged sys eng fs item planned handle ≡ none
      → (refused (revalidate sys.sha256_hex (receipt_input sys eng fs item planned handle)) ≡ false)
        × (refused (evaluate (mirror_input sys eng fs item planned)) ≡ false)
        × (footprint sys eng fs item planned ≡ none)
  unfolding judged
  judged-none fs item planned handle h =
      let receipt = revalidate sys.sha256_hex (receipt_input sys eng fs item planned handle) in
      let source = evaluate (mirror_input sys eng fs item planned) in
      let first = refusal_text "deletion safety refused" receipt in
      let second = refusal_text "original source safety refused" source in
      elim (Option-cases first) [
        | inr (e, k) ↦ ground arith
        | inl k ↦ elim (Option-cases second) [
          | inr (e, l) ↦ ground arith
          | inl l ↦ (refusal_text-none _ receipt k, refusal_text-none _ source l, ground arith)
        ]
      ]

  after_references-none :
      (fs : F) (item : CleanupItem) (snapshot : Entry)
      → after_references sys eng fs item snapshot ≡ none
      → (handle : Handle) × (sys.open_handle fs item.destination ≡ found handle)
        × (judged sys eng fs item (planned_receipt sys eng item snapshot) handle ≡ none)
  unfolding after_references answer_error
  after_references-none fs item snapshot h =
      elim (Answer-cases (sys.open_handle fs item.destination)) [
        | inl (e, k) ↦ ground arith
        | inr (handle, k) ↦ (handle, k, ground arith)
      ]

  -- For all items and files, an item that is eligible for deletion is quarantined and its retention
  -- is over; a fresh collection around its original path answers, with no report of the filesystem,
  -- processes, services, Git, Gitmoot or (where agent sources are configured) agents collector in a
  -- status other than ran, or partial for Git, or skipped for Gitmoot, and with no reference to the
  -- path; neither the verdict on the receipt nor the one under the original names refuses, and no
  -- mount lies below the receipt.
  pub eligible-Deletable :
      (fs : F) (item : CleanupItem) → eligible sys eng fs item ≡ none → Deletable fs item
  unfolding eligible planned_receipt
  eligible-Deletable fs item h = elim (Bool-cases (str_eq item.state quarantined)) [
    | inr q ↦ ground arith
    | inl q ↦ elim (Bool-cases (retention_over item (sys.now fs))) [
      | inr r ↦ ground arith
      | inl r ↦ elim (Option-cases item.quarantine) [
        | inl s ↦ ground arith
        | inr (snapshot, s) ↦ elim (Option-cases (original_references sys eng fs item.source)) [
          | inr (e, u) ↦ ground arith
          | inl u ↦
              let (observed, collected, complete, unused) =
                original_references-none sys eng fs item.source u in
              let (handle, opened, j) = after_references-none fs item snapshot (ground arith) in
              let planned = planned_receipt sys eng item snapshot in
              let (receipt, source, f) = judged-none fs item planned handle j in
              record {
                quarantine = q;
                over = r;
                snapshot = snapshot;
                snapshotted = s;
                observed = observed;
                collected = collected;
                complete = complete;
                unused = unused;
                handle = handle;
                opened = opened;
                receipt_safe = receipt;
                source_safe = source;
                unmounted = footprint-none fs item planned f;
              }
        ]
      ]
    ]
  ]
