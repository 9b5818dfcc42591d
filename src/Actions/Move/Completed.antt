-- ===== src/Actions/Move/Completed.antt =====
-- The completion of a move whose source is gone: when it returns no error, and what it leaves then.
use workspace_janitor.Prelude.{
  refl, ◌≡◌, ◌∙◌, sym, ap, none, true, Bool-cases, Option-cases, inl, inr, arith,
}
use workspace_janitor.Core.Entry.{Entry, id_eq}
use workspace_janitor.Core.Cleanup.{CleanupItem, prepared}
use workspace_janitor.Safety.Revalidate.{Observation, observed, failed as unobserved}
use workspace_janitor.Actions.{System, Engine, Machine}
use workspace_janitor.Actions.Paths.{is_missing}
use workspace_janitor.Actions.Paths.Absence.{missing_absent}
use workspace_janitor.Actions.Observe.{recollect_receipt}
use workspace_janitor.Actions.Journal.{link_error, update, save}
use workspace_janitor.Actions.Move.{finish_move, finish_observed, moved_item, unless}

module _ {F : Type 0} (sys : System F) (eng : Engine) where
  -- The object was observed with its identity and its Git registration verifies.
  pub record Moved (item : CleanupItem) (m : Machine F) (fresh : Entry) : Type 0 where
    pub seen : recollect_receipt sys eng m.files item.destination item.source ≡ observed fresh
    pub same : id_eq fresh.filesystem_id item.entry.filesystem_id ≡ true
    pub linked : link_error sys m.files item item.destination ≡ none
    pub written : (update sys (moved_item item fresh (sys.now m.files)) prepared m).0 ≡ none

  finish_observed-completes :
      (item : CleanupItem) (m : Machine F) (o : Observation)
      → (finish_observed sys eng item o m).error ≡ none
      → (fresh : Entry) × (o ≡ observed fresh)
        × (id_eq fresh.filesystem_id item.entry.filesystem_id ≡ true)
        × (link_error sys m.files item item.destination ≡ none)
        × ((update sys (moved_item item fresh (sys.now m.files)) prepared m).0 ≡ none)
        × ((finish_observed sys eng item o m).item ≡ moved_item item fresh (sys.now m.files))
        × ((finish_observed sys eng item o m).machine
            ≡ (update sys (moved_item item fresh (sys.now m.files)) prepared m).1)
  unfolding finish_observed unless save
  finish_observed-completes item m (unobserved e) h = ground arith
  finish_observed-completes item m (observed fresh) h =
      elim (Bool-cases (id_eq fresh.filesystem_id item.entry.filesystem_id)) [
        | inr k ↦ ground arith
        | inl k ↦ elim (Option-cases (link_error sys m.files item item.destination)) [
          | inr (e, l) ↦ ground arith
          | inl l ↦ (fresh, refl, k, l, ground arith, rw (k, l) refl, rw (k, l) refl)
        ]
      ]

  finish_move-gone :
      (item : CleanupItem) (m : Machine F)
      → is_missing (sys.lstat m.files item.source) ≡ true
      → finish_move sys eng item m
        ≡ finish_observed sys eng item
            (recollect_receipt sys eng m.files item.destination item.source)
            m
  unfolding finish_move
  finish_move-gone item m gone = rw (missing_absent sys m.files item.source gone, finish_move) refl

  pub finish_move-completes :
      (item : CleanupItem) (m : Machine F)
      → is_missing (sys.lstat m.files item.source) ≡ true
      → (finish_move sys eng item m).error ≡ none
      → (fresh : Entry) × Moved item m fresh
        × ((finish_move sys eng item m).item ≡ moved_item item fresh (sys.now m.files))
        × ((finish_move sys eng item m).machine
            ≡ (update sys (moved_item item fresh (sys.now m.files)) prepared m).1)
  finish_move-completes item m gone h =
      let p = finish_move-gone item m gone in
      let o = recollect_receipt sys eng m.files item.destination item.source in
      let (fresh, seen, same, linked, written, i, j) =
        finish_observed-completes item m o (sym (ap (λ r. r.error) p) ∙ h) in
      (
        fresh,
        record { seen = seen; same = same; linked = linked; written = written },
        ap (λ r. r.item) p ∙ i,
        ap (λ r. r.machine) p ∙ j,
      )

  pub finish_move-succeeds :
      (item : CleanupItem) (m : Machine F) (fresh : Entry)
      → is_missing (sys.lstat m.files item.source) ≡ true
      → Moved item m fresh
      → (finish_move sys eng item m).error ≡ none
  unfolding finish_observed unless save
  finish_move-succeeds item m fresh gone v =
      rw (finish_move-gone item m gone, v.seen, finish_observed, v.same, v.linked, unless, save)
        v.written
