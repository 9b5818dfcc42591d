-- ===== src/Actions/Move/Failing.antt =====
-- A quarantine that returns an error.
use workspace_janitor.Prelude.{
  refl, String, ◌≡◌, inl, inr, Option, none, some, Bool, true, false, not, is_some, str_eq,
  if◌then◌else◌,
}
use workspace_janitor.Prelude.Filepath.{dir}
use workspace_janitor.Core.Entry.{id_eq}
use workspace_janitor.Core.Cleanup.{CleanupItem, CleanupState, prepared}
use workspace_janitor.Safety.Revalidate.{Handle, Observation, observed, failed as unobserved}
use workspace_janitor.Actions.{Answer, missing, failed, found, System, Engine, Machine, Outcome}
use workspace_janitor.Actions.Rename.{sync_dir}
use workspace_janitor.Actions.Manifest.{ensure_manifest}
use workspace_janitor.Actions.Journal.{update, save}
use workspace_janitor.Actions.Journal.Effects.{update-cases}
use workspace_janitor.Actions.Move.{
  quarantine, moved, quarantine_opened, quarantine_ready, move_object, after_call, unless,
  finish_move, finish_observed,
}

module _ {F : Type 0} (sys : System F) where
  -- The journal has changed only if there is no error.
  record Untouched (m : Machine F) (o : Outcome F) : Type 0 where
    journal : is_some o.error ≡ true → o.machine.journal ≡ m.journal

  stop-Untouched :
      (item : CleanupItem) (e : Option String) (m : Machine F)
      → Untouched m (record { item = item; error = e; machine = m })
  stop-Untouched item e m = record { journal = λ h. refl }

  save-Untouched :
      (item : CleanupItem) (expected : CleanupState) (m : Machine F)
      → Untouched m (save sys item expected m)
  unfolding save
  save-Untouched item expected m = elim (update-cases sys item expected m) [
    | inl (e, h) ↦ record { journal = λ k. rw h refl }
    | inr (s, u, h) ↦
        let e : is_some (update sys item expected m).0 ≡ false = rw h refl in
        record { journal = λ k. cc }
  ]

  if-Untouched :
      (b : Bool) (m : Machine F) (o o' : Outcome F)
      → Untouched m o
      → Untouched m o'
      → Untouched m (if b then o else o')
  if-Untouched true m o o' u u' = u
  if-Untouched false m o o' u u' = u'

  unless-Untouched :
      (item : CleanupItem) (m : Machine F) (e : Option String) (o : Outcome F)
      → Untouched m o
      → Untouched m (unless sys item m e o)
  unfolding unless
  unless-Untouched item m none o u = u
  unless-Untouched item m (some e) o u = stop-Untouched item (some e) m

  after_call-Untouched :
      (item : CleanupItem) (m : Machine F) (call : F × Option String) (next : Machine F → Outcome F)
      → ((m' : Machine F) → Untouched m' (next m'))
      → Untouched m (after_call sys item m call next)
  unfolding after_call
  after_call-Untouched item m (fs, none) next u = record {
    journal = (u (record m { files = fs })).journal;
  }
  after_call-Untouched item m (fs, some e) next u = record { journal = λ h. refl }

  answer-Untouched :
      {A : Type 0} (x : Answer A) (item : CleanupItem) (m : Machine F) (f : A → Outcome F)
      → ((a : A) → Untouched m (f a))
      → Untouched m (elim x [
        | missing e ↦ record { item = item; error = some e; machine = m }
        | failed e ↦ record { item = item; error = some e; machine = m }
        | found a ↦ f a
      ])
  answer-Untouched (missing e) item m f u = stop-Untouched item (some e) m
  answer-Untouched (failed e) item m f u = stop-Untouched item (some e) m
  answer-Untouched (found a) item m f u = u a

  option-Untouched :
      (x : Option String) (m : Machine F) (f : String → Outcome F) (o : Outcome F)
      → ((e : String) → Untouched m (f e))
      → Untouched m o
      → Untouched m (elim x [ none ↦ o | some e ↦ f e ])
  option-Untouched none m f o uf u = u
  option-Untouched (some e) m f o uf u = uf e

module _ {F : Type 0} (sys : System F) (eng : Engine) where
  observed-Untouched :
      (item : CleanupItem) (o : Observation) (m : Machine F)
      → Untouched sys m (finish_observed sys eng item o m)
  unfolding finish_observed
  observed-Untouched item (unobserved e) m = stop-Untouched sys item _ m
  observed-Untouched item (observed fresh) m =
      if-Untouched sys (not (id_eq fresh.filesystem_id item.entry.filesystem_id)) m _ _
        (stop-Untouched sys item _ m)
        (unless-Untouched sys item m _ _ (save-Untouched sys _ prepared m))

  finish-Untouched :
      (item : CleanupItem) (m : Machine F) → Untouched sys m (finish_move sys eng item m)
  unfolding finish_move
  finish-Untouched item m =
      option-Untouched sys _ m _ _ (λ e. stop-Untouched sys item _ m) (observed-Untouched item _ m)

  moved-Untouched : (item : CleanupItem) (m : Machine F) → Untouched sys m (moved sys eng item m)
  unfolding moved
  moved-Untouched item m =
      after_call-Untouched sys item m (sync_dir sys m.files (dir item.destination)) _ (λ m1.
        after_call-Untouched sys item m1 (sync_dir sys m1.files (dir item.source)) _
          (finish-Untouched item))

  opened-Untouched :
      (item : CleanupItem) (handle : Handle) (m : Machine F)
      → Untouched sys m (quarantine_opened sys eng item handle m)
  unfolding quarantine_opened
  opened-Untouched item handle m = unless-Untouched sys item m _ _ (
      unless-Untouched sys item m _ _ (
        after_call-Untouched sys item m
          (move_object sys eng m.files item item.source item.destination handle.identity) _
          (moved-Untouched item)))

  ready-Untouched :
      (item : CleanupItem) (m : Machine F) → Untouched sys m (quarantine_ready sys eng item m)
  unfolding quarantine_ready
  ready-Untouched item m = unless-Untouched sys item m _ _ (
      answer-Untouched sys (sys.open_handle m.files item.source) item m _
        (λ handle. opened-Untouched item handle m))

  whole-Untouched :
      (item : CleanupItem) (m : Machine F) → Untouched sys m (quarantine sys eng item m)
  unfolding quarantine
  whole-Untouched item m =
      if-Untouched sys (not (str_eq item.state prepared)) m _ _ (stop-Untouched sys item _ m) (
        after_call-Untouched sys item m (ensure_manifest sys m.files item) _ (ready-Untouched item))

  -- For every item and machine, a quarantine that returns an error leaves the journal as it was.
  pub quarantine-fails :
      (item : CleanupItem) (m : Machine F)
      → is_some (quarantine sys eng item m).error ≡ true
      → (quarantine sys eng item m).machine.journal ≡ m.journal
  quarantine-fails item m = (whole-Untouched item m).journal
