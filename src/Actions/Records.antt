-- ===== src/Actions/Records.antt =====
-- The journal after each operation of the executor, whatever the files answer.
use workspace_janitor.Prelude.{refl, String, Option, none, some, Bool, true, false, if◌then◌else◌}
use workspace_janitor.Core.Cleanup.{CleanupItem, CleanupState}
use workspace_janitor.Actions.{System, Machine, Outcome}
use workspace_janitor.Actions.Journal.{save, investigate_item}
use workspace_janitor.Actions.Journal.Effects.{Quiet, Recorded, save-Quiet, investigate-Quiet}
use workspace_janitor.Actions.Move.{after_call, unless}
use workspace_janitor.Actions.{Answer}
use workspace_janitor.Actions.{missing}
use workspace_janitor.Actions.{failed}
use workspace_janitor.Actions.{found}

module _ {F : Type 0} (sys : System F) where
  -- A journal that committed writes led to is still one after the operation.
  pub record Records (m : Machine F) (o : Outcome F) : Type 0 where
    pub recorded : Recorded sys m → Recorded sys o.machine

  pub of_Quiet :
      (item : CleanupItem) (m : Machine F) (o : Outcome F) → Quiet sys item m o → Records m o
  of_Quiet item m o q = record { recorded = q.recorded }

  pub stop-Records :
      (item : CleanupItem) (e : Option String) (m : Machine F)
      → Records m (record { item = item; error = e; machine = m })
  stop-Records item e m = record { recorded = λ r. r }

  pub save-Records :
      (item : CleanupItem) (expected : CleanupState) (m : Machine F)
      → Records m (save sys item expected m)
  save-Records item expected m = of_Quiet item m _ (save-Quiet sys item item expected m refl)

  pub investigate-Records :
      (item : CleanupItem) (reason : String) (m : Machine F)
      → Records m (investigate_item sys item reason m)
  investigate-Records item reason m = of_Quiet item m _ (investigate-Quiet sys item reason m)

  pub if-Records :
      (b : Bool) (m : Machine F) (o o' : Outcome F)
      → Records m o
      → Records m o'
      → Records m (if b then o else o')
  if-Records true m o o' r r' = r
  if-Records false m o o' r r' = r'

  pub unless-Records :
      (item : CleanupItem) (m : Machine F) (e : Option String) (o : Outcome F)
      → Records m o
      → Records m (unless sys item m e o)
  unfolding unless
  unless-Records item m none o r = r
  unless-Records item m (some e) o r = stop-Records item (some e) m

  pub option-Records :
      {A : Type 0} (x : Option A) (m : Machine F) (f : A → Outcome F) (o : Outcome F)
      → ((a : A) → Records m (f a))
      → Records m o
      → Records m (elim x [ none ↦ o | some a ↦ f a ])
  option-Records none m f o rf r = r
  option-Records (some a) m f o rf r = rf a

  pub after_call-Records :
      (item : CleanupItem) (m : Machine F) (call : F × Option String) (next : Machine F → Outcome F)
      → ((m' : Machine F) → Records m' (next m'))
      → Records m (after_call sys item m call next)
  unfolding after_call
  after_call-Records item m (fs, none) next r = record {
    recorded = (r (record m { files = fs })).recorded;
  }
  after_call-Records item m (fs, some e) next r = record { recorded = λ h. h }

  pub answer-Records :
      {A : Type 0} (x : Answer A) (item : CleanupItem) (m : Machine F) (f : A → Outcome F)
      → ((a : A) → Records m (f a))
      → Records m (elim x [
        | missing e ↦ record { item = item; error = some e; machine = m }
        | failed e ↦ record { item = item; error = some e; machine = m }
        | found a ↦ f a
      ])
  answer-Records (missing e) item m f r = stop-Records item (some e) m
  answer-Records (failed e) item m f r = stop-Records item (some e) m
  answer-Records (found a) item m f r = r a
