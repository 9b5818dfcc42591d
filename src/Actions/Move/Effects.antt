-- ===== src/Actions/Move/Effects.antt =====
-- What the completion of a move does to the files and to the journal.
use workspace_janitor.Prelude.{refl, if◌then◌else◌, String, Option, none, some, Bool, true, false}
use workspace_janitor.Core.Cleanup.{CleanupItem}
use workspace_janitor.Safety.Revalidate.{Observation, observed, failed}
use workspace_janitor.Actions.{System, Engine, Machine, Outcome}
use workspace_janitor.Actions.Journal.Effects.{Quiet, save-Quiet, stop-Quiet}
use workspace_janitor.Actions.Move.{moved_item, finish_move, finish_observed, unless}

module _ {F : Type 0} (sys : System F) where
  pub unless-Quiet :
      (item : CleanupItem) (m : Machine F) (e : Option String) (o : Outcome F)
      → Quiet sys item m o
      → Quiet sys item m (unless sys item m e o)
  unfolding unless
  unless-Quiet item m none o q = q
  unless-Quiet item m (some e) o q = stop-Quiet sys item (some e) m

  -- `if b { ... } else { ... }`
  pub if-Quiet :
      (b : Bool) (item : CleanupItem) (m : Machine F) (o o' : Outcome F)
      → Quiet sys item m o
      → Quiet sys item m o'
      → Quiet sys item m (if b then o else o')
  if-Quiet true item m o o' q q' = q
  if-Quiet false item m o o' q q' = q'

  pub option-Quiet :
      (x : Option String) (item : CleanupItem) (m : Machine F) (f : String → Outcome F)
      (o : Outcome F)
      → ((e : String) → Quiet sys item m (f e))
      → Quiet sys item m o
      → Quiet sys item m (elim x [ none ↦ o | some e ↦ f e ])
  option-Quiet none item m f o qf q = q
  option-Quiet (some e) item m f o qf q = qf e

module _ {F : Type 0} (sys : System F) (eng : Engine) where
  observed-Quiet :
      (item : CleanupItem) (o : Observation) (m : Machine F)
      → Quiet sys item m (finish_observed sys eng item o m)
  unfolding finish_observed moved_item
  observed-Quiet item (failed e) m = stop-Quiet sys item _ m
  observed-Quiet item (observed fresh) m =
      if-Quiet sys _ item m _ _ (stop-Quiet sys item _ m)
        (unless-Quiet sys item m _ _ (save-Quiet sys item _ _ m refl))

  pub finish_move-Quiet :
      (item : CleanupItem) (m : Machine F) → Quiet sys item m (finish_move sys eng item m)
  unfolding finish_move
  finish_move-Quiet item m =
      option-Quiet sys _ item m _ _ (λ e. stop-Quiet sys item _ m) (observed-Quiet item _ m)
