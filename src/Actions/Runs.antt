-- ===== src/Actions/Runs.antt =====
-- Every sequence of the executor's operations, with anything happening to the files in between.
use workspace_janitor.Prelude.{String, false, ◌≡◌, none, any}
use workspace_janitor.Core.Cleanup.{CleanupItem}
use workspace_janitor.Store.Cleanup.{empty}
use workspace_janitor.Store.Cleanup.History.{start, illegal, events_legal, journal_agrees}
use workspace_janitor.Store.Cleanup.Table.{state_of, state_after}
use workspace_janitor.Actions.{System, Engine, Machine}
use workspace_janitor.Actions.Journal.Effects.{Recorded}
use workspace_janitor.Actions.Move.{prepare, quarantine}
use workspace_janitor.Actions.Move.Journalled.{prepare-Records, quarantine-Records}
use workspace_janitor.Actions.Reconcile.{reconcile}
use workspace_janitor.Actions.Reconcile.Effects.{reconcile-Quiet}
use workspace_janitor.Actions.Restore.{restore}
use workspace_janitor.Actions.Restore.Effects.{restore-Records}
use workspace_janitor.Actions.Expire.{delete}
use workspace_janitor.Actions.Expire.Effects.{delete-Records}

module _ {F : Type 0} (sys : System F) where
  -- The machines that operations lead to: each with its own configuration, from any item, and with
  -- whatever outcome. Between two of them the files may change in any way.
  pub data Ran : Machine F → Type 0 where
    begun : (fs : F) → Ran (record { files = fs; journal = empty })
    disturbed : (m : Machine F) (fs : F) → Ran m → Ran (record m { files = fs })
    prepare_ran :
        (eng : Engine) (item : CleanupItem) (m : Machine F)
        → Ran m
        → Ran (prepare sys eng item m).machine
    quarantine_ran :
        (eng : Engine) (item : CleanupItem) (m : Machine F)
        → Ran m
        → Ran (quarantine sys eng item m).machine
    reconcile_ran :
        (eng : Engine) (item : CleanupItem) (m : Machine F)
        → Ran m
        → Ran (reconcile sys eng item m).machine
    restore_ran :
        (eng : Engine) (item : CleanupItem) (m : Machine F)
        → Ran m
        → Ran (restore sys eng item m).machine
    delete_ran :
        (eng : Engine) (item : CleanupItem) (m : Machine F)
        → Ran m
        → Ran (delete sys eng item m).machine

  Ran-Recorded : (m : Machine F) → Ran m → Recorded sys m
  Ran-Recorded _ (begun fs) = start
  Ran-Recorded _ (disturbed m fs r) = Ran-Recorded m r
  Ran-Recorded _ (prepare_ran eng item m r) =
      (prepare-Records sys eng item m).recorded (Ran-Recorded m r)
  Ran-Recorded _ (quarantine_ran eng item m r) =
      (quarantine-Records sys eng item m).recorded (Ran-Recorded m r)
  Ran-Recorded _ (reconcile_ran eng item m r) =
      (reconcile-Quiet sys eng item m).recorded (Ran-Recorded m r)
  Ran-Recorded _ (restore_ran eng item m r) =
      (restore-Records sys eng item m).recorded (Ran-Recorded m r)
  Ran-Recorded _ (delete_ran eng item m r) =
      (delete-Records sys eng item m).recorded (Ran-Recorded m r)

  -- For every machine that prepares, quarantines, reconciliations, restores and deletions lead to
  -- from an empty journal, however the files and the database answer and change in between, each
  -- journal event starts an item as prepared or goes from a state to one that it may transition to,
  -- and the state of each key's row is the one that the key's last event leads to.
  pub operations_refine :
      (m : Machine F)
      → Ran m
      → (any illegal m.journal.events ≡ false)
        × ((cid aid : String)
            → state_of cid aid m.journal.items ≡ state_after cid aid m.journal.events none)
  operations_refine m r = (
    events_legal sys.encode_entry sys.encode_action m.journal (Ran-Recorded m r),
    journal_agrees sys.encode_entry sys.encode_action m.journal (Ran-Recorded m r),
  )
