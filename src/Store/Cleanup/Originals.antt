-- ===== src/Store/Cleanup/Originals.antt =====
-- internal/store/cleanup.go: the columns and evidence of a row before and after an update.
use workspace_janitor.Prelude.{
  ◌≡◌, refl, ap, ◌∙◌, ◌≤◌, String, Bool, true, false, Option, none, some, List, [], ◌∷◌, str_eq,
  arith, ◌==◌,
}
use workspace_janitor.Core.Entry.{Entry}
use workspace_janitor.Core.Action.{Action}
use workspace_janitor.Core.Retention.{Time}
use workspace_janitor.Core.Cleanup
use workspace_janitor.Core.Cleanup.{CleanupState, CleanupItem}
use workspace_janitor.Store.Cleanup.{
  same_text, CleanupStore, ok, lookup, same_key, set_row, set_columns, update_cleanup,
  check_cleanup_immutable, changed_when_set, evidence_change,
}
use workspace_janitor.Store.Cleanup.Journal.{update_cleanup-ok}
use workspace_janitor.Store.Cleanup.{same_text}

lookup-set_row :
    (cid aid : String) (item old : CleanupItem) (cs : List CleanupItem)
    → lookup cid aid cs ≡ some old
    → lookup cid aid (set_row cid aid item cs) ≡ some (set_columns item old)
unfolding lookup set_row same_key
lookup-set_row cid aid item old [] h = ground arith
lookup-set_row cid aid item old (c ∷ cs) h =
    let rest = lookup-set_row cid aid item old cs in ground (arith, rest)

-- A time, once set, stays the same.
unfoldable pub keeps_time : Option Time → Option Time → Bool
keeps_time none later = true
keeps_time (some t) none = false
keeps_time (some t) (some u) = t == u

keeps_time-unchanged : (t u : Option Time) → changed_when_set t u ≡ false → keeps_time t u ≡ true
unfolding changed_when_set keeps_time
keeps_time-unchanged none u h = refl
keeps_time-unchanged (some t) none h = ground arith
keeps_time-unchanged (some t) (some u) h = ground arith

module _ (encode_entry : Entry → Option String) (encode_action : Action → Option String) where
  -- Evidence of the quarantined object, once set, stays with the same encoding.
  unfoldable pub keeps_evidence : Option Entry → Option Entry → Bool
  keeps_evidence none later = true
  keeps_evidence (some e) none = false
  keeps_evidence (some e) (some f) = elim (encode_entry e) [
    | none ↦ false
    | some a ↦ elim (encode_entry f) [ none ↦ false | some b ↦ str_eq a b ]
  ]

  immutable-keeps :
      (old next : CleanupItem)
      → check_cleanup_immutable encode_entry encode_action old next ≡ none
      → (changed_when_set old.moved_at next.moved_at ≡ false)
        × (changed_when_set old.expires_at next.expires_at ≡ false)
        × (evidence_change encode_entry encode_action old.quarantine next.quarantine ≡ none)
  unfolding check_cleanup_immutable
  immutable-keeps old next h = (ground arith, ground arith, ground arith)

  evidence_kept :
      (q r : Option Entry)
      → evidence_change encode_entry encode_action q r ≡ none
      → keeps_evidence q r ≡ true
  unfolding evidence_change keeps_evidence same_text
  evidence_kept none r h = refl
  evidence_kept (some e) none h = ground arith
  evidence_kept (some e) (some f) h = ground arith

  -- If an update is committed, then its key had a row and has one, and the new row has the plan, paths,
  -- entry, action and creation time of the old one, an update time at or after its, its move time and
  -- deadline where it had them, and an equally encoded quarantine evidence where it had one.
  pub update_cleanup-keeps :
      (item : CleanupItem) (expected : CleanupState) (s s' : CleanupStore)
      → update_cleanup encode_entry encode_action item expected s ≡ ok s'
      → (old row : CleanupItem) × (lookup item.cleanup_id item.action_id s.items ≡ some old)
        × (lookup item.cleanup_id item.action_id s'.items ≡ some row)
        × (row.plan_id ≡ old.plan_id)
        × (row.source ≡ old.source)
        × (row.destination ≡ old.destination)
        × (row.entry ≡ old.entry)
        × (row.action ≡ old.action)
        × (row.created_at ≡ old.created_at)
        × (old.updated_at ≤ row.updated_at)
        × (keeps_time old.moved_at row.moved_at ≡ true)
        × (keeps_time old.expires_at row.expires_at ≡ true)
        × (keeps_evidence old.quarantine row.quarantine ≡ true)
  unfolding workspace_janitor.Core.Cleanup.normalize set_columns
  update_cleanup-keeps item0 expected s s' h =
      let item = Cleanup.normalize item0 in
      let u = update_cleanup-ok encode_entry encode_action item0 expected s s' h in
      let kept = immutable-keeps u.old item u.immutable in
      let found = lookup-set_row item.cleanup_id item.action_id item u.old s.items u.found in
      (
        u.old,
        set_columns item u.old,
        u.found,
        ap (lookup item.cleanup_id item.action_id) u.items ∙ found,
        refl,
        refl,
        refl,
        refl,
        refl,
        refl,
        ground (arith, u.advanced),
        keeps_time-unchanged u.old.moved_at item.moved_at kept.0,
        keeps_time-unchanged u.old.expires_at item.expires_at kept.1,
        evidence_kept u.old.quarantine item.quarantine kept.2,
      )
