-- ===== src/Store/Cleanup/History.antt =====
-- The cleanup journal over every sequence of committed inserts and updates.
use workspace_janitor.Prelude.{
  String, ◌≡◌, refl, ◌∙◌, Bool, true, false, not, Option, none, some, [], ◌∷◌, any, any-append,
  str_eq, arith,
}
use workspace_janitor.Core.Entry.{Entry}
use workspace_janitor.Core.Action.{Action}
use workspace_janitor.Core.Cleanup
use workspace_janitor.Core.Cleanup.{
  CleanupState, CleanupItem, prepared, can_transition_to, validate_initial,
}
use workspace_janitor.Store.Cleanup.{
  CleanupEvent, CleanupStore, ok, empty, insert_event, transition_event, insert_cleanup,
  update_cleanup,
}
use workspace_janitor.Store.Cleanup.Journal.{update_cleanup-ok, insert_cleanup-ok}
use workspace_janitor.Store.Cleanup.Table.{
  state_of, state_after, state_after-append, state_of-set_row, state_of-append,
}
use workspace_janitor.Store.Cleanup.{lookup}

legal_from : Option CleanupState → CleanupState → Bool
legal_from none to = str_eq to prepared
legal_from (some s) to = can_transition_to s to

-- An event that is neither a new prepared item nor an allowed transition.
unfoldable pub illegal : CleanupEvent → Bool
unfolding legal_from
illegal e = not (legal_from e.from_state e.to_state)

prepared_when_initial :
    (item : CleanupItem) → validate_initial item ≡ none → str_eq item.state prepared ≡ true
unfolding validate_initial
prepared_when_initial item h = ground arith

module _ (encode_entry : Entry → Option String) (encode_action : Action → Option String) where
  -- The stores that committed calls lead to.
  pub data Reachable : CleanupStore → Type 0 where
    start : Reachable empty
    after_insert :
        (item : CleanupItem) (s s' : CleanupStore)
        → Reachable s
        → insert_cleanup encode_entry encode_action item s ≡ ok s'
        → Reachable s'
    after_update :
        (item : CleanupItem) (expected : CleanupState) (s s' : CleanupStore)
        → Reachable s
        → update_cleanup encode_entry encode_action item expected s ≡ ok s'
        → Reachable s'

  -- In every store that committed inserts and updates lead to from the empty one, each journal
  -- event either starts an item as prepared or goes from a state to one that it may transition to.
  pub events_legal : (s : CleanupStore) → Reachable s → any illegal s.events ≡ false
  unfolding illegal insert_event transition_event
  events_legal s start = refl
  events_legal _ (after_insert item s s' r h) =
      let i = insert_cleanup-ok encode_entry encode_action item s s' h in
      let p = prepared_when_initial (Cleanup.normalize item) i.initial in
      rw i.events (
        any-append illegal s.events (insert_event (Cleanup.normalize item) ∷ [])
        ∙ ground (arith, events_legal s r, p))
  events_legal _ (after_update item expected s s' r h) =
      let u = update_cleanup-ok encode_entry encode_action item expected s s' h in
      rw u.events (
        any-append illegal s.events (transition_event u.old (Cleanup.normalize item) ∷ [])
        ∙ ground (arith, events_legal s r, u.allowed))

  -- In every store that committed inserts and updates lead to from the empty one, the state of each
  -- key's row is the state that the key's last journal event leads to, and a key without a row has
  -- no event.
  pub journal_agrees :
      (s : CleanupStore)
      → Reachable s
      → (cid aid : String) → state_of cid aid s.items ≡ state_after cid aid s.events none
  unfolding insert_event transition_event state_of state_after lookup
  journal_agrees s start cid aid = refl
  journal_agrees _ (after_insert item s s' r h) cid aid =
      let i = insert_cleanup-ok encode_entry encode_action item s s' h in
      rw (
        i.items,
        i.events,
        state_of-append (Cleanup.normalize item) s.items cid aid i.fresh,
        state_after-append cid aid s.events (insert_event (Cleanup.normalize item)) none,
        journal_agrees s r cid aid,
      )
  journal_agrees _ (after_update item expected s s' r h) cid aid =
      let u = update_cleanup-ok encode_entry encode_action item expected s s' h in
      let item' = Cleanup.normalize item in
      rw (
        u.items,
        u.events,
        state_of-set_row item'.cleanup_id item'.action_id item' u.old s.items cid aid u.found,
        state_after-append cid aid s.events (transition_event u.old item') none,
        journal_agrees s r cid aid,
      )
