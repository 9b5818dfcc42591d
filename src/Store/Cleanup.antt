-- ===== src/Store/Cleanup.antt =====
-- internal/store/cleanup.go with its tables and triggers of internal/store/migrations.go. A table with
-- a primary key is a list in which the first row of a key is the row of that key; a statement that
-- fails leaves the store alone. The JSON encodings are arguments, since `encoding/json` makes them.
pub mod Journal
pub mod Table
pub mod History
pub mod Originals
use workspace_janitor.Prelude.{
  String, Bool, true, false, not, ◌&&◌, ◌||◌, Option, none, some, List, [], ◌∷◌, ◌++◌, any, ◌==◌,
  ltb, is_some, str_eq, if◌then◌else◌,
}
use workspace_janitor.Core.Errors.{FieldErrors}
use workspace_janitor.Core.Retention.{Time}
use workspace_janitor.Core.Entry.{Entry}
use workspace_janitor.Core.Action.{Action}
use workspace_janitor.Core.Cleanup
use workspace_janitor.Core.Cleanup.{
  CleanupState, CleanupItem, InitialError, prepared, quarantined, investigate, can_transition_to,
  validate_initial,
}

pub record CleanupEvent : Type 0 where
  pub cleanup_id : String
  pub action_id : String
  pub from_state : Option CleanupState
  pub to_state : CleanupState
  pub occurred_at : Time
  pub reason : String

pub record CleanupStore : Type 0 where
  pub items : List CleanupItem
  pub events : List CleanupEvent

abbrev pub empty : CleanupStore
empty = record { items = []; events = [] }

pub data StoreError : Type 0 where
  invalid_initial : InitialError → StoreError
  invalid_cleanup stored_invalid : FieldErrors → StoreError
  marshal_failed duplicate not_found : StoreError
  invalid_transition state_mismatch : CleanupState → CleanupState → StoreError
  identity_rewritten move_time_rewritten deadline_rewritten snapshot_rewritten : StoreError
  evidence_removed evidence_rewritten precedes_previous evidence_too_early : StoreError

pub data Result : Type 0 where
  err : StoreError → Result
  ok : CleanupStore → Result

unfoldable pub same_key : String → String → CleanupItem → Bool
same_key cid aid c = str_eq c.cleanup_id cid && str_eq c.action_id aid

unfoldable pub lookup : String → String → List CleanupItem → Option CleanupItem
unfolding same_key
lookup cid aid [] = none
lookup cid aid (c ∷ cs) = if same_key cid aid c then some c else lookup cid aid cs

-- `cleanup_items_active_source_idx`
unfoldable pub active_source : String → CleanupItem → Bool
active_source source c =
    str_eq c.source source
    && (str_eq c.state prepared || str_eq c.state quarantined || str_eq c.state investigate)

-- The rows that keep an item from being inserted: the primary key's, or the active source's.
unfoldable pub collides : CleanupItem → CleanupItem → Bool
unfolding same_key active_source
collides item c = same_key item.cleanup_id item.action_id c || active_source item.source c

unfoldable pub insert_event : CleanupItem → CleanupEvent
insert_event c = record {
  cleanup_id = c.cleanup_id;
  action_id = c.action_id;
  from_state = none;
  to_state = c.state;
  occurred_at = c.updated_at;
  reason = c.reason;
}

unfoldable pub transition_event : CleanupItem → CleanupItem → CleanupEvent
transition_event old c = record {
  cleanup_id = c.cleanup_id;
  action_id = c.action_id;
  from_state = some old.state;
  to_state = c.state;
  occurred_at = c.updated_at;
  reason = c.reason;
}

-- The columns that the UPDATE sets.
unfoldable pub set_columns : CleanupItem → CleanupItem → CleanupItem
set_columns item row = record row {
  state = item.state;
  quarantine = item.quarantine;
  updated_at = item.updated_at;
  moved_at = item.moved_at;
  expires_at = item.expires_at;
  reason = item.reason;
}

unfoldable pub set_row : String → String → CleanupItem → List CleanupItem → List CleanupItem
unfolding same_key set_columns
set_row cid aid item [] = []
set_row cid aid item (c ∷ cs) =
    let rest = set_row cid aid item cs in
    if same_key cid aid c then set_columns item c ∷ cs else c ∷ rest

unfoldable pub changed_when_set : Option Time → Option Time → Bool
changed_when_set none next = false
changed_when_set (some t) none = true
changed_when_set (some t) (some u) = not (t == u)

unfoldable pub same_text : Option String → Option String → Bool
same_text (some a) (some b) = str_eq a b
same_text _ _ = false

-- `if err != nil { return err }`, and `if b { return e }`.
checked : Option StoreError → Result → Result
checked none r = r
checked (some e) r = err e

refuse_if : Bool → StoreError → Result → Result
refuse_if false e r = r
refuse_if true e r = err e

stored_error : Option FieldErrors → Option StoreError
stored_error none = none
stored_error (some errs) = some (stored_invalid errs)

module _ (encode_entry : Entry → Option String) (encode_action : Action → Option String) where
  unfoldable pub encodes : CleanupItem → Bool
  encodes c = is_some (encode_entry c.entry) && is_some (encode_action c.action)

  unfoldable pub insert_cleanup : CleanupItem → CleanupStore → Result
  unfolding encodes insert_event collides
  insert_cleanup item0 s =
      let item = Cleanup.normalize item0 in
      elim (validate_initial item) [
        | some e ↦ err (invalid_initial e)
        | none ↦
            if not (encodes item)
            then err marshal_failed
            else if any (collides item) s.items
            then err duplicate
            else ok (record {
              items = s.items ++ item ∷ [];
              events = s.events ++ insert_event item ∷ [];
            })
      ]

  unfoldable pub evidence_change : Option Entry → Option Entry → Option StoreError
  unfolding same_text
  evidence_change none next = none
  evidence_change (some e) none = some evidence_removed
  evidence_change (some e) (some f) =
      if not (is_some (encode_entry e))
      then some marshal_failed
      else if not (is_some (encode_entry f))
      then some marshal_failed
      else if same_text (encode_entry e) (encode_entry f)
      then none
      else some evidence_rewritten

  same_snapshots : CleanupItem → CleanupItem → Bool
  unfolding same_text
  same_snapshots old next =
      same_text (encode_entry old.entry) (encode_entry next.entry)
      && same_text (encode_action old.action) (encode_action next.action)

  unfoldable pub check_cleanup_immutable : CleanupItem → CleanupItem → Option StoreError
  unfolding changed_when_set encodes same_snapshots evidence_change
  check_cleanup_immutable old next =
      if not (str_eq old.plan_id next.plan_id)
        || not (str_eq old.source next.source)
        || not (str_eq old.destination next.destination)
        || not (old.created_at == next.created_at)
      then some identity_rewritten
      else if changed_when_set old.moved_at next.moved_at
      then some move_time_rewritten
      else if changed_when_set old.expires_at next.expires_at
      then some deadline_rewritten
      else if not (encodes old)
      then some marshal_failed
      else if not (encodes next)
      then some marshal_failed
      else if not (same_snapshots old next)
      then some snapshot_rewritten
      else evidence_change old.quarantine next.quarantine

  -- The statement and what follows it: no row is set unless the row still has the state and the
  -- snapshots that the transition was checked against.
  execute_update : CleanupItem → CleanupItem → CleanupState → CleanupStore → Result
  unfolding same_snapshots transition_event set_row
  execute_update old item expected s =
      if not (str_eq old.state expected && same_snapshots old item)
      then err (state_mismatch old.state expected)
      else ok (record {
        items = set_row item.cleanup_id item.action_id item s.items;
        events =
            if str_eq old.state item.state
            then s.events
            else s.events ++ transition_event old item ∷ [];
      })

  marshals_evidence : Option Entry → Bool
  marshals_evidence none = true
  marshals_evidence (some e) = is_some (encode_entry e)

  -- `scanCleanup` refuses a stored row that does not validate.
  transition : CleanupItem → CleanupItem → CleanupState → CleanupStore → Result
  unfolding check_cleanup_immutable execute_update marshals_evidence encodes checked refuse_if
      stored_error
  transition old item expected s = checked (stored_error (Cleanup.validate old)) (
      refuse_if (not (str_eq old.state expected)) (state_mismatch old.state expected) (
        checked (check_cleanup_immutable old item) (
          refuse_if (ltb item.updated_at old.updated_at) precedes_previous (
            refuse_if
              (not (is_some old.quarantine)
                && is_some item.quarantine
                && not (str_eq item.state quarantined))
              evidence_too_early
              (refuse_if (not (encodes item && marshals_evidence item.quarantine)) marshal_failed
                (execute_update old item expected s))))))

  unfoldable pub update_cleanup : CleanupItem → CleanupState → CleanupStore → Result
  unfolding transition
  update_cleanup item0 expected s =
      let item = Cleanup.normalize item0 in
      elim (Cleanup.validate item) [
        | some errs ↦ err (invalid_cleanup errs)
        | none ↦
            if not (can_transition_to expected item.state)
            then err (invalid_transition expected item.state)
            else elim (lookup item.cleanup_id item.action_id s.items) [
              | none ↦ err not_found
              | some old ↦ transition old item expected s
            ]
      ]
