-- ===== src/Store/Cleanup/Journal.antt =====
-- What a committed change of the cleanup table did: the row, its new columns and its one event.
use workspace_janitor.Prelude.{
  refl, is_some, ◌&&◌, String, ◌≡◌, true, false, Option, none, some, [], ◌∷◌, ◌++◌, any,
  Option-cases, ltb, str_eq, arith, Bool-cases, inl, inr,
}
use text.Mathlib.TextEquality.{eq_iff}
use workspace_janitor.Core.Entry.{Entry}
use workspace_janitor.Core.Action.{Action}
use workspace_janitor.Core.Cleanup
use workspace_janitor.Core.Cleanup.{
  CleanupState, CleanupItem, prepared, quarantined, restored, investigate, deleted,
  can_transition_to, validate_initial,
}
use workspace_janitor.Store.Cleanup.{
  marshal_failed, encodes, marshals_evidence, CleanupStore, ok, lookup, set_row, transition_event,
  update_cleanup, transition, execute_update, check_cleanup_immutable,
}
use workspace_janitor.Store.Cleanup.{collides}
use workspace_janitor.Store.Cleanup.{insert_cleanup}
use workspace_janitor.Store.Cleanup.{insert_event}
use workspace_janitor.Store.Cleanup.{refuse_if}
use workspace_janitor.Store.Cleanup.{checked}
use workspace_janitor.Store.Cleanup.{StoreError}
use workspace_janitor.Prelude.{Bool}
use workspace_janitor.Store.Cleanup.{Result}
use workspace_janitor.Store.Cleanup.{stored_error}
use workspace_janitor.Prelude.{not}
use workspace_janitor.Store.Cleanup.{state_mismatch}
use workspace_janitor.Store.Cleanup.{precedes_previous}
use workspace_janitor.Store.Cleanup.{evidence_too_early}

self_transition : (s : CleanupState) → can_transition_to s s ≡ false
unfolding can_transition_to
self_transition s = elim (Bool-cases (str_eq s prepared)) [
  | inl e ↦ rw ((eq_iff s prepared).0 e)
  | inr e ↦ elim (Bool-cases (str_eq s quarantined)) [
    | inl f ↦ rw ((eq_iff s quarantined).0 f)
    | inr f ↦ elim (Bool-cases (str_eq s investigate)) [
      | inl g ↦ rw ((eq_iff s investigate).0 g)
      | inr g ↦ rw (e, f, g)
    ]
  ]
]

-- A state never moves to itself.
pub can_transition_to-irreflexive :
    (s t : CleanupState) → can_transition_to s t ≡ true → str_eq s t ≡ false
can_transition_to-irreflexive s t h = elim (Bool-cases (str_eq s t)) [
  | inl e ↦ ground (arith, self_transition s, (eq_iff s t).0 e)
  | inr e ↦ e
]

-- If a state may transition to deleted, then it is the quarantined state.
pub deleted_from_quarantined :
    (s : CleanupState) → can_transition_to s deleted ≡ true → s ≡ quarantined
unfolding can_transition_to
deleted_from_quarantined s h = elim (Bool-cases (str_eq s quarantined)) [
  | inl e ↦ (eq_iff s quarantined).0 e
  | inr e ↦ ground arith
]

checked-ok :
    (o : Option StoreError) (r : Result) (s' : CleanupStore)
    → checked o r ≡ ok s'
    → (o ≡ none) × (r ≡ ok s')
unfolding checked
checked-ok none r s' h = (refl, h)
checked-ok (some e) r s' h = cc

refuse_if-ok :
    (b : Bool) (e : StoreError) (r : Result) (s' : CleanupStore)
    → refuse_if b e r ≡ ok s'
    → (b ≡ false) × (r ≡ ok s')
unfolding refuse_if
refuse_if-ok false e r s' h = (refl, h)
refuse_if-ok true e r s' h = cc

module _ (encode_entry : Entry → Option String) (encode_action : Action → Option String) where
  -- The row of the table that an update replaced, and the store that it left.
  pub record Updated (item : CleanupItem) (s s' : CleanupStore) : Type 0 where
    pub old : CleanupItem
    pub found : lookup item.cleanup_id item.action_id s.items ≡ some old
    pub allowed : can_transition_to old.state item.state ≡ true
    pub immutable : check_cleanup_immutable encode_entry encode_action old item ≡ none
    pub advanced : ltb item.updated_at old.updated_at ≡ false
    pub items : s'.items ≡ set_row item.cleanup_id item.action_id item s.items
    pub events : s'.events ≡ s.events ++ transition_event old item ∷ []

  transition-ok :
      (old item : CleanupItem) (expected : CleanupState) (s s' : CleanupStore)
      → can_transition_to expected item.state ≡ true
      → transition encode_entry encode_action old item expected s ≡ ok s'
      → (str_eq old.state expected ≡ true)
        × (check_cleanup_immutable encode_entry encode_action old item ≡ none)
        × (ltb item.updated_at old.updated_at ≡ false)
        × (execute_update encode_entry encode_action old item expected s ≡ ok s')
  unfolding transition
  transition-ok old item expected s s' t h =
      let stored = checked-ok (stored_error (Cleanup.validate old)) _ s' h in
      let state =
        refuse_if-ok (not (str_eq old.state expected)) (state_mismatch old.state expected) _ s'
          stored.1 in
      let immutable =
        checked-ok (check_cleanup_immutable encode_entry encode_action old item) _ s' state.1 in
      let advanced =
        refuse_if-ok (ltb item.updated_at old.updated_at) precedes_previous _ s' immutable.1 in
      let timely =
        refuse_if-ok
          (not (is_some old.quarantine)
            && is_some item.quarantine
            && not (str_eq item.state quarantined))
          evidence_too_early _ s' advanced.1 in
      let encoded =
        refuse_if-ok
          (not (
            encodes encode_entry encode_action item
            && marshals_evidence encode_entry encode_action item.quarantine))
          marshal_failed _ s' timely.1 in
      (ground (arith, state.0), immutable.0, advanced.0, encoded.1)

  execute_update-ok :
      (old item : CleanupItem) (expected : CleanupState) (s s' : CleanupStore)
      → str_eq old.state item.state ≡ false
      → execute_update encode_entry encode_action old item expected s ≡ ok s'
      → (s'.items ≡ set_row item.cleanup_id item.action_id item s.items)
        × (s'.events ≡ s.events ++ transition_event old item ∷ [])
  unfolding execute_update
  execute_update-ok old item expected s s' d h = ground arith

  pub update_cleanup-ok :
      (item : CleanupItem) (expected : CleanupState) (s s' : CleanupStore)
      → update_cleanup encode_entry encode_action item expected s ≡ ok s'
      → Updated (Cleanup.normalize item) s s'
  unfolding update_cleanup
  update_cleanup-ok item0 expected s s' h =
      let item = Cleanup.normalize item0 in
      elim (Option-cases (lookup item.cleanup_id item.action_id s.items)) [
        | inl e ↦ ground arith
        | inr (old, e) ↦
            let allowed : can_transition_to expected item.state ≡ true = ground arith in
            let t = transition-ok old item expected s s' allowed (ground arith) in
            let same = (eq_iff old.state expected).0 t.0 in
            let allowed_old : can_transition_to old.state item.state ≡ true = ground arith in
            let done =
              execute_update-ok old item expected s s'
                (can_transition_to-irreflexive old.state item.state allowed_old) t.3 in
            record {
              old = old;
              found = e;
              allowed = allowed_old;
              immutable = t.1;
              advanced = t.2;
              items = done.0;
              events = done.1;
            }
      ]

  -- The row that an insert added, and the store that it left.
  pub record Inserted (item : CleanupItem) (s s' : CleanupStore) : Type 0 where
    pub fresh : any (collides item) s.items ≡ false
    pub initial : validate_initial item ≡ none
    pub items : s'.items ≡ s.items ++ item ∷ []
    pub events : s'.events ≡ s.events ++ insert_event item ∷ []

  pub insert_cleanup-ok :
      (item : CleanupItem) (s s' : CleanupStore)
      → insert_cleanup encode_entry encode_action item s ≡ ok s'
      → Inserted (Cleanup.normalize item) s s'
  unfolding insert_cleanup
  insert_cleanup-ok item0 s s' h = record {
    fresh = ground arith;
    initial = ground arith;
    items = ground arith;
    events = ground arith;
  }
