-- ===== src/Actions/Journal/Effects.antt =====
-- What the journal writes of the executor do to the files and to the journal.
use workspace_janitor.Prelude.{
  String, ◌≡◌, refl, ◌⊎◌, inl, inr, Option, none, some, Option-cases, is_some, true, arith,
}
use workspace_janitor.Core.Cleanup
use workspace_janitor.Core.Cleanup.{CleanupItem, CleanupState}
use workspace_janitor.Store.Cleanup.{CleanupStore, Result, err, ok, update_cleanup, insert_cleanup}
use workspace_janitor.Store.Cleanup.History.{Reachable, after_update, after_insert}
use workspace_janitor.Actions.{System, Machine, Outcome}
use workspace_janitor.Actions.Journal.{
  with_state, write_journal, transacted, update, insert, save, investigated, investigate_item,
}

Result-cases : (r : Result) → ((e : _) × (r ≡ err e)) ⊎ ((s : CleanupStore) × (r ≡ ok s))
Result-cases (err e) = inl (e, refl)
Result-cases (ok s) = inr (s, refl)

module _ {F : Type 0} (sys : System F) where
  -- The journals that committed inserts and updates lead to from the empty one.
  abbrev pub Recorded : Machine F → Type 0
  Recorded m = Reachable sys.encode_entry sys.encode_action m.journal

  -- A write either leaves the machine alone or commits.
  write-cases :
      (m : Machine F) (call : CleanupStore → Result)
      → ((e : String) × (write_journal sys m call ≡ (some e, m)))
        ⊎ ((s : CleanupStore) × (call m.journal ≡ ok s)
            × (write_journal sys m call ≡ (none, record m { journal = s })))
  unfolding write_journal transacted
  write-cases m call = elim (Option-cases (sys.begin_error m.files)) [
    | inr (e, h) ↦ inl (e, ground arith)
    | inl h ↦ elim (Result-cases (call m.journal)) [
      | inl (e, k) ↦ inl (sys.store_text e, ground arith)
      | inr (s, k) ↦ elim (Option-cases (sys.commit_error m.files)) [
        | inr (e, l) ↦ inl (e, ground arith)
        | inl l ↦ inr (s, k, ground arith)
      ]
    ]
  ]

  pub update-cases :
      (item : CleanupItem) (expected : CleanupState) (m : Machine F)
      → ((e : String) × (update sys item expected m ≡ (some e, m)))
        ⊎ ((s : CleanupStore) × (update_cleanup sys.encode_entry sys.encode_action item expected
                m.journal
              ≡ ok s)
            × (update sys item expected m ≡ (none, record m { journal = s })))
  unfolding update
  update-cases item expected m =
      write-cases m (update_cleanup sys.encode_entry sys.encode_action item expected)

  pub insert-cases :
      (item : CleanupItem) (m : Machine F)
      → ((e : String) × (insert sys item m ≡ (some e, m)))
        ⊎ ((s : CleanupStore) × (insert_cleanup sys.encode_entry sys.encode_action item m.journal
              ≡ ok s)
            × (insert sys item m ≡ (none, record m { journal = s })))
  unfolding insert
  insert-cases item m = write-cases m (insert_cleanup sys.encode_entry sys.encode_action item)

  pub update-Recorded :
      (item : CleanupItem) (expected : CleanupState) (m : Machine F)
      → Recorded m
      → Recorded (update sys item expected m).1
  update-Recorded item expected m r = elim (update-cases item expected m) [
    | inl (e, h) ↦ rw h r
    | inr (s, k, h) ↦ rw h (after_update item expected m.journal s r k)
  ]

  pub insert-Recorded :
      (item : CleanupItem) (m : Machine F) → Recorded m → Recorded (insert sys item m).1
  insert-Recorded item m r = elim (insert-cases item m) [
    | inl (e, h) ↦ rw h r
    | inr (s, k, h) ↦ rw h (after_insert item m.journal s r k)
  ]

  update_files :
      (item : CleanupItem) (expected : CleanupState) (m : Machine F)
      → (update sys item expected m).1.files ≡ m.files
  update_files item expected m = elim (update-cases item expected m) [
    | inl (e, h) ↦ rw h refl
    | inr (s, k, h) ↦ rw h refl
  ]

  save_files :
      (item : CleanupItem) (expected : CleanupState) (m : Machine F)
      → (save sys item expected m).machine.files ≡ m.files
  unfolding save
  save_files item expected m = update_files item expected m

  save-Recorded :
      (item : CleanupItem) (expected : CleanupState) (m : Machine F)
      → Recorded m
      → Recorded (save sys item expected m).machine
  unfolding save
  save-Recorded item expected m r = update-Recorded item expected m r

  investigated_machine :
      (item : CleanupItem) (reason : String) (w : Option String × Machine F)
      → (investigated sys item reason w).machine ≡ w.1
  unfolding investigated
  investigated_machine item reason (some e, m) = refl
  investigated_machine item reason (none, m) = refl

  investigate_files :
      (item : CleanupItem) (reason : String) (m : Machine F)
      → (investigate_item sys item reason m).machine.files ≡ m.files
  unfolding investigate_item
  investigate_files item reason m =
      rw (investigated_machine _ reason _) (update_files _ item.state m)

  investigate-Recorded :
      (item : CleanupItem) (reason : String) (m : Machine F)
      → Recorded m
      → Recorded (investigate_item sys item reason m).machine
  unfolding investigate_item
  investigate-Recorded item reason m r =
      rw (investigated_machine _ reason _) (update-Recorded _ item.state m r)

  investigated_fails :
      (item : CleanupItem) (reason : String) (w : Option String × Machine F)
      → is_some (investigated sys item reason w).error ≡ true
  unfolding investigated
  investigated_fails item reason (some e, m) = refl
  investigated_fails item reason (none, m) = refl

  pub investigate_fails :
      (item : CleanupItem) (reason : String) (m : Machine F)
      → is_some (investigate_item sys item reason m).error ≡ true
  unfolding investigate_item
  investigate_fails item reason m = investigated_fails _ reason _

  investigated_item :
      (item : CleanupItem) (reason : String) (w : Option String × Machine F)
      → (investigated sys item reason w).item ≡ item
  unfolding investigated
  investigated_item item reason (some e, m) = refl
  investigated_item item reason (none, m) = refl

  pub investigate_state :
      (item : CleanupItem) (reason : String) (m : Machine F)
      → (investigate_item sys item reason m).item.state ≡ Cleanup.investigate
  unfolding investigate_item with_state
  investigate_state item reason m = rw (investigated_item _ reason _) refl

  investigate_source :
      (item : CleanupItem) (reason : String) (m : Machine F)
      → (investigate_item sys item reason m).item.source ≡ item.source
  unfolding investigate_item with_state
  investigate_source item reason m = rw (investigated_item _ reason _) refl

  -- The item keeps its source, the files stay as they were, and the journal is still one that committed writes lead to.
  pub record Quiet (item : CleanupItem) (m : Machine F) (o : Outcome F) : Type 0 where
    pub files : o.machine.files ≡ m.files
    pub source : o.item.source ≡ item.source
    pub recorded : Recorded m → Recorded o.machine

  pub save-Quiet :
      (item next : CleanupItem) (expected : CleanupState) (m : Machine F)
      → next.source ≡ item.source
      → Quiet item m (save sys next expected m)
  unfolding save
  save-Quiet item next expected m e = record {
    files = save_files next expected m;
    source = e;
    recorded = save-Recorded next expected m;
  }

  pub investigate-Quiet :
      (item : CleanupItem) (reason : String) (m : Machine F)
      → Quiet item m (investigate_item sys item reason m)
  investigate-Quiet item reason m = record {
    files = investigate_files item reason m;
    source = investigate_source item reason m;
    recorded = investigate-Recorded item reason m;
  }

  pub stop-Quiet :
      (item : CleanupItem) (e : Option String) (m : Machine F)
      → Quiet item m (record { item = item; error = e; machine = m })
  stop-Quiet item e m = record { files = refl; source = refl; recorded = λ r. r }
