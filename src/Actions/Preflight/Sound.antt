-- ===== src/Actions/Preflight/Sound.antt =====
-- What a mutation has passed before another program makes it.
use workspace_janitor.Prelude.{
  ◌≡◌, ◌⊎◌, ◌∙◌, sym, List, refl, String, true, false, none, is_some, str_eq, Bool-cases, inl, inr,
  arith,
}
use workspace_janitor.Core.ActionKind.{ActionKind, delete_candidate, quarantine, eq, mutating}
use workspace_janitor.Core.EntryKind as EntryKind
use workspace_janitor.Core.EntryKind.{directory}
use workspace_janitor.Core.Entry.{Entry, Protection}
use workspace_janitor.Core.Action.{Action}
use workspace_janitor.Core.Verdict.{allows, refused}
use workspace_janitor.Safety.Engine.{evaluate}
use workspace_janitor.Safety.Risk.{unsafe}
use workspace_janitor.Safety.Revalidate.{
  Handle, Observation, observed, failed as unobserved, fresh_input,
}
use workspace_janitor.Safety.Revalidate.Sound.{changed, must_refuse, refused-revalidate}
use workspace_janitor.Actions.{found, System, Engine, answer_error}
use workspace_janitor.Actions.Observe.{recollect_with_size}
use workspace_janitor.Actions.Observe.Unused.{Answer-cases}
use workspace_janitor.Actions.Preflight.{
  same_kind, other_than_cache, other_than_export, preflight_input, preflight_refusal,
  preflight_entry, preflight_official, preflight_export, export_input,
}

Observation-cases :
    (o : Observation)
    → ((e : String) × (o ≡ unobserved e)) ⊎ ((fresh : Entry) × (o ≡ observed fresh))
Observation-cases (observed fresh) = inr (fresh, refl)
Observation-cases (unobserved e) = inl (e, refl)

deletion_mutates : (k : ActionKind) → eq k delete_candidate ≡ true → mutating k ≡ true
unfolding eq mutating
deletion_mutates delete_candidate h = refl
deletion_mutates k h = cc

quarantine_mutates : (k : ActionKind) → eq k quarantine ≡ true → mutating k ≡ true
unfolding eq mutating
quarantine_mutates quarantine h = refl
quarantine_mutates k h = cc

module _ {F : Type 0} (sys : System F) (eng : Engine) (format_v : List Protection → String) where
  -- The object was opened and observed again, the fresh entry is at no risk, and neither it nor the
  -- handle nor the digest differs from what was planned.
  pub record Cleared (fs : F) (entry : Entry) (action : Action) : Type 0 where
    pub handle : Handle
    pub opened : sys.open_handle fs entry.path ≡ found handle
    pub fresh : Entry
    pub seen : recollect_with_size sys eng fs entry.path entry.size_is_deep ≡ observed fresh
    pub safe :
        unsafe (
          fresh_input sys.sha256_hex
            (preflight_input sys eng format_v fs entry action handle)
            fresh)
        ≡ false
    pub unchanged :
        changed sys.sha256_hex (preflight_input sys eng format_v fs entry action handle) fresh
        ≡ false

  observed-Cleared :
      (fs : F) (entry : Entry) (action : Action) (handle : Handle)
      → sys.open_handle fs entry.path ≡ found handle
      → must_refuse sys.sha256_hex
          (preflight_input sys eng format_v fs entry action handle)
          (preflight_input sys eng format_v fs entry action handle).recollect
        ≡ false
      → Cleared fs entry action
  unfolding must_refuse preflight_input
  observed-Cleared fs entry action handle opened h =
      elim (Observation-cases (recollect_with_size sys eng fs entry.path entry.size_is_deep)) [
        | inl (e, k) ↦ ground arith
        | inr (fresh, k) ↦ record {
          handle = handle;
          opened = opened;
          fresh = fresh;
          seen = k;
          safe = ground arith;
          unchanged = ground arith;
        }
      ]

  entry-Cleared :
      (fs : F) (entry : Entry) (action : Action) (label : String)
      → preflight_entry sys eng format_v fs entry action label ≡ none
      → mutating action.kind ≡ true
      → Cleared fs entry action
  unfolding preflight_entry preflight_refusal allows answer_error
  entry-Cleared fs entry action label h mutates =
      elim (Answer-cases (sys.open_handle fs entry.path)) [
        | inl (e, k) ↦ ground arith
        | inr (handle, k) ↦
            let i = preflight_input sys eng format_v fs entry action handle in
            observed-Cleared fs entry action handle k
              (sym (refused-revalidate sys.sha256_hex i) ∙ ground arith)
      ]

  -- For all files, entries and actions, an official prune that its preflight lets through deletes the
  -- entry's own path, which is a directory and no repository; the entry could be opened and observed
  -- again, the fresh entry is at no risk, and neither it nor the handle nor the digest differs from
  -- the plan.
  pub preflight_official-Cleared :
      (fs : F) (entry : Entry) (action : Action)
      → preflight_official sys eng format_v fs entry action ≡ none
      → (eq action.kind delete_candidate ≡ true)
        × (str_eq action.path entry.path ≡ true)
        × (str_eq (EntryKind.to_string entry.kind) "directory" ≡ true)
        × (is_some entry.git ≡ false)
        × Cleared fs entry action
  unfolding preflight_official other_than_cache same_kind EntryKind.to_string
  preflight_official-Cleared fs entry action h = elim (Bool-cases (other_than_cache entry action)) [
    | inl q ↦ ground arith
    | inr q ↦ (
      ground arith,
      ground arith,
      ground arith,
      ground arith,
      entry-Cleared fs entry action "official prune" (ground arith)
          (deletion_mutates action.kind (ground arith)),
    )
  ]

  -- For all files, entries and actions, an export that its preflight lets through is quarantined at
  -- the entry's own path, which is a file, no repository, and the one that the archive is made of; the
  -- entry as planned is not refused, it could be opened and observed again, the fresh entry is at no
  -- risk, and neither it nor the handle nor the digest differs from the plan.
  pub preflight_export-Cleared :
      (fs : F) (entry : Entry) (action : Action)
      → preflight_export sys eng format_v fs entry action ≡ none
      → (eq action.kind quarantine ≡ true)
        × (str_eq action.path entry.path ≡ true)
        × (str_eq (EntryKind.to_string entry.kind) "file" ≡ true)
        × (is_some entry.git ≡ false)
        × (str_eq eng.options.archive_creation_path entry.path ≡ true)
        × (refused (evaluate (export_input sys eng format_v fs entry)) ≡ false)
        × Cleared fs entry action
  unfolding preflight_export other_than_export same_kind EntryKind.to_string allows
  preflight_export-Cleared fs entry action h =
      let initial = evaluate (export_input sys eng format_v fs entry) in
      elim (Bool-cases (other_than_export sys eng format_v entry action)) [
        | inl q ↦ ground arith
        | inr q ↦
            let mutates = quarantine_mutates action.kind (ground arith) in
            elim (Bool-cases (refused initial)) [
              | inl r ↦ ground arith
              | inr r ↦ (
                ground arith,
                ground arith,
                ground arith,
                ground arith,
                ground arith,
                r,
                entry-Cleared fs entry action "export archive" (ground arith) mutates,
              )
            ]
      ]
