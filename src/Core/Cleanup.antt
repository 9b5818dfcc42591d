-- ===== src/Core/Cleanup.antt =====
-- internal/core/cleanup.go: the durable phase of one cleanup action, and its journal record.
use workspace_janitor.Prelude.{
  ℕ, String, Bool, true, false, not, ◌&&◌, ◌||◌, Option, none, some, [], ◌∷◌, ◌++◌, any, ◌==◌, ltb,
  codes, is_blank, is_some, str_eq, if◌then◌else◌,
}
use workspace_janitor.Core.Errors.{text, FieldErrors, add_if, error_or_nil}
use workspace_janitor.Core.Paths.{is_abs_clean}
use workspace_janitor.Core.Retention.{Time, is_zero_time}
use workspace_janitor.Core.Entry
use workspace_janitor.Core.Entry.{Entry, id_eq}
use workspace_janitor.Core.Action.{Action, normalize_action, validate_action}

-- A state is any string, as in the source; these are the constants.
abbrev pub CleanupState : Type 0
CleanupState = String

abbrev pub prepared : CleanupState
prepared = "prepared"

abbrev pub quarantined : CleanupState
quarantined = "quarantined"

abbrev pub restored : CleanupState
restored = "restored"

abbrev pub deleted : CleanupState
deleted = "deleted"

abbrev pub investigate : CleanupState
investigate = "investigate"

unfoldable pub valid : CleanupState → Bool
valid s =
    str_eq s prepared
    || str_eq s quarantined
    || str_eq s restored
    || str_eq s deleted
    || str_eq s investigate

unfoldable pub can_transition_to : CleanupState → CleanupState → Bool
can_transition_to s next =
    if str_eq s prepared
    then str_eq next quarantined || str_eq next restored || str_eq next investigate
    else if str_eq s quarantined
    then str_eq next restored || str_eq next deleted || str_eq next investigate
    else if str_eq s investigate
    then str_eq next prepared || str_eq next quarantined || str_eq next restored
    else false

pub record CleanupItem : Type 0 where
  pub cleanup_id : String
  pub plan_id : String
  pub action_id : String
  pub source : String
  pub destination : String
  pub state : CleanupState
  pub entry : Entry
  pub action : Action
  pub quarantine : Option Entry
  pub created_at : Time
  pub updated_at : Time
  pub moved_at : Option Time
  pub expires_at : Option Time
  pub reason : String

normalize_optional : Option Entry → Option Entry
normalize_optional none = none
normalize_optional (some e) = some (Entry.normalize e)

unfoldable pub normalize : CleanupItem → CleanupItem
unfolding normalize_optional
normalize c = record c {
  entry = Entry.normalize c.entry;
  action = normalize_action c.action;
  quarantine = normalize_optional c.quarantine;
}

-- `strings.ContainsAny(id, "/\\\x00")`
is_separator : ℕ → Bool
is_separator c = (c == 47) || (c == 92) || (c == 0)

unfoldable pub unsafe_component : String → Bool
unfolding is_separator
unsafe_component id = str_eq id "." || str_eq id ".." || any is_separator (codes id)

id_errors : Bool → String → String → FieldErrors
unfolding unsafe_component
id_errors component field value =
    add_if (is_blank value) field "must not be empty" []
    ++ add_if (component && unsafe_component value) field "must be a single safe path component" []

zero_when_set : Option Time → Bool
zero_when_set none = false
zero_when_set (some t) = is_zero_time t

-- `if err := x.Validate(); err != nil { errs.Add(field, "%v", err) }`
entry_failures : String → Entry → FieldErrors
entry_failures field e = add_if (is_some (Entry.validate e)) field "%v" []

quarantine_errors : CleanupItem → Option Entry → FieldErrors
unfolding entry_failures
quarantine_errors c none = []
quarantine_errors c (some q) =
    entry_failures "quarantined" q
    ++ add_if (not (str_eq q.path c.destination)) "quarantined.path" "must match destination" []
    ++ add_if (not (id_eq q.filesystem_id c.entry.filesystem_id)) "quarantined.filesystem_id"
        "must match original filesystem identity" []

unfoldable pub cleanup_errors : CleanupItem → FieldErrors
unfolding id_errors zero_when_set entry_failures quarantine_errors
cleanup_errors c =
    id_errors true "cleanup_id" c.cleanup_id
    ++ id_errors false "plan_id" c.plan_id
    ++ id_errors true "action_id" c.action_id
    ++ add_if (not (is_abs_clean c.source)) "source" "must be an absolute, cleaned path, got %q"
        (text c.source ∷ [])
    ++ add_if (not (is_abs_clean c.destination)) "destination"
        "must be an absolute, cleaned path, got %q" (text c.destination ∷ [])
    ++ add_if (str_eq c.source c.destination) "destination" "must differ from source" []
    ++ add_if (not (valid c.state)) "state" "unknown cleanup state %q" (text c.state ∷ [])
    ++ add_if (is_zero_time c.created_at) "created_at" "must be set" []
    ++ add_if (is_zero_time c.updated_at || ltb c.updated_at c.created_at) "updated_at"
        "must be set and not precede created_at" []
    ++ add_if (zero_when_set c.moved_at) "moved_at" "must be set when present" []
    ++ add_if (zero_when_set c.expires_at) "expires_at" "must be set when present" []
    ++ entry_failures "entry" c.entry
    ++ validate_action "action" c.action
    ++ add_if (not (str_eq c.entry.path c.source) || not (str_eq c.action.path c.source)) "source"
        "must match entry and action paths" []
    ++ add_if (not (str_eq c.action.id c.action_id) || not (str_eq c.action.plan_id c.plan_id))
        "action" "ID and plan ID must match the cleanup item" []
    ++ add_if (not (id_eq c.entry.filesystem_id c.action.filesystem_id)) "action.filesystem_id"
        "must match entry filesystem identity" []
    ++ quarantine_errors c c.quarantine
    ++ add_if (str_eq c.state quarantined && not (is_some c.quarantine)) "quarantined"
        "required in quarantined state" []

unfoldable pub validate : CleanupItem → Option FieldErrors
unfolding cleanup_errors
validate c = error_or_nil (cleanup_errors c)

pub data InitialError : Type 0 where
  invalid_item : FieldErrors → InitialError
  not_prepared : CleanupState → InitialError
  already_moved already_quarantined : InitialError

initial_rest : CleanupItem → Option FieldErrors → Option InitialError
initial_rest c (some errs) = some (invalid_item errs)
initial_rest c none =
    if not (str_eq c.state prepared)
    then some (not_prepared c.state)
    else if is_some c.moved_at
    then some already_moved
    else if is_some c.quarantine
    then some already_quarantined
    else none

unfoldable pub validate_initial : CleanupItem → Option InitialError
unfolding initial_rest
validate_initial c = initial_rest c (validate c)
