-- ===== src/Core/Action.antt =====
-- internal/core/plan.go: one planned operation on one path.
use workspace_janitor.Prelude.{
  String, Bool, true, false, not, ◌&&◌, Option, List, [], ◌∷◌, ◌++◌, is_blank, concat,
  if◌then◌else◌,
}
use workspace_janitor.Core.Errors.{text, FieldErrors, add_if}
use workspace_janitor.Core.Paths.{is_abs_clean}
use workspace_janitor.Core.Retention
use workspace_janitor.Core.Retention.{Retention, Time, is_zero_time, none_retention}
use workspace_janitor.Core.ActionKind
use workspace_janitor.Core.ActionKind.{ActionKind, relocate}
use workspace_janitor.Core.ActionStatus
use workspace_janitor.Core.ActionStatus.{ActionStatus, pending}
use workspace_janitor.Core.ArtifactClass
use workspace_janitor.Core.ArtifactClass.{ArtifactClass, unknown_class}
use workspace_janitor.Core.Entry.{FilesystemId, Confidence, out_of_unit}

pub record RejectedAction : Type 0 where
  pub kind : ActionKind
  pub rule : String
  pub reason : String
  pub conflict : Bool

pub record Action : Type 0 where
  pub id : String
  pub plan_id : String
  pub path : String
  pub kind : ActionKind
  pub class : ArtifactClass
  pub retention : Retention
  pub confidence : Confidence
  pub status : ActionStatus
  pub destination : String
  pub filesystem_id : FilesystemId
  pub fingerprint : String
  pub reasons : List String
  pub rules : List String
  pub rejected : List RejectedAction
  pub guards : List String
  pub created_at : Time
  pub applied_at : Option Time

unfoldable pub normalize_action : Action → Action
normalize_action a = record a {
  status = if ActionStatus.is_unset a.status then pending else a.status;
  retention = if Retention.is_unset a.retention then none_retention else a.retention;
  class = if ArtifactClass.is_unset a.class then unknown_class else a.class;
}

unfoldable pub is_relocate : ActionKind → Bool
is_relocate relocate = true
is_relocate _ = false

unfoldable pub validate_action : String → Action → FieldErrors
unfolding is_relocate
validate_action field a =
    add_if (is_blank a.id) (concat (field ∷ ".id" ∷ [])) "must not be empty" []
    ++ add_if (not (is_abs_clean a.path)) (concat (field ∷ ".path" ∷ []))
        "must be an absolute, cleaned path, got %q" (text a.path ∷ [])
    ++ add_if (not (ActionKind.valid a.kind)) (concat (field ∷ ".kind" ∷ []))
        "unknown action kind %q" (text (ActionKind.to_string a.kind) ∷ [])
    ++ add_if (not (Retention.valid a.retention)) (concat (field ∷ ".retention" ∷ []))
        "unknown retention %q" (text (Retention.to_string a.retention) ∷ [])
    ++ add_if (not (ActionStatus.valid a.status)) (concat (field ∷ ".status" ∷ []))
        "unknown action status %q" (text (ActionStatus.to_string a.status) ∷ [])
    ++ add_if (out_of_unit a.confidence) (concat (field ∷ ".confidence" ∷ []))
        "must be within [0,1], got %v" []
    ++ add_if (is_relocate a.kind && not (is_abs_clean a.destination))
        (concat (field ∷ ".destination" ∷ [])) "relocate requires an absolute destination, got %q"
        (text a.destination ∷ [])
    ++ add_if (is_zero_time a.created_at) (concat (field ∷ ".created_at" ∷ [])) "must be set" []
