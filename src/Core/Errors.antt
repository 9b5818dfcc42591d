-- ===== src/Core/Errors.antt =====
-- internal/core/errors.go. A field error keeps its format and arguments; `fmt.Sprintf` only renders
-- them for a reader.
use workspace_janitor.Prelude.{String, Bool, List, [], ◌∷◌, Option, none, some}
use workspace_janitor.Prelude.Int.{ℤ}

pub data Arg : Type 0 where
  text : String → Arg
  number : ℤ → Arg

pub record FieldError : Type 0 where
  pub field : String
  pub format : String
  pub args : List Arg

abbrev pub FieldErrors : Type 0
FieldErrors = List FieldError

-- One failure, where `b` holds: `if b { errs.Add(field, format, args...) }`.
unfoldable pub add_if : Bool → String → String → List Arg → FieldErrors
add_if Bool.true field format args = record { field = field; format = format; args = args } ∷ []
add_if Bool.false field format args = []

-- `ErrorOrNil`: no error at all when there are no failures.
unfoldable pub error_or_nil : FieldErrors → Option FieldErrors
error_or_nil [] = none
error_or_nil (e ∷ es) = some (e ∷ es)
