-- ===== src/Core/Scan.antt =====
-- internal/core/plan.go: a scan and the reports of its collectors.
use workspace_janitor.Prelude.{
  ℕ, suc, String, Bool, true, false, not, Option, List, [], ◌∷◌, ◌++◌, is_blank, concat, itoa,
  str_eq, str_lt, ◌==◌, sort_by, if◌then◌else◌, any,
}
use workspace_janitor.Prelude.Int.{ℤ, pos, ltb_ℤ}
use workspace_janitor.Core.Contract.{contract_version}
use workspace_janitor.Core.Errors.{text, number, FieldErrors, add_if, error_or_nil}
use workspace_janitor.Core.Paths.{is_abs_clean}
use workspace_janitor.Core.Retention.{Time, is_zero_time}
use workspace_janitor.Core.CollectorStatus
use workspace_janitor.Core.CollectorStatus.{CollectorStatus}
use workspace_janitor.Core.ScanStatus
use workspace_janitor.Core.ScanStatus.{ScanStatus, running}

pub record CollectorReport : Type 0 where
  pub name : String
  pub status : CollectorStatus
  pub detail : String
  pub visited : ℤ
  pub recorded : ℤ
  pub unknowns : ℤ

negative_count : String → String → ℤ → FieldErrors
negative_count field name value =
    add_if (ltb_ℤ value (pos 0)) (concat (field ∷ "." ∷ name ∷ [])) "must not be negative, got %d"
      (number value ∷ [])

unfoldable pub validate_report : String → CollectorReport → FieldErrors
unfolding negative_count
validate_report field r =
    add_if (is_blank r.name) (concat (field ∷ ".name" ∷ [])) "must not be empty" []
    ++ add_if (not (CollectorStatus.valid r.status)) (concat (field ∷ ".status" ∷ []))
        "unknown collector status %q" (text (CollectorStatus.to_string r.status) ∷ [])
    ++ negative_count field "visited" r.visited
    ++ negative_count field "recorded" r.recorded
    ++ negative_count field "unknowns" r.unknowns

pub record Scan : Type 0 where
  pub contract_version : ℕ
  pub id : String
  pub roots : List String
  pub status : ScanStatus
  pub started_at : Time
  pub finished_at : Option Time
  pub entry_count : ℤ
  pub collectors : List CollectorReport
  pub error : String

unfoldable pub name_less : CollectorReport → CollectorReport → Bool
name_less a b = str_lt a.name b.name

unfoldable pub normalize : Scan → Scan
unfolding name_less
normalize s = record s {
  contract_version = if s.contract_version == 0 then contract_version else s.contract_version;
  status = if ScanStatus.is_unset s.status then running else s.status;
  collectors = sort_by name_less s.collectors;
}

root_errors : ℕ → List String → FieldErrors
root_errors i [] = []
root_errors i (root ∷ roots) =
    add_if (not (is_abs_clean root)) (concat ("roots[" ∷ itoa i ∷ "]" ∷ []))
      "must be an absolute, cleaned path, got %q" (text root ∷ [])
    ++ root_errors (suc i) roots

-- `seen` holds the names of the reports before.
unfoldable pub collector_errors : List String → ℕ → List CollectorReport → FieldErrors
unfolding validate_report
collector_errors seen i [] = []
collector_errors seen i (r ∷ rs) =
    validate_report (concat ("collectors[" ∷ itoa i ∷ "]" ∷ [])) r
    ++ add_if (any (str_eq r.name) seen) (concat ("collectors[" ∷ itoa i ∷ "].name" ∷ []))
        "duplicate collector report %q" (text r.name ∷ [])
    ++ collector_errors (r.name ∷ seen) (suc i) rs

no_roots : List String → Bool
no_roots [] = true
no_roots (root ∷ roots) = false

scan_errors : Scan → FieldErrors
unfolding root_errors collector_errors no_roots
scan_errors s =
    add_if (not (s.contract_version == contract_version)) "contract_version" "must be %d, got %d"
      (number (pos contract_version) ∷ number (pos s.contract_version) ∷ [])
    ++ add_if (is_blank s.id) "id" "must not be empty" []
    ++ add_if (no_roots s.roots) "roots" "must contain at least one root" []
    ++ root_errors 0 s.roots
    ++ add_if (not (ScanStatus.valid s.status)) "status" "unknown scan status %q"
        (text (ScanStatus.to_string s.status) ∷ [])
    ++ add_if (is_zero_time s.started_at) "started_at" "must be set" []
    ++ add_if (ltb_ℤ s.entry_count (pos 0)) "entry_count" "must not be negative, got %d"
        (number s.entry_count ∷ [])
    ++ collector_errors [] 0 s.collectors

unfoldable pub validate : Scan → Option FieldErrors
unfolding scan_errors
validate s = error_or_nil (scan_errors s)
