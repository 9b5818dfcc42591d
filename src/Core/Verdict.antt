-- ===== src/Core/Verdict.antt =====
-- internal/core/verdict.go: the safety engine's answer for one path.
pub mod Gate
use workspace_janitor.Prelude.{
  ℕ, suc, ◌+◌, String, ◌≡◌, Bool, true, false, not, ◌&&◌, ◌||◌, Option, none, some, List, [], ◌∷◌,
  ◌++◌, map, any, ltb, ◌==◌, is_blank, is_empty, str_eq, str_lt, concat, join, itoa, sort_by,
  if◌then◌else◌,
}
use workspace_janitor.Prelude.Int.{ℤ, pos}
use workspace_janitor.Core.Contract.{contract_version}
use workspace_janitor.Core.Errors.{Arg, text, number, FieldErrors, add_if, error_or_nil}
use workspace_janitor.Core.Paths.{is_abs_clean}
use workspace_janitor.Core.Retention.{Time, is_zero_time}
use workspace_janitor.Core.ActionKind.{ActionKind, mutating}
use workspace_janitor.Core.ProtectionKind
use workspace_janitor.Core.ProtectionKind.{ProtectionKind}
use workspace_janitor.Core.Entry.{Protection, is_blocking, validate_protection}

-- The last constructor stands for any string that is neither constant, the empty one included.
pub data SafetyDecision : Type 0 where
  allow refuse : SafetyDecision
  other_decision : String → SafetyDecision

unfoldable pub valid_decision : SafetyDecision → Bool
valid_decision (other_decision s) = false
valid_decision _ = true

unfoldable pub decision_string : SafetyDecision → String
decision_string allow = "allow"
decision_string refuse = "refuse"
decision_string (other_decision s) = s

unfoldable pub is_refuse : SafetyDecision → Bool
is_refuse refuse = true
is_refuse _ = false

unfoldable pub is_allow : SafetyDecision → Bool
is_allow allow = true
is_allow _ = false

pub record Verdict : Type 0 where
  pub version : ℕ
  pub path : String
  pub decision : SafetyDecision
  pub protections : List Protection
  pub guards : List String
  pub evaluated_at : Time

-- By kind, then by reason.
unfoldable pub protection_less : Protection → Protection → Bool
protection_less a b =
    if not (str_eq (ProtectionKind.to_string a.kind) (ProtectionKind.to_string b.kind))
    then str_lt (ProtectionKind.to_string a.kind) (ProtectionKind.to_string b.kind)
    else str_lt a.reason b.reason

-- The last loop of `Normalize`.
decide : List Protection → SafetyDecision
decide ps = if any is_blocking ps then refuse else allow

unfoldable pub normalize : Verdict → Verdict
unfolding decide
normalize v =
    let sorted = sort_by protection_less v.protections in
    record v {
      version = if v.version == 0 then contract_version else v.version;
      protections = sorted;
      guards = sort_by str_lt v.guards;
      decision = decide sorted;
    }

unfoldable pub refused : Verdict → Bool
refused v = is_refuse v.decision

unfoldable pub allows : Verdict → ActionKind → Bool
allows v kind = if not (mutating kind) then true else not (refused v)

seen_kind : ProtectionKind → List ProtectionKind → Bool
seen_kind k [] = false
seen_kind k (j ∷ js) =
    str_eq (ProtectionKind.to_string k) (ProtectionKind.to_string j) || seen_kind k js

kinds_from : List ProtectionKind → List Protection → List ProtectionKind
unfolding seen_kind
kinds_from seen [] = []
kinds_from seen (p ∷ ps) =
    let fresh = p.kind ∷ kinds_from (p.kind ∷ seen) ps in
    let known = kinds_from seen ps in if seen_kind p.kind seen then known else fresh

-- The distinct kinds, in order.
unfoldable pub kinds : Verdict → List ProtectionKind
unfolding kinds_from
kinds v = kinds_from [] v.protections

unfoldable pub summary : Verdict → String
summary v =
    if not (refused v)
    then "allow"
    else concat ("refuse: " ∷ join "," (map ProtectionKind.to_string (kinds v)) ∷ [])

-- One protection of a verdict, with the remedy that a refusal must name.
verdict_protection_errors : ℕ → List Protection → FieldErrors
verdict_protection_errors i [] = []
verdict_protection_errors i (p ∷ ps) =
    validate_protection (concat ("protections[" ∷ itoa i ∷ "]" ∷ [])) p
    ++ add_if (p.blocking && is_blank p.remediation)
        (concat ("protections[" ∷ itoa i ∷ "].remediation" ∷ []))
        "a refusal must tell the operator how to clear it" []
    ++ verdict_protection_errors (suc i) ps

is_nil : List String → Bool
is_nil [] = true
is_nil (g ∷ gs) = false

verdict_errors : Verdict → FieldErrors
unfolding verdict_protection_errors is_nil
verdict_errors v =
    add_if (not (v.version == contract_version)) "contract_version" "must be %d, got %d"
      (number (pos contract_version) ∷ number (pos v.version) ∷ [])
    ++ add_if (not (is_abs_clean v.path)) "path" "must be an absolute, cleaned path, got %q"
        (text v.path ∷ [])
    ++ add_if (not (valid_decision v.decision)) "decision" "unknown safety decision %q"
        (text (decision_string v.decision) ∷ [])
    ++ add_if (is_zero_time v.evaluated_at) "evaluated_at" "must be set" []
    ++ add_if (is_nil v.guards) "guards" "must name the checks that ran" []
    ++ verdict_protection_errors 0 v.protections
    ++ add_if (any is_blocking v.protections && not (is_refuse v.decision)) "decision"
        "must be %q while a blocking protection applies" (text "refuse" ∷ [])
    ++ add_if (not (any is_blocking v.protections) && not (is_allow v.decision)) "decision"
        "must be %q when no blocking protection applies" (text "allow" ∷ [])

unfoldable pub validate : Verdict → Option FieldErrors
unfolding verdict_errors
validate v = error_or_nil (verdict_errors v)
