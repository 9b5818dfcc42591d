-- ===== src/Core/Entry.antt =====
-- internal/core/entry.go (and the two archive bindings): a discovered path with what is known of it.
use workspace_janitor.Prelude.{
  suc, ℕ, String, Bool, false, not, ◌&&◌, ◌||◌, Option, none, some, List, [], ◌∷◌, ◌++◌, any, ◌==◌,
  is_blank, concat, itoa, if◌then◌else◌,
}
use workspace_janitor.Prelude.Int.{ℤ, pos, ltb_ℤ, leb_ℤ}
use workspace_janitor.Core.Contract.{contract_version}
use workspace_janitor.Core.Errors.{text, FieldErrors, add_if}
use workspace_janitor.Core.Retention
use workspace_janitor.Core.Retention.{Retention, Time, is_zero_time}
use workspace_janitor.Core.ActionKind
use workspace_janitor.Core.ActionKind.{ActionKind}
use workspace_janitor.Core.ArtifactClass
use workspace_janitor.Core.ArtifactClass.{ArtifactClass}
use workspace_janitor.Core.EntryKind
use workspace_janitor.Core.EntryKind.{EntryKind}
use workspace_janitor.Core.Paths.{is_abs_clean}
use workspace_janitor.Core.EvidenceSource
use workspace_janitor.Core.EvidenceSource.{EvidenceSource}
use workspace_janitor.Core.ProtectionKind
use workspace_janitor.Core.ProtectionKind.{ProtectionKind}
use workspace_janitor.Core.Origin
use workspace_janitor.Core.Origin.{RecommendationOrigin}
use workspace_janitor.Core.Errors.{number}
use workspace_janitor.Core.Errors.{error_or_nil}

pub record FilesystemId : Type 0 where
  pub device : ℕ
  pub inode : ℕ

unfoldable pub zero_id : FilesystemId → Bool
zero_id f = (f.device == 0) && (f.inode == 0)

-- `a == b`
unfoldable pub id_eq : FilesystemId → FilesystemId → Bool
id_eq a b = (a.device == b.device) && (a.inode == b.inode)

unfoldable pub id_string : FilesystemId → String
id_string f = concat (itoa f.device ∷ ":" ∷ itoa f.inode ∷ [])

pub record Ownership : Type 0 where
  pub uid : ℕ
  pub gid : ℕ
  pub mode : String

pub record GitState : Type 0 where
  pub repo_root : String
  pub worktree_of : String
  pub bare : Bool
  pub remote : String
  pub branch : String
  pub head : String
  pub upstream_known : Bool
  pub last_activity : Time
  pub publication_known : Bool
  pub contents_known : Bool
  pub contents_protection : String
  pub source_approval_fingerprint : String
  pub dirty_files : ℤ
  pub stashes : ℤ
  pub unpublished_commits : ℤ
  pub locked : Bool
  pub degraded : Bool
  pub degraded_reason : String

-- `n == 0`
is_zero : ℤ → Bool
is_zero n = leb_ℤ n (pos 0) && leb_ℤ (pos 0) n

clean_state : GitState → Bool
unfolding is_zero
clean_state g =
    not g.degraded
    && is_zero g.dirty_files
    && is_zero g.stashes
    && is_zero g.unpublished_commits
    && not g.locked
    && (g.bare || g.publication_known)

-- `Clean` of a nil pointer is false.
unfoldable pub clean_git : Option GitState → Bool
unfolding clean_state is_zero
clean_git none = false
clean_git (some g) = clean_state g

pub record Evidence : Type 0 where
  pub source : EvidenceSource
  pub signal : String
  pub detail : String
  pub observed_at : Time

unfoldable pub validate_evidence : String → Evidence → FieldErrors
validate_evidence field e =
    add_if (not (EvidenceSource.valid e.source)) (concat (field ∷ ".source" ∷ []))
      "unknown evidence source %q" (text (EvidenceSource.to_string e.source) ∷ [])
    ++ add_if (is_blank e.signal) (concat (field ∷ ".signal" ∷ [])) "must not be empty" []
    ++ add_if (is_zero_time e.observed_at) (concat (field ∷ ".observed_at" ∷ [])) "must be set" []

pub record Protection : Type 0 where
  pub kind : ProtectionKind
  pub reason : String
  pub source : EvidenceSource
  pub remediation : String
  pub blocking : Bool

unfoldable pub validate_protection : String → Protection → FieldErrors
validate_protection field p =
    add_if (not (ProtectionKind.valid p.kind)) (concat (field ∷ ".kind" ∷ []))
      "unknown protection kind %q" (text (ProtectionKind.to_string p.kind) ∷ [])
    ++ add_if (not (EvidenceSource.valid p.source)) (concat (field ∷ ".source" ∷ []))
        "unknown evidence source %q" (text (EvidenceSource.to_string p.source) ∷ [])
    ++ add_if (is_blank p.reason) (concat (field ∷ ".reason" ∷ [])) "must not be empty" []

-- A float64 confidence: not a number, or a value in thousandths.
pub data Confidence : Type 0 where
  nan : Confidence
  thousandths : ℤ → Confidence

-- `c < 0 || c > 1`: both are false of a NaN.
unfoldable pub out_of_unit : Confidence → Bool
out_of_unit nan = false
out_of_unit (thousandths c) = ltb_ℤ c (pos 0) || ltb_ℤ (pos 1000) c

-- `c >= 0 && c <= 1`: both are false of a NaN.
unfoldable pub in_unit : Confidence → Bool
in_unit nan = false
in_unit (thousandths c) = not (ltb_ℤ c (pos 0)) && not (ltb_ℤ (pos 1000) c)

pub record Recommendation : Type 0 where
  pub action : ActionKind
  pub class : ArtifactClass
  pub retention : Retention
  pub confidence : Confidence
  pub origin : RecommendationOrigin
  pub reasons : List String
  pub decided_at : Time

unfoldable pub validate_recommendation : String → Recommendation → FieldErrors
validate_recommendation field r =
    add_if (not (ActionKind.valid r.action)) (concat (field ∷ ".action" ∷ []))
      "unknown action kind %q" (text (ActionKind.to_string r.action) ∷ [])
    ++ add_if (not (ArtifactClass.valid r.class)) (concat (field ∷ ".class" ∷ []))
        "unknown artifact class %q" (text (ArtifactClass.to_string r.class) ∷ [])
    ++ add_if (not (Retention.valid r.retention)) (concat (field ∷ ".retention" ∷ []))
        "unknown retention %q" (text (Retention.to_string r.retention) ∷ [])
    ++ add_if (not (Origin.valid r.origin)) (concat (field ∷ ".origin" ∷ []))
        "unknown recommendation origin %q" (text (Origin.to_string r.origin) ∷ [])
    ++ add_if (out_of_unit r.confidence) (concat (field ∷ ".confidence" ∷ []))
        "must be within [0,1], got %v" []

pub record ExportArchiveBinding : Type 0 where
  pub manifest : String
  pub manifest_sha256 : String

pub record WorkspaceArchiveBinding : Type 0 where
  pub manifest : String
  pub manifest_sha256 : String
  pub member_count : ℕ
  pub tree_digest : String
  pub created_at : Time

pub record Entry : Type 0 where
  pub contract_version : ℕ
  pub path : String
  pub root : String
  pub kind : EntryKind
  pub filesystem_id : FilesystemId
  pub ownership : Ownership
  pub size_bytes : ℤ
  pub size_is_lower_bound : Bool
  pub size_is_deep : Bool
  pub modified_at : Time
  pub latest_modified_at : Time
  pub accessed_at : Time
  pub symlink_target : String
  pub canonical_path : String
  pub destination : String
  pub fingerprint : String
  pub class : ArtifactClass
  pub git : Option GitState
  pub export_archive : Option ExportArchiveBinding
  pub workspace_archive : Option WorkspaceArchiveBinding
  pub evidence : List Evidence
  pub protections : List Protection
  pub recommendation : Option Recommendation
  pub observed_at : Time

abbrev pub is_blocking : Protection → Bool
is_blocking p = p.blocking

unfoldable pub protected : Entry → Bool
protected e = any is_blocking e.protections

-- `errs = append(errs, x.Validate(fmt.Sprintf("name[%d]", i))...)` over a list, from index `i`.
unfoldable pub validate_each {ℓ} :
    {A : Type ℓ} → (String → A → FieldErrors) → String → ℕ → List A → FieldErrors
validate_each check name i [] = []
validate_each check name i (x ∷ xs) =
    check (concat (name ∷ "[" ∷ itoa i ∷ "]" ∷ [])) x ++ validate_each check name (suc i) xs

validate_optional : Option Recommendation → FieldErrors
unfolding validate_recommendation
validate_optional none = []
validate_optional (some r) = validate_recommendation "recommendation" r

entry_errors : Entry → FieldErrors
unfolding validate_each validate_evidence validate_protection validate_optional
entry_errors e =
    add_if (not (e.contract_version == contract_version)) "contract_version" "must be %d, got %d"
      (number (pos contract_version) ∷ number (pos e.contract_version) ∷ [])
    ++ add_if (not (is_abs_clean e.path)) "path" "must be an absolute, cleaned path, got %q"
        (text e.path ∷ [])
    ++ add_if (not (is_abs_clean e.root)) "root" "must be an absolute, cleaned path, got %q"
        (text e.root ∷ [])
    ++ add_if (not (EntryKind.valid e.kind)) "kind" "unknown entry kind %q"
        (text (EntryKind.to_string e.kind) ∷ [])
    ++ add_if (not (ArtifactClass.valid e.class)) "class" "unknown artifact class %q"
        (text (ArtifactClass.to_string e.class) ∷ [])
    ++ add_if (ltb_ℤ e.size_bytes (pos 0)) "size_bytes" "must not be negative, got %d"
        (number e.size_bytes ∷ [])
    ++ add_if (is_zero_time e.observed_at) "observed_at" "must be set" []
    ++ validate_each validate_evidence "evidence" 0 e.evidence
    ++ validate_each validate_protection "protections" 0 e.protections
    ++ validate_optional e.recommendation

unfoldable pub validate : Entry → Option FieldErrors
unfolding entry_errors
validate e = error_or_nil (entry_errors e)

default_version : ℕ → ℕ
default_version v = if v == 0 then contract_version else v

-- `UTC` leaves every instant alone, so only the defaults change a record.
unfoldable pub normalize : Entry → Entry
unfolding default_version
normalize e = record e {
  contract_version = default_version e.contract_version;
  class = if ArtifactClass.is_unset e.class then ArtifactClass.unknown_class else e.class;
  kind = if EntryKind.is_unset e.kind then EntryKind.unknown_kind else e.kind;
}
