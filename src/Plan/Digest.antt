-- ===== src/Plan/Digest.antt =====
-- internal/plan/plan.go: the digests and identifiers of a plan, and the check that it still describes
-- what it was built from. SHA-256 in hex, the JSON of a policy and `%g` are arguments.
pub mod Binding
use Prim.Native.String.{len, slice}
use workspace_janitor.Prelude.{
  String, Bool, true, false, not, ◌||◌, Option, none, some, List, [], ◌∷◌, map, is_empty, str_eq,
  str_lt, sort_by, concat, join, ltb, is_some, if◌then◌else◌,
}
use workspace_janitor.Core.ActionKind
use workspace_janitor.Core.ArtifactClass
use workspace_janitor.Core.Retention
use workspace_janitor.Core.Entry.{Entry, Recommendation, Confidence}
use workspace_janitor.Core.Plan.{Plan}
use workspace_janitor.Plan.Policy.{Policy}
use workspace_janitor.Plan.Rules.{Decision}

-- `fingerprints[path]` after the loop: the last entry with that path counts.
fingerprint_at : String → List Entry → Option String
fingerprint_at path [] = none
fingerprint_at path (e ∷ es) =
    let later = fingerprint_at path es in
    elim later [ some f ↦ some f | none ↦ if str_eq e.path path then some e.fingerprint else none ]

or_empty : Option String → String
or_empty none = ""
or_empty (some s) = s

digest_lines : List Entry → List String → List String
unfolding fingerprint_at or_empty
digest_lines es [] = []
digest_lines es (path ∷ paths) =
    path ∷ "\0" ∷ or_empty (fingerprint_at path es) ∷ "\0" ∷ digest_lines es paths

unfoldable pub evidence_text : List Entry → String
unfolding digest_lines
evidence_text es = concat (digest_lines es (sort_by str_lt (map (λ e. e.path) es)))

-- `advice[path]`
unfoldable pub advice_at : String → List (String × Recommendation) → Option Recommendation
advice_at path [] = none
advice_at path ((p, r) ∷ rest) =
    let later = advice_at path rest in if str_eq p path then some r else later

module _ (sha256_hex : String → String) where
  unfoldable pub evidence_digest : List Entry → String
  evidence_digest es = sha256_hex (evidence_text es)

  unfoldable pub plan_id : String → String → String → String → String → String
  plan_id scan_id evidence policy advisor advice =
      let sum = sha256_hex (
        concat (scan_id ∷ "\0" ∷ evidence ∷ "\0" ∷ policy ∷ "\0" ∷ advisor ∷ "\0" ∷ advice ∷ [])) in
      concat ("plan-" ∷ scan_id ∷ "-" ∷ slice sum 0 12 ∷ [])

  unfoldable pub action_id : String → String → String
  action_id plan path =
      let sum = sha256_hex (concat (plan ∷ "\0" ∷ path ∷ [])) in
      concat ("action-" ∷ slice sum 0 16 ∷ [])

module _ (encode_policy : Policy → Option String) (sha256_hex : String → String) where
  policy_sum : Option String → String
  policy_sum none = "unavailable"
  policy_sum (some encoded) = sha256_hex encoded

  unfoldable pub policy_digest : Policy → String
  unfolding policy_sum
  policy_digest p = policy_sum (encode_policy p)

module _ (format_g : Confidence → String) (sha256_hex : String → String) where
  advice_line : String → Recommendation → List String
  advice_line path r =
      path
      ∷ "\0"
      ∷ ActionKind.to_string r.action
      ∷ "\0"
      ∷ ArtifactClass.to_string r.class
      ∷ "\0"
      ∷ Retention.to_string r.retention
      ∷ "\0"
      ∷ format_g r.confidence
      ∷ "\0"
      ∷ join "\u{1}" r.reasons
      ∷ "\0"
      ∷ []

  -- The answers hashed, and whether there was one.
  advice_lines : List (String × Recommendation) → List (Entry × Decision) → Bool × List String
  unfolding advice_line
  advice_lines advice [] = (false, [])
  advice_lines advice ((e, d) ∷ rest) =
      let later = advice_lines advice rest in
      elim (advice_at e.path advice) [
        | none ↦ later
        | some r ↦ if d.ambiguous then (true, concat (advice_line e.path r) ∷ later.1) else later
      ]

  unfoldable pub advice_digest : List (Entry × Decision) → List (String × Recommendation) → String
  unfolding advice_lines
  advice_digest eds advice =
      let (applied, lines) = advice_lines advice eds in
      if not applied then "" else sha256_hex (concat lines)

short : String → String
short digest =
    if ltb 12 (len digest) then slice digest 0 12 else if is_empty digest then "unknown" else digest

-- The errors wrap `ErrBindingMismatch`; each says what does not match, and how.
pub data BindingError : Type 0 where
  other_scan evidence_changed policy_changed : String → String → String → BindingError

module _ (encode_policy : Policy → Option String) (sha256_hex : String → String) where
  unfoldable pub verify_binding : Plan → String → List Entry → Policy → Option BindingError
  unfolding short
  verify_binding plan scan_id entries policy =
      let evidence = evidence_digest sha256_hex entries in
      let current = policy_digest encode_policy sha256_hex policy in
      if not (str_eq plan.scan_id scan_id)
      then some (other_scan plan.id plan.scan_id scan_id)
      else if not (str_eq evidence plan.evidence_digest)
      then some (evidence_changed plan.id (short plan.evidence_digest) (short evidence))
      else if not (str_eq current plan.policy_digest)
      then some (policy_changed plan.id (short plan.policy_digest) (short current))
      else none
