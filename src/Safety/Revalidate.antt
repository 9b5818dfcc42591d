-- ===== src/Safety/Revalidate.antt =====
-- internal/safety/revalidate.go: the check immediately before a mutation. The collector that observes
-- the path again, and the open handle, are arguments: what they answer is their own affair.
pub mod Sound
use Prim.Native.String.{len, slice}
use workspace_janitor.Prelude.{
  ltb, ℕ, String, ◌≡◌, refl, Bool, true, false, not, ◌&&◌, ◌||◌, Option, none, some, List, [], ◌∷◌,
  ◌++◌, is_empty, str_eq, concat, codes, length, leb, if◌then◌else◌,
}
use workspace_janitor.Core.Retention.{Time, is_zero_time}
use workspace_janitor.Core.EvidenceSource
use workspace_janitor.Core.ProtectionKind.{identity_changed, collector_failure}
use workspace_janitor.Core.Entry.{Entry, Protection, FilesystemId, zero_id, id_eq, id_string}
use workspace_janitor.Core.Action.{Action}
use workspace_janitor.Core.Verdict.{Verdict, other_decision, normalize}
use workspace_janitor.Collect.Fingerprint.{fingerprint, snapshot_fingerprint}
use workspace_janitor.Safety.Input.{Input, Policy, JobRef, Target, protect}
use workspace_janitor.Safety.Guards.Raise.{raise_if}
use workspace_janitor.Safety.Engine.{add_protection, evaluate, guard_names}

-- The answer of the re-observation: an entry, or an error's text.
pub data Observation : Type 0 where
  observed : Entry → Observation
  failed : String → Observation

-- The answer of `Handle.Linked`.
pub data Linkage : Type 0 where
  linked : Bool → Linkage
  link_error : String → Linkage

pub record Handle : Type 0 where
  pub path : String
  pub identity : FilesystemId
  pub linkage : Linkage

pub record RevalidateInput : Type 0 where
  pub planned : Entry
  pub action : Action
  pub policy : Policy
  pub jobs : List JobRef
  pub target : Option Target
  pub now : Time
  pub clock : Time
  pub recollect : Option (String → Observation)
  pub handle : Option Handle

unfoldable pub now_or_clock : Time → Time → Time
now_or_clock now clock = if is_zero_time now then clock else now

-- A verdict with one protection.
unfoldable pub refusal : String → Time → Protection → Verdict
refusal path now p = normalize (record {
  version = 0;
  path = path;
  decision = other_decision "";
  protections = p ∷ [];
  guards = guard_names;
  evaluated_at = now;
})

linkage_protections : String → Linkage → List Protection
linkage_protections path (link_error err) =
    protect collector_failure EvidenceSource.filesystem
      (concat ("the planned object could not be re-checked through its handle: " ∷ err ∷ []))
    ∷ []
linkage_protections path (linked true) = []
linkage_protections path (linked false) =
    protect identity_changed EvidenceSource.filesystem (
      concat (
        "the object planned at " ∷ path
        ∷ " was removed after planning; the name now refers to something else" ∷ []))
    ∷ []

unfoldable pub handle_protections : RevalidateInput → Entry → Option Handle → List Protection
unfolding linkage_protections raise_if
handle_protections i fresh none = []
handle_protections i fresh (some h) =
    linkage_protections h.path h.linkage
    ++ raise_if (not (zero_id h.identity) && not (id_eq h.identity fresh.filesystem_id)) (
        protect identity_changed EvidenceSource.filesystem (
          concat (
            "the planned object had identity "
            ∷ id_string h.identity
            ∷ ", but "
            ∷ fresh.path
            ∷ " is now "
            ∷ id_string fresh.filesystem_id
            ∷ [])))
    ++ raise_if (not (is_empty h.path) && not (str_eq h.path i.planned.path)) (
        protect identity_changed EvidenceSource.filesystem (
          concat
            ("the handle refers to " ∷ h.path ∷ " but the plan targets " ∷ i.planned.path ∷ [])))

unfoldable pub short_fingerprint : String → String
short_fingerprint value =
    if ltb 12 (len value) then slice value 0 12 else if is_empty value then "unknown" else value

module _ (sha256_hex : String → String) where
  fingerprint_protections : Option String → String → List Protection
  unfolding raise_if
  fingerprint_protections none current =
      protect identity_changed EvidenceSource.filesystem
        "saved fingerprint has an unknown format or insufficient legacy evidence"
      ∷ []
  fingerprint_protections (some planned) current = raise_if (not (str_eq planned current)) (
      protect identity_changed EvidenceSource.filesystem (
        concat (
          "metadata changed since planning: fingerprint was "
          ∷ short_fingerprint planned
          ∷ ", now "
          ∷ short_fingerprint current
          ∷ [])))

  unfoldable pub change_protections : RevalidateInput → Entry → List Protection
  unfolding raise_if handle_protections fingerprint_protections
  change_protections i fresh =
      raise_if (not (str_eq fresh.path i.planned.path)) (
        protect identity_changed EvidenceSource.filesystem (
          concat (
            "re-observation returned " ∷ fresh.path ∷ ", not the planned path " ∷ i.planned.path
            ∷ [])))
      ++ raise_if (not (id_eq fresh.filesystem_id i.planned.filesystem_id)) (
          protect identity_changed EvidenceSource.filesystem (
            concat (
              "filesystem identity changed since planning: was "
              ∷ id_string i.planned.filesystem_id
              ∷ ", now "
              ∷ id_string fresh.filesystem_id
              ∷ [])))
      ++ raise_if
          (not (zero_id i.action.filesystem_id)
            && not (id_eq i.action.filesystem_id fresh.filesystem_id))
          (protect identity_changed EvidenceSource.filesystem (
            concat (
              "action "
              ∷ i.action.id
              ∷ " was planned for identity "
              ∷ id_string i.action.filesystem_id
              ∷ ", but "
              ∷ fresh.path
              ∷ " is now "
              ∷ id_string fresh.filesystem_id
              ∷ [])))
      ++ raise_if (not (is_empty i.action.path) && not (str_eq i.action.path i.planned.path)) (
          protect identity_changed EvidenceSource.filesystem (
            concat (
              "action " ∷ i.action.id ∷ " targets " ∷ i.action.path
              ∷ " but was revalidated against " ∷ i.planned.path ∷ [])))
      ++ handle_protections i fresh i.handle
      ++ fingerprint_protections (snapshot_fingerprint sha256_hex i.planned)
          (fingerprint sha256_hex fresh)

  add_each : List Protection → List Protection → List Protection
  add_each ps [] = ps
  add_each ps (q ∷ qs) = add_each (add_protection ps q) qs

  -- The evaluation of a fresh observation.
  abbrev pub fresh_input : RevalidateInput → Entry → Input
  fresh_input i fresh = record {
    entry = fresh;
    policy = i.policy;
    jobs = i.jobs;
    target = i.target;
    now = now_or_clock i.now i.clock;
    clock = i.clock;
  }

  after_observation : RevalidateInput → Observation → Verdict
  unfolding add_each
  after_observation i (failed err) = refusal i.planned.path (now_or_clock i.now i.clock) (
      protect collector_failure EvidenceSource.filesystem
        (concat ("re-observing " ∷ i.planned.path ∷ " failed: " ∷ err ∷ [])))
  after_observation i (observed fresh) =
      let verdict = evaluate (fresh_input i fresh) in
      normalize
        (record verdict { protections = add_each verdict.protections (change_protections i fresh) })

  revalidate_by : RevalidateInput → Option (String → Observation) → Verdict
  unfolding after_observation
  revalidate_by i none = refusal i.planned.path (now_or_clock i.now i.clock) (
      protect collector_failure EvidenceSource.filesystem
        "no re-observation was available, so the target could not be revalidated before mutating")
  revalidate_by i (some recollect) = after_observation i (recollect i.planned.path)

  unfoldable pub revalidate : RevalidateInput → Verdict
  unfolding revalidate_by
  revalidate i = revalidate_by i i.recollect
