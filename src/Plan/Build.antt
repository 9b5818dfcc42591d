-- ===== src/Plan/Build.antt =====
-- internal/plan/plan.go: `Build`, from an inventory to a plan. The advisor is an argument: what it
-- answers, or that it fails, is its own affair. Go's map of answers is a list of pairs.
pub mod Gated
pub mod Bound
pub mod Heard
use workspace_janitor.Prelude.{
  String, Bool, true, false, not, ◌&&◌, Option, none, some, List, [], ◌∷◌, map, is_empty, str_lt,
  sort_by, if◌then◌else◌,
}
use workspace_janitor.Core.Retention.{Time, is_zero_time}
use workspace_janitor.Core.ActionKind.{ActionKind, eq}
use workspace_janitor.Core.ActionStatus.{other_status}
use workspace_janitor.Core.PlanStatus.{draft}
use workspace_janitor.Core.Errors.{FieldErrors}
use workspace_janitor.Core.Entry.{Entry, Recommendation, Confidence}
use workspace_janitor.Core.Action.{Action}
use workspace_janitor.Core.Plan
use workspace_janitor.Core.Plan.{Plan}
use workspace_janitor.Core.Verdict.{Verdict}
use workspace_janitor.Safety.Input
use workspace_janitor.Safety.Input.{JobRef, Target}
use workspace_janitor.Safety.Engine
use workspace_janitor.Plan.Policy.{Policy}
use workspace_janitor.Plan.Rules
use workspace_janitor.Plan.Rules.{Decision}
use workspace_janitor.Plan.Advice.{Trace, accept_answer, apply_advice, confidence_for}
use workspace_janitor.Plan.Digest.{
  evidence_digest, policy_digest, plan_id, action_id, advice_at, advice_digest,
}
use workspace_janitor.Plan.Collisions.{resolve_destination_collisions}

-- `classify` answers `none` when the advisor fails.
pub record Advisor : Type 0 where
  pub name : String
  pub classify : List Entry → Option (List (String × Recommendation))

pub record BuildInput : Type 0 where
  pub scan_id : String
  pub entries : List Entry
  pub policy : Policy
  pub safety : Input.Policy
  pub jobs : List JobRef
  pub target : Option Target
  pub now : Time
  pub clock : Time
  pub advisor : Option Advisor

pub record BuildResult : Type 0 where
  pub plan : Plan
  pub verdicts : List Verdict
  pub traces : List Trace

pub data Built : Type 0 where
  built : BuildResult → Built
  unbound_scan : Built
  invalid_plan : FieldErrors → Built

-- One entry with the verdict on it and the decision of the rules.
pub record Judged : Type 0 where
  pub entry : Entry
  pub verdict : Verdict
  pub decision : Decision

advisor_key : Option Advisor → String
advisor_key none = "rules-only"
advisor_key (some a) = a.name

unfoldable pub build_time : BuildInput → Time
build_time i = if is_zero_time i.now then i.clock else i.now

unfoldable pub safety_input : BuildInput → Entry → Input.Input
unfolding build_time
safety_input i e = record {
  entry = e;
  policy = i.safety;
  jobs = i.jobs;
  target = i.target;
  now = build_time i;
  clock = i.clock;
}

unfoldable pub judge : BuildInput → Entry → Judged
judge i e =
    let v = Engine.evaluate (safety_input i e) in
    record { entry = e; verdict = v; decision = Rules.evaluate e i.policy v }

ambiguous_entries : List Judged → List Entry
ambiguous_entries [] = []
ambiguous_entries (j ∷ js) =
    let rest = ambiguous_entries js in if j.decision.ambiguous then j.entry ∷ rest else rest

-- The well-formed answers for the ambiguous entries.
accepted : List (String × Recommendation) → List Entry → List (String × Recommendation)
accepted answers [] = []
accepted answers (e ∷ es) =
    let rest = accepted answers es in
    elim (advice_at e.path answers) [
      | none ↦ rest
      | some r ↦ elim (accept_answer r) [ none ↦ rest | some s ↦ (e.path, s) ∷ rest ]
    ]

answered : Option (List (String × Recommendation)) → List Entry → List (String × Recommendation)
unfolding accepted
answered none es = []
answered (some answers) es = accepted answers es

pub advise : Option Advisor → List Entry → List (String × Recommendation)
unfolding answered
advise none es = []
advise (some a) [] = []
advise (some a) (e ∷ es) = answered (a.classify (e ∷ es)) (e ∷ es)

-- The name that traces credit: empty when the advisor was not consulted.
consulted : Option Advisor → List Entry → String
consulted none es = ""
consulted (some a) [] = ""
consulted (some a) (e ∷ es) = a.name

trace_of : Judged → Trace
trace_of j = record {
  path = j.entry.path;
  class = j.decision.class;
  action = j.decision.kind;
  rules = j.decision.rules;
  reasons = j.decision.reasons;
  rejected = j.decision.rejected;
  ambiguous = j.decision.ambiguous;
  advised_by = "";
  fingerprint = j.entry.fingerprint;
}

-- The confidence is the model's where its action was taken.
with_confidence : Judged → Recommendation → Decision × Trace → Decision × Trace × Confidence
with_confidence j r (d, t) = (
  d,
  t,
  if not (eq d.kind j.decision.kind) && eq d.kind r.action
      then r.confidence
      else confidence_for j.decision,
)

advised_with : String → Judged → Option Recommendation → Decision × Trace × Confidence
unfolding trace_of with_confidence
advised_with advisor j none = (j.decision, trace_of j, confidence_for j.decision)
advised_with advisor j (some r) =
    if not j.decision.ambiguous
    then (j.decision, trace_of j, confidence_for j.decision)
    else with_confidence j r (apply_advice j.decision (trace_of j) r j.verdict advisor)

-- The decision, its trace and its confidence after the advice.
unfoldable pub advised :
    String → List (String × Recommendation) → Judged → Decision × Trace × Confidence
unfolding advised_with
advised advisor advice j = advised_with advisor j (advice_at j.entry.path advice)

module _ (sha256_hex : String → String) where
  action_of : String → Time → Judged → Decision × Trace × Confidence → Action
  action_of plan now j (d, t, confidence) = record {
    id = action_id sha256_hex plan j.entry.path;
    plan_id = plan;
    path = j.entry.path;
    kind = d.kind;
    class = d.class;
    retention = d.retention;
    confidence = confidence;
    status = other_status "";
    destination = d.destination;
    filesystem_id = j.entry.filesystem_id;
    fingerprint = j.entry.fingerprint;
    reasons = d.reasons;
    rules = d.rules;
    rejected = d.rejected;
    guards = j.verdict.guards;
    created_at = now;
    applied_at = none;
  }

  actions_of : String → Time → String → List (String × Recommendation) → List Judged → List Action
  unfolding action_of
  actions_of plan now advisor advice js =
      map (λ j. action_of plan now j (advised advisor advice j)) js

-- `trace.Action = decision.Kind`
traces_of : String → List (String × Recommendation) → List Judged → List Trace
traces_of advisor advice js =
    map (λ j. let (d, t, confidence) = advised advisor advice j in record t { action = d.kind }) js

pub checked : Option FieldErrors → BuildResult → Built
checked none r = built r
checked (some errs) r = invalid_plan errs

module _ (sha256_hex : String → String) (encode_policy : Policy → Option String)
    (format_g : Confidence → String) where
  draft_plan : BuildInput → List Entry → String → Plan
  unfolding advisor_key build_time
  draft_plan i entries advice =
      let evidence = evidence_digest sha256_hex entries in
      let policy = policy_digest encode_policy sha256_hex i.policy in
      record {
        contract_version = 0;
        id = plan_id sha256_hex i.scan_id evidence policy (advisor_key i.advisor) advice;
        scan_id = i.scan_id;
        status = draft;
        created_at = build_time i;
        evidence_digest = evidence;
        policy_digest = policy;
        advisor = advisor_key i.advisor;
        actions = [];
      }

  -- The actions after the collisions are resolved, before the plan is normalised.
  resolved : BuildInput → List Entry → List Judged → Plan × List Trace
  unfolding draft_plan ambiguous_entries advise consulted actions_of traces_of
  resolved i entries js =
      let ambiguous = ambiguous_entries js in
      let advice = advise i.advisor ambiguous in
      let advisor = consulted i.advisor ambiguous in
      let digest = advice_digest format_g sha256_hex (map (λ j. (j.entry, j.decision)) js) advice in
      let plan = draft_plan i entries digest in
      let (actions, traces) =
        resolve_destination_collisions (map (λ e. e.path) entries)
          (actions_of sha256_hex plan.id (build_time i) advisor advice js)
          (traces_of advisor advice js) in
      (record plan { actions = actions }, traces)

  unfoldable pub build_sorted : BuildInput → List Entry → Built
  unfolding judge resolved checked
  build_sorted i entries =
      let js = map (judge i) entries in
      let (raw, traces) = resolved i entries js in
      let plan = Plan.normalize raw in
      checked (Plan.validate plan)
        (record { plan = plan; verdicts = map (λ j. j.verdict) js; traces = traces })

  unfoldable pub build : BuildInput → Built
  build i =
      if is_empty i.scan_id
      then unbound_scan
      else build_sorted i (sort_by (λ a b. str_lt a.path b.path) i.entries)
