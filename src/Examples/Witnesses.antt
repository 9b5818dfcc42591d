-- ===== src/Examples/Witnesses.antt =====
-- The theorems at concrete inputs.
use workspace_janitor.Core.Contract.{valid_enum}
use workspace_janitor.Core.Contract.Enums.{parse_enum_sound}
use workspace_janitor.Core.Retention
use workspace_janitor.Core.Retention.{days7, retentions}
use workspace_janitor.Examples.Runs.{seven_days}
use workspace_janitor.Prelude.{lowest_first}
use workspace_janitor.Core.Cleanup.{CleanupItem}
use workspace_janitor.Store.Cleanup.{lookup}
use workspace_janitor.Store.Cleanup.Originals.{keeps_time, keeps_evidence, update_cleanup-keeps}
use workspace_janitor.Plan.Proposals.Ordered.{proposal_less}
use workspace_janitor.Plan.Proposals.Tiers.{rank_of, proposals-lowest_first}
use workspace_janitor.Plan.Proposals.Gather.{builtin_proposal}
use workspace_janitor.Plan.Proposals.Builtin.{builtin_proposal-mild}
use workspace_janitor.Prelude.{
  ◌-◌, ◌*◌, ◌^◌, ◌≤◌, ◌≡◌, refl, true, false, not, ◌&&◌, ◌||◌, none, some, List, [], ◌∷◌, any,
  arith, if◌then◌else◌,
}
use workspace_janitor.Prelude.Int.{pos, ltb_ℤ, leb_ℤ}
use workspace_janitor.Core.ActionKind.{quarantine, mutating, risk_rank}
use workspace_janitor.Core.Retention.{days3, expired, window, hour}
use workspace_janitor.Core.Entry.{Entry, thousandths}
use workspace_janitor.Core.Verdict.{refused, allows}
use workspace_janitor.Core.Cleanup.{quarantined}
use workspace_janitor.Core.Retention.Named.{named_expired, expired-named}
use workspace_janitor.Core.Capacity.{advance_pressure}
use workspace_janitor.Core.Capacity.Hold.{must_hold, advance_pressure-holds}
use workspace_janitor.Collect.Fingerprint.{fingerprint, snapshot_fingerprint}
use workspace_janitor.Collect.Fingerprint.Trusted.{trusted, snapshot_fingerprint-trusted}
use workspace_janitor.Safety.Engine.{evaluate, clamp_recommendation}
use workspace_janitor.Safety.Risk.{unsafe}
use workspace_janitor.Safety.Engine.Exact.{refused-evaluate}
use workspace_janitor.Safety.Engine.Clamp.{clamp_recommendation-safe, policy_only_adds, stricter}
use workspace_janitor.Safety.Revalidate.{revalidate}
use workspace_janitor.Safety.Revalidate.Sound.{must_refuse, refused-revalidate}
use workspace_janitor.Safety.Guards.Destination.{required_bytes}
use workspace_janitor.Safety.Guards.Destination.Overflow.{required_bytes-wraps}
use workspace_janitor.Plan.Classify.{classify}
use workspace_janitor.Plan.Proposals.{is_file}
use workspace_janitor.Plan.Proposals.Bounded.{unproven_age, bounded_cache_action-evidence}
use workspace_janitor.Plan.Proposals.Ordered.{proposals}
use workspace_janitor.Plan.Adapters.{is_directory}
use workspace_janitor.Plan.Rules
use workspace_janitor.Plan.Rules.Gate.{evaluate-gated}
use workspace_janitor.Plan.Rules.Safest.{undercut, evaluate-safest}
use workspace_janitor.Plan.Advice.{Trace, apply_advice, apply_advice-lowers}
use workspace_janitor.Plan.Build.{Advisor, advise}
use workspace_janitor.Plan.Build.Heard.{malformed, advise-formed}
use workspace_janitor.Store.Cleanup.Table.{state_of, state_after}
use workspace_janitor.Store.Cleanup.Journal.{deleted_from_quarantined}
use workspace_janitor.Store.Cleanup.History.{
  Reachable, start, after_insert, after_update, illegal, events_legal, journal_agrees,
}
use workspace_janitor.Store.Cleanup.{empty}
use workspace_janitor.Examples.{
  scratch, aged, worktree, free_input, busy_input, recheck, rule, plan_policy, advice, item, moved,
  low_volume,
}
use workspace_janitor.Examples.Runs.{
  entry_path, action_id, journaled, quarantined_store, inserted, updated, busy_refused, may_delete,
  exceeded, full_input,
}

refused-evaluate_example : refused (evaluate busy_input) ≡ unsafe busy_input
refused-evaluate_example = refused-evaluate busy_input

refused-revalidate_example :
    refused (revalidate (λ s. s) recheck) ≡ must_refuse (λ s. s) recheck recheck.recollect
refused-revalidate_example = refused-revalidate (λ s. s) recheck

evaluate-gated_example :
    (mutating (Rules.evaluate scratch plan_policy (evaluate busy_input)).kind
      && refused (evaluate busy_input))
    ≡ false
evaluate-gated_example = evaluate-gated scratch plan_policy (evaluate busy_input)

evaluate-safest_example :
    undercut
      (Rules.evaluate worktree plan_policy (evaluate free_input)).kind
      (proposals worktree (classify worktree plan_policy) plan_policy (evaluate free_input))
    ≡ false
evaluate-safest_example = evaluate-safest worktree plan_policy (evaluate free_input)

-- The journal of a move to quarantine.
quarantined_store-Reachable : Reachable entry_path action_id quarantined_store
quarantined_store-Reachable =
    after_update moved "prepared" journaled quarantined_store
      (after_insert item empty journaled start inserted) updated

journal_agrees_example :
    state_of "c1" "a1" quarantined_store.items ≡ state_after "c1" "a1" quarantined_store.events none
journal_agrees_example =
    journal_agrees entry_path action_id quarantined_store quarantined_store-Reachable "c1" "a1"

events_legal_example : any illegal quarantined_store.events ≡ false
events_legal_example =
    events_legal entry_path action_id quarantined_store quarantined_store-Reachable

abbrev sample_trace : Trace
sample_trace = record {
  path = "/repos/app";
  class = (Rules.evaluate scratch plan_policy (evaluate free_input)).class;
  action = quarantine;
  rules = [];
  reasons = [];
  rejected = [];
  ambiguous = true;
  advised_by = "";
  fingerprint = "";
}

apply_advice-lowers_example :
    risk_rank
      (apply_advice
        (Rules.evaluate scratch plan_policy (evaluate free_input))
        sample_trace
        advice
        (evaluate free_input)
        "model").0.kind
    ≤ risk_rank (Rules.evaluate scratch plan_policy (evaluate free_input)).kind
apply_advice-lowers_example =
    apply_advice-lowers (Rules.evaluate scratch plan_policy (evaluate free_input)) sample_trace
      advice (evaluate free_input) "model"

clamp_recommendation-safe_example :
    (allows (evaluate busy_input) (clamp_recommendation (evaluate busy_input) advice).action ≡ true)
    × (risk_rank (clamp_recommendation (evaluate busy_input) advice).action
        ≤ risk_rank advice.action)
clamp_recommendation-safe_example = clamp_recommendation-safe (evaluate busy_input) advice

advance_pressure-holds_example :
    (advance_pressure low_volume low_volume).admission_hold
    ≡ must_hold low_volume low_volume low_volume.available_bytes low_volume.total_bytes
advance_pressure-holds_example = advance_pressure-holds low_volume low_volume

bounded_cache_action-evidence_example :
    ((ltb_ℤ (pos 0) rule.max_bytes && leb_ℤ aged.size_bytes rule.max_bytes) ≡ false)
    × ((ltb_ℤ (pos 0) rule.ttl
          && is_directory aged.kind
          && unproven_age aged.latest_modified_at aged.observed_at rule.ttl)
        ≡ false)
    × ((ltb_ℤ (pos 0) rule.ttl
          && not (is_directory aged.kind)
          && unproven_age aged.modified_at aged.observed_at rule.ttl)
        ≡ false)
    × (((ltb_ℤ (pos 0) rule.max_bytes || ltb_ℤ (pos 0) rule.ttl)
          && is_directory aged.kind
          && not aged.size_is_deep)
        ≡ false)
    × (((ltb_ℤ (pos 0) rule.max_bytes || ltb_ℤ (pos 0) rule.ttl)
          && not (is_directory aged.kind)
          && not (is_file aged.kind))
        ≡ false)
bounded_cache_action-evidence_example = bounded_cache_action-evidence aged rule exceeded

policy_only_adds_example :
    refused (evaluate (stricter busy_input ("/repos" ∷ []) ("*.pem" ∷ []))) ≡ true
policy_only_adds_example = policy_only_adds busy_input ("/repos" ∷ []) ("*.pem" ∷ []) busy_refused

expired-named_example : expired days7 5 (200 * hour) ≡ named_expired "7d" 5 (200 * hour)
unfolding Retention.parse workspace_janitor.Core.Contract.parse_enum
expired-named_example = expired-named "7d" days7 5 (200 * hour) seven_days

deleted_from_quarantined_example : quarantined ≡ quarantined
deleted_from_quarantined_example = deleted_from_quarantined quarantined may_delete

-- The digest that is saved is not the entry's.
abbrev altered : Entry
altered = record worktree { fingerprint = "another" }

snapshot_fingerprint-trusted_example :
    snapshot_fingerprint (λ s. s) altered
    ≡ (if trusted (λ s. s) altered then some (fingerprint (λ s. s) altered) else none)
snapshot_fingerprint-trusted_example = snapshot_fingerprint-trusted (λ s. s) altered

-- The advisor claims more than certainty about one path, and answers well for another.
abbrev careless : Advisor
careless = record {
  name = "model";
  classify = λ es. some (
      ("/repos/app", record advice { confidence = thousandths (pos 1500) })
      ∷ ("/repos/lib", advice)
      ∷ []);
}

abbrev asked : List Entry
asked = scratch ∷ record scratch { path = "/repos/lib" } ∷ []

advise-formed_example : any malformed (advise (some careless) asked) ≡ false
advise-formed_example = advise-formed (some careless) asked

required_bytes-wraps_example : ltb_ℤ (required_bytes full_input) (pos 0) ≡ true
required_bytes-wraps_example =
    required_bytes-wraps full_input 100 (2 ^ 63 - 1) refl refl (omega arith) (omega arith)
      (omega arith)

update_cleanup-keeps_example :
    (old row : CleanupItem) × (lookup "c1" "a1" journaled.items ≡ some old)
    × (lookup "c1" "a1" quarantined_store.items ≡ some row)
    × (row.plan_id ≡ old.plan_id)
    × (row.source ≡ old.source)
    × (row.destination ≡ old.destination)
    × (row.entry ≡ old.entry)
    × (row.action ≡ old.action)
    × (row.created_at ≡ old.created_at)
    × (old.updated_at ≤ row.updated_at)
    × (keeps_time old.moved_at row.moved_at ≡ true)
    × (keeps_time old.expires_at row.expires_at ≡ true)
    × (keeps_evidence entry_path action_id old.quarantine row.quarantine ≡ true)
update_cleanup-keeps_example =
    update_cleanup-keeps entry_path action_id moved "prepared" journaled quarantined_store updated

proposals-lowest_first_example :
    lowest_first proposal_less rank_of
      (proposals worktree (classify worktree plan_policy) plan_policy (evaluate free_input))
    ≡ true
proposals-lowest_first_example =
    proposals-lowest_first worktree (classify worktree plan_policy) plan_policy
      (evaluate free_input)

builtin_proposal-mild_example :
    risk_rank (builtin_proposal worktree (classify worktree plan_policy) plan_policy).kind
    ≤ risk_rank quarantine
builtin_proposal-mild_example =
    builtin_proposal-mild worktree (classify worktree plan_policy) plan_policy

parse_enum_sound_example :
    (Retention.to_string days7 ≡ "7d") × (valid_enum Retention.to_string days7 retentions ≡ true)
parse_enum_sound_example =
    parse_enum_sound Retention.to_string "retention" "7d" retentions days7 seven_days
