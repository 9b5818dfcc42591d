-- ===== src/Core/Capacity.antt =====
-- internal/core/capacity.go: the pressure of one filesystem, advanced by each fresh sample.
pub mod Hold
use workspace_janitor.Prelude.{
  ℕ, String, Bool, true, false, not, ◌&&◌, ◌||◌, Option, none, some, List, [], ◌∷◌, map, ◌==◌, ltb,
  str_eq, is_empty, if◌then◌else◌,
}
use workspace_janitor.Core.Retention.{Time}

-- A state is any string, as in the source; these are the constants.
abbrev pub PressureState : Type 0
PressureState = String

abbrev pub recovered : PressureState
recovered = "target_recovered"

abbrev pub cleanup_needed : PressureState
cleanup_needed = "cleanup_needed"

abbrev pub critical : PressureState
critical = "critical"

abbrev pub unknown : PressureState
unknown = "measurement_unknown"

abbrev pub no_safe_reclaim : PressureState
no_safe_reclaim = "no_safe_reclaim"

pub record CapacityState : Type 0 where
  pub key : String
  pub device : ℕ
  pub roots : List String
  pub state : PressureState
  pub available_bytes : Option ℕ
  pub total_bytes : Option ℕ
  pub target_bytes : ℕ
  pub reserve_bytes : ℕ
  pub recovery_bytes : ℕ
  pub admission_hold : Bool
  pub reason : String

abbrev pub judged : CapacityState → PressureState → Bool → String → CapacityState
judged c state hold reason = record c { state = state; admission_hold = hold; reason = reason }

without_hysteresis : CapacityState → ℕ → CapacityState
without_hysteresis c available =
    if ltb available c.reserve_bytes
    then judged c critical true "available space is below the reserve"
    else if ltb available c.target_bytes
    then judged c cleanup_needed false "available space is below the warning target"
    else judged c recovered false "fresh measurement satisfies the warning target"

-- The previous state is one that recovery has not cleared.
unfoldable pub unresolved : CapacityState → Bool
unresolved p = not (is_empty p.state) && not (str_eq p.state recovered)

by_threshold : CapacityState → CapacityState → ℕ → CapacityState
unfolding unresolved
by_threshold c p available =
    if ltb available c.reserve_bytes
    then judged c critical true "available space is below the reserve"
    else if ltb available c.target_bytes || unresolved p && ltb available c.recovery_bytes
    then judged c cleanup_needed (p.admission_hold && ltb available c.recovery_bytes)
        "available space is below the warning target or recovery threshold"
    else judged c recovered false "fresh measurement satisfies the target and hysteresis"

keep_exhausted : CapacityState → CapacityState → ℕ → CapacityState
keep_exhausted p c available =
    if str_eq p.state no_safe_reclaim
      && not (str_eq c.state recovered)
      && ltb available c.recovery_bytes
    then judged c p.state true p.reason
    else c

measured : CapacityState → CapacityState → Option ℕ → Option ℕ → CapacityState
unfolding without_hysteresis by_threshold keep_exhausted
measured c p (some available) (some total) =
    if c.recovery_bytes == c.reserve_bytes
    then without_hysteresis c available
    else keep_exhausted p (by_threshold c p available) available
measured c p _ _ = record c { state = unknown; admission_hold = true }

unfoldable pub advance_pressure : CapacityState → CapacityState → CapacityState
unfolding measured
advance_pressure c p = measured c p c.available_bytes c.total_bytes

pub record CapacitySnapshot : Type 0 where
  pub sampled_at : Time
  pub valid_until : Time
  pub policy_hash : String
  pub volumes : List CapacityState

stale_volume : CapacityState → CapacityState
stale_volume v = record v {
  state = unknown;
  available_bytes = none;
  total_bytes = none;
  admission_hold = true;
  reason = "capacity sample is stale; run a cycle or start the watcher";
}

unfoldable pub expire : CapacitySnapshot → Time → CapacitySnapshot
unfolding stale_volume
expire s now =
    if ltb now s.sampled_at || not (ltb now s.valid_until)
    then record s { volumes = map stale_volume s.volumes }
    else s
