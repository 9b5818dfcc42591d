-- ===== src/Core/Capacity/Hold.antt =====
-- internal/core/capacity.go: when admission is held, read from the thresholds.
use text.Mathlib.TextEquality.{eq_iff}
use workspace_janitor.Prelude.{
  ℕ, String, if◌then◌else◌, ◌≡◌, refl, Bool, true, false, not, ◌&&◌, ◌||◌, Option, none, some, ◌==◌,
  ltb, str_eq, arith,
}
use workspace_janitor.Core.Capacity.{
  CapacityState, judged, critical, cleanup_needed, no_safe_reclaim, recovered, unresolved,
  advance_pressure, measured, without_hysteresis, by_threshold, keep_exhausted,
}

-- Below the reserve there is always a hold; with hysteresis, an earlier hold (or exhausted cleanup)
-- lasts below the recovery threshold, while the target is missed or the pressure was not resolved.
unfoldable pub must_hold : CapacityState → CapacityState → Option ℕ → Option ℕ → Bool
must_hold c p (some available) (some total) =
    ltb available c.reserve_bytes
    || not (c.recovery_bytes == c.reserve_bytes)
      && ltb available c.recovery_bytes
      && (ltb available c.target_bytes || unresolved p)
      && (p.admission_hold || str_eq p.state no_safe_reclaim)
must_hold c p _ _ = true

hold-keep_exhausted :
    (p c : CapacityState) (available : ℕ)
    → (keep_exhausted p c available).admission_hold ≡ (
        c.admission_hold
        || str_eq p.state no_safe_reclaim
          && not (str_eq c.state recovered)
          && ltb available c.recovery_bytes)
unfolding keep_exhausted
hold-keep_exhausted p c available = ground arith

recovered_when :
    (c : CapacityState) (below low hold : Bool) (r r' r'' : String)
    → str_eq
        (if below
          then judged c critical true r
          else if low
          then judged c cleanup_needed hold r'
          else judged c recovered false r'').state
        recovered
      ≡ (not below && not low)
recovered_when c true low hold r r' r'' = refl
recovered_when c false true hold r r' r'' = refl
recovered_when c false false hold r r' r'' = refl

-- The verdict of the thresholds alone: whether it is the recovered state, and its hold.
by_threshold-parts :
    (c p : CapacityState) (available : ℕ)
    → let low = ltb available c.target_bytes || unresolved p && ltb available c.recovery_bytes in
      (str_eq (by_threshold c p available).state recovered
        ≡ (not (ltb available c.reserve_bytes) && not low))
      × ((by_threshold c p available).admission_hold ≡ (
          ltb available c.reserve_bytes
          || low && p.admission_hold && ltb available c.recovery_bytes))
      × ((by_threshold c p available).recovery_bytes ≡ c.recovery_bytes)
unfolding by_threshold
by_threshold-parts c p available = (recovered_when c _ _ _ _ _ _, ground arith, ground arith)

-- A filesystem with exhausted cleanup is unresolved.
no_safe_reclaim-unresolved :
    (p : CapacityState) → str_eq p.state no_safe_reclaim ≡ true → unresolved p ≡ true
unfolding unresolved
no_safe_reclaim-unresolved p h = rw ((eq_iff p.state no_safe_reclaim).0 h)

measured-holds :
    (c p : CapacityState) (available total : Option ℕ)
    → (measured c p available total).admission_hold ≡ must_hold c p available total
unfolding measured without_hysteresis must_hold
measured-holds c p none total = refl
measured-holds c p (some available) none = refl
measured-holds c p (some available) (some total) =
    let parts = by_threshold-parts c p available in
    let exhausted = hold-keep_exhausted p (by_threshold c p available) available in
    let open_pressure = no_safe_reclaim-unresolved p in
    ground (arith, parts, exhausted, open_pressure)

-- For every sample and previous state, admission is held exactly when `must_hold` says so: the
-- sample is unknown, below the reserve, or, with hysteresis, below the recovery threshold with an
-- earlier hold or exhausted cleanup while the target is missed or the pressure unresolved.
pub advance_pressure-holds :
    (c p : CapacityState)
    → (advance_pressure c p).admission_hold ≡ must_hold c p c.available_bytes c.total_bytes
unfolding advance_pressure
advance_pressure-holds c p = measured-holds c p c.available_bytes c.total_bytes
