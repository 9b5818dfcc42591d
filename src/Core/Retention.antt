-- ===== src/Core/Retention.antt =====
-- internal/core/retention.go. A time is the number of nanoseconds since the zero time, so that
-- `t.IsZero()` is `t == 0`; `UTC` leaves the instant alone.
pub mod Named
use workspace_janitor.Prelude.{
  ℕ, ◌+◌, ◌*◌, ◌≤◌, ◌≡◌, refl, ◌↔◌, String, Bool, true, false, not, Option, none, some, List, [],
  ◌∷◌, arith, ltb, str_eq, ◌==◌,
}
use workspace_janitor.Core.Contract.{valid_enum, parse_enum, ParseResult}

abbrev pub Time : Type 0
Time = ℕ

-- `t.IsZero()`
abbrev pub is_zero_time : Time → Bool
is_zero_time t = t == 0

abbrev pub hour : ℕ
hour = 3_600_000_000_000

-- An enumeration is a string type; the last constructor is any string that is none of the constants.
pub data Retention : Type 0 where
  none_retention days3 days7 days30 days90 permanent : Retention
  other_retention : String → Retention

unfoldable pub to_string : Retention → String
to_string none_retention = "none"
to_string days3 = "3d"
to_string days7 = "7d"
to_string days30 = "30d"
to_string days90 = "90d"
to_string permanent = "permanent"
to_string (other_retention s) = s

unfoldable pub retentions : List Retention
retentions = none_retention ∷ days3 ∷ days7 ∷ days30 ∷ days90 ∷ permanent ∷ []

unfoldable pub valid : Retention → Bool
unfolding retentions to_string valid_enum
valid k = valid_enum to_string k retentions

unfoldable pub parse : String → ParseResult Retention
unfolding retentions to_string parse_enum
parse s = parse_enum to_string "retention" s retentions

-- `r == ""`
unfoldable pub is_unset : Retention → Bool
is_unset (other_retention s) = str_eq s ""
is_unset _ = false

unfoldable pub window : Retention → Option ℕ
window none_retention = some 0
window days3 = some (3 * 24 * hour)
window days7 = some (7 * 24 * hour)
window days30 = some (30 * 24 * hour)
window days90 = some (90 * 24 * hour)
window _ = none

after_window : Time → Option ℕ → Option Time
after_window start none = none
after_window start (some d) = some (start + d)

unfoldable pub expires_at : Retention → Time → Option Time
unfolding window after_window
expires_at r start = after_window start (window r)

reached : Option Time → Time → Bool
reached none now = false
reached (some expiry) now = not (ltb now expiry)

unfoldable pub expired : Retention → Time → Time → Bool
unfolding expires_at reached
expired r start now = reached (expires_at r start) now
