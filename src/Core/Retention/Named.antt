-- ===== src/Core/Retention/Named.antt =====
-- internal/core/retention.go: the expiry that the name of a retention promises.
use workspace_janitor.Prelude.{
  ℕ, ◌+◌, ◌*◌, ◌-◌, ◌≡◌, refl, sym, String, Bool, not, ◌&&◌, List, [], ◌∷◌, arith, ltb, leb, str_eq,
  codes, if◌then◌else◌,
}
use workspace_janitor.Core.Contract.{parsed, parse_enum}
use workspace_janitor.Core.Contract.Enums.{parse_enum_sound}
use workspace_janitor.Core.Retention.{
  Retention, Time, hour, to_string, retentions, parse, window, expires_at, expired, reached,
  after_window, none_retention, days3, days7, days30, days90, permanent, other_retention,
}

-- The number that the digits at the start of a text write, after the digits before.
number : ℕ → List ℕ → ℕ
number n [] = n
number n (c ∷ cs) =
    let longer = number (n * 10 + (c - 48)) cs in if leb 48 c && leb c 57 then longer else n

-- `permanent` never expires; any other name promises the days that it begins with, or none.
unfoldable pub named_expired : String → Time → Time → Bool
unfolding number codes
named_expired name start now =
    not (str_eq name "permanent") && not (ltb now (start + number 0 (codes name) * 24 * hour))

-- For every text that parses as a retention, and all times, the retention has expired exactly when
-- the text is not `permanent` and the days that its digits write (none without digits) have passed.
pub expired-named :
    (name : String) (r : Retention) (start now : Time)
    → parse name ≡ parsed r
    → expired r start now ≡ named_expired name start now
unfolding expired expires_at reached after_window window named_expired number to_string parse
    retentions parse_enum codes
expired-named name none_retention start now h =
    rw (sym (parse_enum_sound to_string "retention" name retentions none_retention h).0) refl
expired-named name days3 start now h =
    rw (sym (parse_enum_sound to_string "retention" name retentions days3 h).0) refl
expired-named name days7 start now h =
    rw (sym (parse_enum_sound to_string "retention" name retentions days7 h).0) refl
expired-named name days30 start now h =
    rw (sym (parse_enum_sound to_string "retention" name retentions days30 h).0) refl
expired-named name days90 start now h =
    rw (sym (parse_enum_sound to_string "retention" name retentions days90 h).0) refl
expired-named name permanent start now h =
    rw (sym (parse_enum_sound to_string "retention" name retentions permanent h).0) refl
expired-named name (other_retention s) start now h = ground arith
