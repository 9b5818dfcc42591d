-- ===== src/Plan/Durations.antt =====
-- `%s` of `fmt` on a Go duration, and the number of bytes of a Go string.
use Prim.Native.String.{◌++◌ as append}
use workspace_janitor.Prelude.{
  ℕ, zero, suc, ◌+◌, ◌*◌, ◌/◌, ◌%◌, ◌^◌, ◌≡◌, refl, String, List, [], ◌∷◌, ◌==◌, ltb, codes, concat,
  itoa, if◌then◌else◌,
}
use workspace_janitor.Prelude.Int.{ℤ, pos, negsuc}
use workspace_janitor.Prelude.{◌&&◌}
use workspace_janitor.Prelude.{is_empty}

-- The digits after the point, the last zeros left out.
fraction_digits : ℕ → ℕ → String → String
fraction_digits zero v acc = acc
fraction_digits (suc n) v acc =
    let more = fraction_digits n (v / 10) (append (itoa (v % 10)) acc) in
    let skip = fraction_digits n (v / 10) acc in
    if (v % 10 == 0) && is_empty acc then skip else more

fraction : ℕ → ℕ → String
unfolding fraction_digits
fraction prec v =
    let digits = fraction_digits prec (v % 10 ^ prec) "" in
    if is_empty digits then "" else append "." digits

seconds : ℕ → String
unfolding fraction
seconds v = concat (itoa (v / 10 ^ 9 % 60) ∷ fraction 9 v ∷ "s" ∷ [])

duration_ℕ : ℕ → String
unfolding seconds
duration_ℕ v =
    let total = v / 10 ^ 9 in
    if v == 0
    then "0s"
    else if ltb v (10 ^ 3)
    then append (itoa v) "ns"
    else if ltb v (10 ^ 6)
    then concat (itoa (v / 10 ^ 3) ∷ fraction 3 v ∷ "µs" ∷ [])
    else if ltb v (10 ^ 9)
    then concat (itoa (v / 10 ^ 6) ∷ fraction 6 v ∷ "ms" ∷ [])
    else if ltb total 60
    then seconds v
    else if ltb total 3600
    then concat (itoa (total / 60) ∷ "m" ∷ seconds v ∷ [])
    else concat (itoa (total / 3600) ∷ "h" ∷ itoa (total / 60 % 60) ∷ "m" ∷ seconds v ∷ [])

unfoldable pub duration_string : ℤ → String
unfolding duration_ℕ
duration_string (pos n) = duration_ℕ n
duration_string (negsuc n) = append "-" (duration_ℕ (suc n))

rune_bytes : ℕ → ℕ
rune_bytes c = if ltb c 128 then 1 else if ltb c 2048 then 2 else if ltb c 65536 then 3 else 4

bytes_of : List ℕ → ℕ
unfolding rune_bytes
bytes_of [] = 0
bytes_of (c ∷ cs) = rune_bytes c + bytes_of cs

-- `len(s)`
unfoldable pub byte_len : String → ℕ
unfolding bytes_of codes
byte_len s = bytes_of (codes s)

durations :
    (duration_string (pos (7 * 24 * 3600 * 10 ^ 9)) ≡ "168h0m0s")
    × (duration_string (pos 61_500_000_000) ≡ "1m1.5s")
    × (duration_string (pos 1_050_000) ≡ "1.05ms")
    × (byte_len "é/x" ≡ 4)
unfolding duration_string byte_len concat itoa
durations = (refl, refl, refl, refl)
