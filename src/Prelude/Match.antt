-- ===== src/Prelude/Match.antt =====
-- `filepath.Match` of Go, on the code points of pattern and name; `none` is ErrBadPattern. The fuel
-- of each loop is the length of what it walks, plus one, and each round takes at least one character.
use Prim.Native.Nat.{ℕ, zero, suc}
use Prim.Native.String.{String}
use mathlib.Core.Path.{◌≡◌, refl}
use mathlib.Core.Bool.{Bool, true, false, not, ◌&&◌, ◌||◌}
use mathlib.Core.Option.{Option, none, some}
use mathlib.Core.List.{List, [], ◌∷◌}
use workspace_janitor.Prelude.Tests.{if◌then◌else◌, ◌==◌, leb}
use workspace_janitor.Prelude.Lists.{length}
use workspace_janitor.Prelude.Text.{codes}

abbrev Codes : Type 0
Codes = List ℕ

head_is : ℕ → Codes → Bool
head_is c [] = false
head_is c (x ∷ xs) = x == c

tail_of : Codes → Codes
tail_of [] = []
tail_of (x ∷ xs) = xs

stars : Codes → Bool × Codes
stars [] = (false, [])
stars (c ∷ p) = let rest = stars p in if c == b'*' then (true, rest.1) else (false, c ∷ p)

-- The end of a chunk: the next star outside brackets. An escaped character stays with its backslash.
chunk_end : Bool → Bool → Codes → Codes × Codes
chunk_end escaped inside [] = ([], [])
chunk_end escaped inside (c ∷ p) =
    let plain = chunk_end false inside p in
    let escape = chunk_end true inside p in
    let enter = chunk_end false true p in
    let leave = chunk_end false false p in
    if escaped
    then (c ∷ plain.0, plain.1)
    else if c == 92
    then (c ∷ escape.0, escape.1)
    else if c == b'['
    then (c ∷ enter.0, enter.1)
    else if c == b']'
    then (c ∷ leave.0, leave.1)
    else if (c == b'*') && not inside
    then ([], c ∷ p)
    else (c ∷ plain.0, plain.1)

take_rune : Codes → Option (ℕ × Codes)
take_rune [] = none
take_rune (c ∷ []) = none
take_rune (c ∷ d ∷ p) = some (c, d ∷ p)

-- getEsc: one character of a class, which something must follow.
get_esc : Codes → Option (ℕ × Codes)
unfolding take_rune
get_esc [] = none
get_esc (c ∷ p) =
    if (c == b'-') || (c == b']') then none else if c == 92 then take_rune p else take_rune (c ∷ p)

range_from : ℕ → Codes → Option (ℕ × ℕ × Codes)
unfolding get_esc
range_from lo [] = none
range_from lo (c ∷ p) =
    if c == b'-'
    then elim (get_esc p) [ none ↦ none | some (hi, rest) ↦ some (lo, hi, rest) ]
    else some (lo, lo, c ∷ p)

get_range : Codes → Option (ℕ × ℕ × Codes)
unfolding get_esc range_from
get_range p = elim (get_esc p) [ none ↦ none | some (lo, rest) ↦ range_from lo rest ]

class_loop : ℕ → ℕ → Bool → Bool → Codes → Option (Bool × Codes)
unfolding head_is tail_of get_range
class_loop zero r seen hit p = none
class_loop (suc fuel) r seen hit p = elim (head_is b']' p && seen) [
  | true ↦ some (hit, tail_of p)
  | false ↦ elim (get_range p) [
    | none ↦ none
    | some (lo, hi, rest) ↦ class_loop fuel r true (hit || leb lo r && leb r hi) rest
  ]
]

class_end : Bool → Option Codes → Option (Bool × Codes) → Option (Option Codes × Codes)
class_end negated s none = none
class_end false s (some (hit, rest)) = some (if hit then s else none, rest)
class_end true s (some (hit, rest)) = some (if hit then none else s, rest)

-- The name's next character, 0 where the match has failed, and what follows it.
next_rune : Option Codes → ℕ × Option Codes
next_rune none = (0, none)
next_rune (some []) = (0, none)
next_rune (some (c ∷ s)) = (c, some s)

class_match : Option Codes → Codes → Option (Option Codes × Codes)
unfolding head_is tail_of class_loop class_end next_rune
class_match s p =
    let (r, s') = next_rune s in
    let negated = head_is b'^' p in
    let body = if negated then tail_of p else p in
    class_end negated s' (class_loop (suc (length body)) r false false body)

any_match : Option Codes → Option Codes
any_match none = none
any_match (some []) = none
any_match (some (c ∷ s)) = if c == b'/' then none else some s

literal_match : ℕ → Option Codes → Option Codes
literal_match c none = none
literal_match c (some []) = none
literal_match c (some (d ∷ s)) = if c == d then some s else none

escaped_match : Option Codes → Codes → Option (Option Codes × Codes)
unfolding literal_match
escaped_match s [] = none
escaped_match s (c ∷ p) = some (literal_match c s, p)

chunk_step : Option Codes → ℕ → Codes → Option (Option Codes × Codes)
unfolding class_match any_match literal_match escaped_match
chunk_step s c p =
    if c == b'['
    then class_match s p
    else if c == b'?'
    then some (any_match s, p)
    else if c == 92
    then escaped_match s p
    else some (literal_match c s, p)

-- matchChunk: `none` is a bad pattern, `some none` a mismatch, `some (some s)` a match before `s`.
match_chunk : ℕ → Option Codes → Codes → Option (Option Codes)
unfolding chunk_step
match_chunk fuel s [] = some s
match_chunk zero s (c ∷ p) = none
match_chunk (suc fuel) s (c ∷ p) = elim (chunk_step s c p) [
  | none ↦ none
  | some (s', rest) ↦ match_chunk fuel s' rest
]

chunk_at : Codes → Codes → Option (Option Codes)
unfolding match_chunk
chunk_at chunk name = match_chunk (suc (length chunk)) (some name) chunk

is_nil : Codes → Bool
is_nil [] = true
is_nil (c ∷ s) = false

-- The chunk after a star: at each place before a slash, and at the end of the name if it is the last.
star_search : Bool → Codes → Codes → Option (Option Codes)
unfolding chunk_at is_nil
star_search last chunk [] = some none
star_search last chunk (c ∷ name) =
    let later = star_search last chunk name in
    if c == b'/' then some none else elim (chunk_at chunk name) [
      | none ↦ none
      | some none ↦ later
      | some (some t) ↦ if last && not (is_nil t) then later else some (some t)
    ]

has_slash : Codes → Bool
has_slash [] = false
has_slash (c ∷ s) = (c == b'/') || has_slash s

-- What is left of the pattern must be well formed, also after a mismatch.
rest_well_formed : ℕ → Codes → Option Bool
unfolding stars chunk_end match_chunk
rest_well_formed fuel [] = some false
rest_well_formed zero (c ∷ p) = none
rest_well_formed (suc fuel) (c ∷ p) =
    let (chunk, rest) = chunk_end false false (stars (c ∷ p)).1 in
    elim (match_chunk (suc (length chunk)) none chunk) [
      | none ↦ none
      | some _ ↦ rest_well_formed fuel rest
    ]

-- A match at the current place counts unless it is the last chunk and leaves some of the name.
here : Codes → Option Codes → Option Codes
unfolding is_nil
here rest none = none
here rest (some t) = if is_nil t || not (is_nil rest) then some t else none

after_star : Bool → Bool → Codes → Codes → Option (Option Codes)
unfolding star_search
after_star star last chunk name = if star then star_search last chunk name else some none

match_from : ℕ → Codes → Codes → Option Bool
unfolding stars chunk_end chunk_at is_nil has_slash rest_well_formed here after_star
match_from fuel [] name = some (is_nil name)
match_from zero (c ∷ p) name = none
match_from (suc fuel) (c ∷ p) name =
    let (star, body) = stars (c ∷ p) in
    let (chunk, rest) = chunk_end false false body in
    elim (star && is_nil chunk) [
      | true ↦ some (not (has_slash name))
      | false ↦ elim (chunk_at chunk name) [
        | none ↦ none
        | some first ↦ elim (here rest first) [
          | some t ↦ match_from fuel rest t
          | none ↦ elim (after_star star (is_nil rest) chunk name) [
            | none ↦ none
            | some none ↦ rest_well_formed fuel rest
            | some (some t) ↦ match_from fuel rest t
          ]
        ]
      ]
    ]

unfoldable pub match_path : String → String → Option Bool
unfolding match_from codes
match_path pattern name = match_from (suc (length (codes pattern))) (codes pattern) (codes name)

matched :
    (match_path "*.pem" "id.pem" ≡ some true)
    × (match_path "id_[rd]sa*" "id_rsa.pub" ≡ some true)
    × (match_path "a?c" "a/c" ≡ some false)
    × (match_path "[a-" "a" ≡ none)
    × (match_path "*" "a/b" ≡ some false)
    × (match_path "[^a-c]\\*x" "d*x" ≡ some true)
    × (match_path "a*b*c" "axxbyyc" ≡ some true)
    × (match_path "a*[" "b" ≡ none)
unfolding match_path
matched = (refl, refl, refl, refl, refl, refl, refl, refl)
