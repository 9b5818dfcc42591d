-- ===== src/Prelude/Text.antt =====
-- Go strings as native texts: equality, order, concatenation, and what the program uses of Go's
-- `strings` and `fmt`. A text that is valid UTF-8 compares by its characters as by its bytes.
pub mod Order
use Prim.Native.Nat.{ℕ, zero, suc, ◌/◌, ◌%◌}
use Prim.Native.Char.{Char, code}
use Prim.Native.String.{String, compare, len}
use Prim.Native.String.{◌++◌ as append}
use mathlib.Core.Bool.{Bool, true, false, ◌&&◌, ◌||◌}
use mathlib.Core.List.{List, [], ◌∷◌}
use text.Mathlib.Text.{is_lt, is_eq, starts_with}
use workspace_janitor.Prelude.Tests.{if◌then◌else◌, ◌==◌, leb}

abbrev pub str_eq : String → String → Bool
str_eq s t = is_eq (compare s t)

-- `s < t` on Go strings.
abbrev pub str_lt : String → String → Bool
str_lt s t = is_lt (compare s t)

-- `s == ""`.
abbrev pub is_empty : String → Bool
is_empty String.[] = true
is_empty (String.◌∷◌ c s) = false

-- The pieces of a `fmt.Sprintf` format and its arguments, put one after the other.
unfoldable pub concat : List String → String
concat [] = ""
concat (w ∷ ws) = append w (concat ws)

-- strings.HasPrefix and strings.TrimPrefix
abbrev pub has_prefix : String → String → Bool
has_prefix s prefix = starts_with s prefix

-- strings.Join
unfoldable pub join : String → List String → String
join sep [] = ""
join sep (w ∷ []) = w
join sep (w ∷ v ∷ ws) = append w (append sep (join sep (v ∷ ws)))

push_head : Char → List String → List String
push_head c [] = String.◌∷◌ c "" ∷ []
push_head c (w ∷ ws) = String.◌∷◌ c w ∷ ws

-- strings.Split by one separator character, given by its number.
unfoldable pub split : ℕ → String → List String
unfolding push_head
split sep String.[] = "" ∷ []
split sep (String.◌∷◌ c s) =
    let rest = split sep s in if code c == sep then "" ∷ rest else push_head c rest

-- The code points of a text.
unfoldable pub codes : String → List ℕ
codes String.[] = []
codes (String.◌∷◌ c s) = code c ∷ codes s

unfoldable pub codes_eq : List ℕ → List ℕ → Bool
codes_eq [] [] = true
codes_eq [] (y ∷ ys) = false
codes_eq (x ∷ xs) [] = false
codes_eq (x ∷ xs) (y ∷ ys) = (x == y) && codes_eq xs ys

-- unicode.IsSpace
pub is_space : ℕ → Bool
is_space c =
    (leb 9 c && leb c 13)
    || (c == 32)
    || (c == 133)
    || (c == 160)
    || (c == 5760)
    || (leb 8192 c && leb c 8202)
    || (c == 8232)
    || (c == 8233)
    || (c == 8239)
    || (c == 8287)
    || (c == 12288)

-- `strings.TrimSpace(s) == ""`.
unfoldable pub is_blank : String → Bool
unfolding is_space
is_blank String.[] = true
is_blank (String.◌∷◌ c s) = is_space (code c) && is_blank s

digit : ℕ → String
digit zero = "0"
digit (suc zero) = "1"
digit (suc (suc zero)) = "2"
digit (suc (suc (suc zero))) = "3"
digit (suc (suc (suc (suc zero)))) = "4"
digit (suc (suc (suc (suc (suc zero))))) = "5"
digit (suc (suc (suc (suc (suc (suc zero)))))) = "6"
digit (suc (suc (suc (suc (suc (suc (suc zero))))))) = "7"
digit (suc (suc (suc (suc (suc (suc (suc (suc zero)))))))) = "8"
digit _ = "9"

digits_from : ℕ → ℕ → String → String
unfolding digit
digits_from zero n acc = acc
digits_from (suc fuel) n acc =
    let more = digits_from fuel (n / 10) (append (digit (n % 10)) acc) in
    if n == 0 then acc else more

-- `%d` of `fmt`, and the helper `itoa` of internal/core/verdict.go: decimal digits. A number has at
-- most as many digits as its value plus one, which is the fuel.
unfoldable pub itoa : ℕ → String
unfolding digits_from
itoa n = if n == 0 then "0" else digits_from (suc n) n ""

hex_digit : ℕ → String
unfolding digit
hex_digit n =
    if leb n 9
    then digit n
    else if n == 10
    then "a"
    else if n == 11
    then "b"
    else if n == 12
    then "c"
    else if n == 13
    then "d"
    else if n == 14
    then "e"
    else "f"

hex_byte : ℕ → String
unfolding hex_digit
hex_byte n = append (hex_digit (n / 16 % 16)) (hex_digit (n % 16))

escape : Char → String
unfolding hex_byte
escape c =
    let n = code c in
    if n == 34
    then "\\\""
    else if n == 92
    then "\\\\"
    else if n == 7
    then "\\a"
    else if n == 8
    then "\\b"
    else if n == 9
    then "\\t"
    else if n == 10
    then "\\n"
    else if n == 11
    then "\\v"
    else if n == 12
    then "\\f"
    else if n == 13
    then "\\r"
    else if leb n 31 || (n == 127)
    then append "\\x" (hex_byte n)
    else if leb 128 n && leb n 160
    then append "\\u00" (hex_byte n)
    else String.◌∷◌ c ""

quote_body : String → String
unfolding escape
quote_body String.[] = ""
quote_body (String.◌∷◌ c s) = append (escape c) (quote_body s)

-- `%q` of `fmt`. Above U+00A0 every character is taken to be printable.
unfoldable pub quote : String → String
unfolding quote_body
quote s = append "\"" (append (quote_body s) "\"")

drop_codes : ℕ → String → String
drop_codes zero s = s
drop_codes (suc n) String.[] = ""
drop_codes (suc n) (String.◌∷◌ c s) = drop_codes n s

-- strings.TrimPrefix, by an ASCII prefix.
unfoldable pub trim_prefix : String → String → String
unfolding drop_codes
trim_prefix s prefix = if has_prefix s prefix then drop_codes (len prefix) s else s
