-- ===== src/Core/Contract.antt =====
-- internal/core/contract.go: the contract's version and the generic enumeration helpers.
pub mod Enums
use workspace_janitor.Prelude.{
  String, ℕ, Bool, true, false, List, [], ◌∷◌, map, str_eq, if◌then◌else◌,
}

abbrev pub contract_version : ℕ
contract_version = 1

-- A value, or the `UnknownValueError` with its kind, value and allowed strings.
pub data ParseResult {ℓ} (A : Type ℓ) : Type ℓ where
  parsed : A → ParseResult A
  unknown_value : (kind value : String) → (allowed : List String) → ParseResult A

module _ {ℓ} {A : Type ℓ} (to_string : A → String) where
  unfoldable pub valid_enum : A → List A → Bool
  valid_enum v [] = false
  valid_enum v (candidate ∷ rest) =
      let others = valid_enum v rest in
      if str_eq (to_string v) (to_string candidate) then true else others

  -- `T(s)` is the constant that is spelled `s`.
  find_enum : ParseResult A → String → List A → ParseResult A
  find_enum missing s [] = missing
  find_enum missing s (candidate ∷ rest) =
      let others = find_enum missing s rest in
      if str_eq s (to_string candidate) then parsed candidate else others

  unfoldable pub parse_enum : String → String → List A → ParseResult A
  unfolding find_enum
  parse_enum kind s allowed = find_enum (unknown_value kind s (map to_string allowed)) s allowed
