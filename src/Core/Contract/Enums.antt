-- ===== src/Core/Contract/Enums.antt =====
-- internal/core/contract.go: parsing and validity of an enumeration.
use text.Mathlib.TextEquality.{eq_iff}
use workspace_janitor.Prelude.{
  ◌≡◌, sym, ap, ◌∙◌, String, true, List, [], ◌∷◌, str_eq, arith, Bool-cases, inl, inr,
}
use workspace_janitor.Core.Contract.{parsed, unknown_value, valid_enum, find_enum, parse_enum}

module _ {ℓ} {A : Type ℓ} (to_string : A → String) where
  find_enum_sound :
      (kind value : String) (names : List String) (s : String) (allowed : List A) (v : A)
      → find_enum to_string (unknown_value kind value names) s allowed ≡ parsed v
      → (to_string v ≡ s) × (valid_enum to_string v allowed ≡ true)
  unfolding find_enum valid_enum
  find_enum_sound kind value names s [] v h = cc
  find_enum_sound kind value names s (c ∷ cs) v h = elim (Bool-cases (str_eq s (to_string c))) [
    | inl e ↦
        let same : c ≡ v = ground arith in
        let spelled = (eq_iff s (to_string c)).0 e in
        let equal = (eq_iff (to_string v) (to_string c)).1 (ap to_string (sym same)) in
        (ap to_string (sym same) ∙ sym spelled, rw equal)
    | inr e ↦
        let rest = find_enum_sound kind value names s cs v in
        (ground (arith, rest), ground (arith, rest))
  ]

  -- If a text parses as a constant of an enumeration, then the constant is spelled as the text and is
  -- valid in the enumeration.
  pub parse_enum_sound :
      (kind s : String) (allowed : List A) (v : A)
      → parse_enum to_string kind s allowed ≡ parsed v
      → (to_string v ≡ s) × (valid_enum to_string v allowed ≡ true)
  unfolding parse_enum
  parse_enum_sound kind s allowed v h = find_enum_sound kind s _ s allowed v h
