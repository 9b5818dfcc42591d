-- ===== src/Core/EntryKind.antt =====
-- The string type EntryKind of internal/core/entry.go.
use workspace_janitor.Prelude.{str_eq, false, String, Bool, List, [], ◌∷◌}
use workspace_janitor.Core.Contract.{valid_enum, parse_enum, ParseResult}

-- The last constructor stands for any string that is none of the constants.
pub data EntryKind : Type 0 where
  directory file symlink special unknown_kind : EntryKind
  other_kind : String → EntryKind

unfoldable pub to_string : EntryKind → String
to_string directory = "directory"
to_string file = "file"
to_string symlink = "symlink"
to_string special = "special"
to_string unknown_kind = "unknown"
to_string (other_kind s) = s

unfoldable pub entry_kinds : List EntryKind
entry_kinds = directory ∷ file ∷ symlink ∷ special ∷ unknown_kind ∷ []

unfoldable pub valid : EntryKind → Bool
unfolding entry_kinds to_string valid_enum
valid k = valid_enum to_string k entry_kinds

unfoldable pub parse : String → ParseResult EntryKind
unfolding entry_kinds to_string parse_enum
parse s = parse_enum to_string "entry kind" s entry_kinds

-- `k == ""`
unfoldable pub is_unset : EntryKind → Bool
is_unset (other_kind s) = str_eq s ""
is_unset _ = false
