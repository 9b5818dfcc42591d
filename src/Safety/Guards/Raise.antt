-- ===== src/Safety/Guards/Raise.antt =====
-- How a guard reports.
use workspace_janitor.Prelude.{Bool, true, false, List, [], ◌∷◌}
use workspace_janitor.Core.Entry.{Protection}

-- `if b { out = append(out, p) }`
unfoldable pub raise_if : Bool → Protection → List Protection
raise_if true p = p ∷ []
raise_if false p = []
