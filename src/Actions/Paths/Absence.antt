-- ===== src/Actions/Paths/Absence.antt =====
-- A path that an object, or an error, stands in the way of.
use workspace_janitor.Prelude.{String, ◌≡◌, refl, some, false}
use workspace_janitor.Actions.{Answer, missing, failed, found, FileInfo, System}
use workspace_janitor.Actions.Paths.{absent, is_missing, occupied}
use workspace_janitor.Actions.Paths.{true}
use workspace_janitor.Actions.{none}

occupied_fails :
    (path : String) (a : Answer FileInfo)
    → is_missing a ≡ false
    → (e : String) × (occupied path a ≡ some e)
unfolding occupied is_missing
occupied_fails path (missing e) h = cc
occupied_fails path (failed e) h = (e, refl)
occupied_fails path (found info) h = (_, refl)

pub absent_fails :
    {F : Type 0} (sys : System F) (fs : F) (path : String)
    → is_missing (sys.lstat fs path) ≡ false
    → (e : String) × (absent sys fs path ≡ some e)
unfolding absent
absent_fails sys fs path h = occupied_fails path (sys.lstat fs path) h

missing_free : (path : String) (a : Answer FileInfo) → is_missing a ≡ true → occupied path a ≡ none
unfolding occupied is_missing
missing_free path (missing e) h = refl
missing_free path (failed e) h = cc
missing_free path (found info) h = cc

pub missing_absent :
    {F : Type 0} (sys : System F) (fs : F) (path : String)
    → is_missing (sys.lstat fs path) ≡ true
    → absent sys fs path ≡ none
unfolding absent
missing_absent sys fs path h = missing_free path (sys.lstat fs path) h
