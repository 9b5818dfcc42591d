-- ===== src/Prelude/Filepath.antt =====
-- What the program uses of Go's `path/filepath`, on Unix: Clean, IsAbs, Join, Base, Dir and Ext.
use Prim.Native.Nat.{ℕ}
use Prim.Native.Char.{code}
use Prim.Native.String.{String}
use Prim.Native.String.{◌++◌ as append}
use mathlib.Core.Bool.{Bool, true, false}
use mathlib.Core.Path.{◌≡◌, refl}
use mathlib.Core.Option.{Option, none, some}
use mathlib.Core.List.{List, [], ◌∷◌, reverse}
use workspace_janitor.Prelude.Tests.{if◌then◌else◌, ◌==◌}
use workspace_janitor.Prelude.Text.{str_eq, is_empty, join, split}

abbrev pub slash : ℕ
slash = b'/'

-- filepath.IsAbs
unfoldable pub is_abs : String → Bool
is_abs String.[] = false
is_abs (String.◌∷◌ c s) = code c == slash

-- One element of the path against the elements kept so far, the last one first.
clean_parent : Bool → List String → List String
clean_parent rooted [] = if rooted then [] else ".." ∷ []
clean_parent rooted (w ∷ ws) = if str_eq w ".." then ".." ∷ w ∷ ws else ws

clean_element : Bool → List String → String → List String
unfolding clean_parent
clean_element rooted kept w =
    if is_empty w
    then kept
    else if str_eq w "."
    then kept
    else if str_eq w ".."
    then clean_parent rooted kept
    else w ∷ kept

clean_elements : Bool → List String → List String → List String
unfolding clean_element
clean_elements rooted kept [] = kept
clean_elements rooted kept (w ∷ ws) = clean_elements rooted (clean_element rooted kept w) ws

clean_render : Bool → List String → String
clean_render true kept = append "/" (join "/" (reverse kept))
clean_render false [] = "."
clean_render false (w ∷ ws) = join "/" (reverse (w ∷ ws))

-- filepath.Clean: empty elements and `.` go, `..` takes back the element before it, and stays only at
-- the head of a relative path.
unfoldable pub clean : String → String
unfolding clean_elements clean_render is_abs split join
clean p = clean_render (is_abs p) (clean_elements (is_abs p) [] (split slash p))

-- filepath.Join
nonempty : List String → List String
nonempty [] = []
nonempty (w ∷ ws) = let rest = nonempty ws in if is_empty w then rest else w ∷ rest

join_cleaned : List String → String
join_cleaned [] = ""
join_cleaned (w ∷ ws) = clean (join "/" (w ∷ ws))

unfoldable pub join_path : List String → String
unfolding nonempty join_cleaned join
join_path ws = join_cleaned (nonempty ws)

last_or : String → List String → String
last_or d [] = d
last_or d (w ∷ ws) = last_or w ws

-- filepath.Base: the last element, trailing slashes taken off.
unfoldable pub base : String → String
unfolding nonempty last_or split
base p = if is_empty p then "." else last_or "/" (nonempty (split slash p))

drop_last : List String → List String
drop_last [] = []
drop_last (w ∷ []) = []
drop_last (w ∷ v ∷ ws) = w ∷ drop_last (v ∷ ws)

-- filepath.Dir: what stands before the last slash, cleaned.
unfoldable pub dir : String → String
unfolding drop_last is_abs split join
dir p =
    let parent = join "/" (drop_last (split slash p)) in
    if is_empty parent then (if is_abs p then "/" else ".") else clean parent

ext_from : String → String → String
ext_from found String.[] = found
ext_from found (String.◌∷◌ c s) =
    ext_from (if code c == slash then "" else if code c == b'.' then String.◌∷◌ c s else found) s

-- filepath.Ext: from the last dot of the last element.
unfoldable pub ext : String → String
unfolding ext_from
ext p = ext_from "" p

-- What two lists of elements leave after the elements they share.
diverge : List String → List String → List String × List String
diverge [] targ = ([], targ)
diverge (b ∷ bs) [] = (b ∷ bs, [])
diverge (b ∷ bs) (t ∷ ts) =
    let later = diverge bs ts in if str_eq b t then later else (b ∷ bs, t ∷ ts)

climb : List String → List String → List String
climb [] targ = targ
climb (b ∷ bs) targ = ".." ∷ climb bs targ

rel_from : List String × List String → Option String
unfolding climb
rel_from ([], targ) = some (join "/" targ)
rel_from (b ∷ bs, targ) = if str_eq b ".." then none else some (join "/" (climb (b ∷ bs) targ))

elements : String → List String
unfolding nonempty split
elements p = if str_eq p "." then [] else nonempty (split slash p)

same_kind : Bool → Bool → Bool
same_kind true b = b
same_kind false b = if b then false else true

-- filepath.Rel; `none` is its error.
unfoldable pub rel : String → String → Option String
unfolding elements diverge rel_from same_kind clean is_abs
rel base targ =
    let b = clean base in
    let t = clean targ in
    if str_eq t b
    then some "."
    else if same_kind (is_abs b) (is_abs t)
    then rel_from (diverge (elements b) (elements t))
    else none

clean_parent_dir : clean "/repos/x/../y/./z//" ≡ "/repos/y/z"
unfolding clean
clean_parent_dir = refl

clean_relative : clean "../a/../.." ≡ "../.."
unfolding clean
clean_relative = refl

clean_root : clean "/../" ≡ "/"
unfolding clean
clean_root = refl

base_dir_ext :
    (base "/a/b.tar.db/" ≡ "b.tar.db")
    × (dir "/a/b" ≡ "/a")
    × (dir "/a" ≡ "/")
    × (ext "/a.x/b.db" ≡ ".db")
unfolding base dir ext clean
base_dir_ext = (refl, refl, refl, refl)

rel_examples :
    (rel "/a/b" "/a/b/c/d" ≡ some "c/d")
    × (rel "/a/b" "/a/c" ≡ some "../c")
    × (rel "/" "/a" ≡ some "a")
    × (rel "/a/b" "/a/b/" ≡ some ".")
    × (rel "a" "/b" ≡ none)
    × (rel "/a/b/c" "/a" ≡ some "../..")
unfolding rel
rel_examples = (refl, refl, refl, refl, refl, refl)
