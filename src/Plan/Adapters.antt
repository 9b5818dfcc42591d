-- ===== src/Plan/Adapters.antt =====
-- internal/plan/adapters.go: the recognised roots of provider stores and of generated output.
use Prim.Native.String.{◌++◌ as append}
use workspace_janitor.Prelude.{
  ℕ, suc, String, Bool, true, false, not, ◌&&◌, ◌||◌, Option, none, some, List, [], ◌∷◌, any,
  length, ltb, leb, str_eq, is_empty, has_prefix, trim_prefix, split, join, if◌then◌else◌,
}
use workspace_janitor.Prelude.Filepath.{base}
use workspace_janitor.Core.ArtifactClass.{ArtifactClass, cache as cache_class, generated_artifact}
use workspace_janitor.Core.EntryKind.{EntryKind, directory}
use workspace_janitor.Core.Entry.{Entry}
use workspace_janitor.Core.Paths.{is_abs_clean, path_within}
use workspace_janitor.Prelude.{◌-◌}

pub record Adapter : Type 0 where
  pub provider : String
  pub class : ArtifactClass
  pub rebuild : String
  pub official_command : List String

unfoldable pub is_directory : EntryKind → Bool
is_directory directory = true
is_directory _ = false

unfoldable pub among : String → List String → Bool
among s ws = any (str_eq s) ws

cache : String → String → List String → Option Adapter
cache provider rebuild command = some (record {
  provider = provider;
  class = cache_class;
  rebuild = rebuild;
  official_command = command;
})

store_layouts : List String
store_layouts =
    ".cache/uv" ∷ ".uv-cache" ∷ ".npm" ∷ ".local/share/pnpm/store" ∷ ".pnpm-store"
    ∷ ".bun/install/cache" ∷ ".cache/bun" ∷ ".gradle/caches" ∷ ".cache/go-build" ∷ "go/pkg/mod"
    ∷ "pkg/mod" ∷ ".cache/ms-playwright" ∷ ".cache/puppeteer" ∷ []

generated_outputs : List String
generated_outputs = "node_modules" ∷ ".venv" ∷ "venv" ∷ "dist" ∷ "build" ∷ "coverage" ∷ []

-- strings.HasSuffix of two lists of path elements, by whole elements: `path` has the suffix
-- "/" + layout exactly when the elements of the layout end those of the path.
strip : ℕ → List String → List String
strip ℕ.zero ws = ws
strip (suc n) [] = []
strip (suc n) (w ∷ ws) = strip n ws

ends_with : String → String → Bool
unfolding strip split
ends_with path layout =
    let ps = split b'/' path in
    let ls = split b'/' layout in
    ltb (length ls) (length ps) && str_eq (join "/" (strip (length ps - length ls) ps)) layout

first_layout : String → List String → Option String
unfolding ends_with
first_layout path [] = none
first_layout path (l ∷ ls) = if ends_with path l then some l else first_layout path ls

selected_store_layout : String → String
unfolding first_layout store_layouts generated_outputs among
selected_store_layout path = elim (first_layout path store_layouts) [
  | some l ↦ l
  | none ↦ if among (base path) generated_outputs then base path else "."
]

-- filepath.Rel, on two canonical paths of which the second lies within the first.
rel : String → String → String
rel root path =
    if str_eq root path
    then "."
    else if str_eq root "/"
    then trim_prefix path "/"
    else trim_prefix path (append root "/")

uv : Entry → Option Adapter
unfolding cache
uv e =
    cache "uv" "cached distributions may need to be downloaded or rebuilt"
      ("uv" ∷ "cache" ∷ "prune" ∷ "--cache-dir" ∷ e.path ∷ "--offline" ∷ [])

pnpm : Entry → Option Adapter
unfolding cache
pnpm e =
    cache "pnpm" "unreferenced packages may need to be fetched again"
      ("pnpm" ∷ "--store-dir" ∷ e.path ∷ "store" ∷ "prune" ∷ [])

gradle : Option Adapter
unfolding cache
gradle = cache "gradle" "dependencies and build artifacts may need to be fetched or rebuilt" []

complete_store : Entry → String → Option Adapter
unfolding cache among uv pnpm gradle
complete_store e r =
    if among r (".cache/uv" ∷ ".uv-cache" ∷ [])
    then uv e
    else if among r (".npm" ∷ [])
    then cache "npm" "packages may need to be fetched again"
        ("npm" ∷ "cache" ∷ "verify" ∷ "--cache" ∷ e.path ∷ [])
    else if among r (".local/share/pnpm/store" ∷ ".pnpm-store" ∷ [])
    then pnpm e
    else if among r (".bun/install/cache" ∷ ".cache/bun" ∷ [])
    then cache "bun" "cached packages may need to be fetched again" []
    else if among r (".gradle/caches" ∷ [])
    then gradle
    else if among r (".cache/go-build" ∷ [])
    then cache "go-build"
        "Go build outputs will be rebuilt; only a dedicated retired build cache is eligible"
        ("go" ∷ "-C" ∷ e.path ∷ "clean" ∷ "-cache" ∷ [])
    else if among r ("go/pkg/mod" ∷ "pkg/mod" ∷ [])
    then cache "go-module" "Go modules may need to be fetched again" []
    else if among r (".cache/ms-playwright" ∷ [])
    then cache "playwright" "browser binaries may need to be installed again" []
    else if among r (".cache/puppeteer" ∷ [])
    then cache "puppeteer" "browser binaries may need to be installed again" []
    else none

project_prefix : List String → Bool
unfolding among
project_prefix (p ∷ []) =
    not (is_empty p) && not (has_prefix p ".") && not (str_eq p "node_modules")
project_prefix (p ∷ q ∷ []) =
    among p ("repos" ∷ "projects" ∷ "workspaces" ∷ []) && not (is_empty q) && not (has_prefix q ".")
project_prefix _ = false

-- The elements before the last `n`, and the last one.
init : List String → List String
init [] = []
init (w ∷ []) = []
init (w ∷ v ∷ ws) = w ∷ init (v ∷ ws)

last : List String → String
last [] = ""
last (w ∷ []) = w
last (w ∷ v ∷ ws) = last (v ∷ ws)

project_store : Entry → List String → Option Adapter
unfolding project_prefix init last uv pnpm gradle
project_store e parts =
    let one = leb 2 (length parts) && project_prefix (init parts) in
    if one && str_eq (last parts) ".uv-cache"
    then uv e
    else if one && str_eq (last parts) ".pnpm-store"
    then pnpm e
    else if leb 3 (length parts)
        && str_eq (last (init parts)) ".gradle"
        && str_eq (last parts) "caches"
        && project_prefix (init (init parts))
    then gradle
    else none

generated : String → String → Option Adapter
generated provider rebuild = some (record {
  provider = provider;
  class = generated_artifact;
  rebuild = rebuild;
  official_command = [];
})

generated_of : String → Option Adapter
unfolding among generated
generated_of provider =
    if str_eq provider "node_modules"
    then generated "node-modules" "project dependencies must be installed again"
    else if among provider (".venv" ∷ "venv" ∷ [])
    then generated "python-venv" "the Python environment and its dependencies must be recreated"
    else if among provider ("dist" ∷ "build" ∷ "coverage" ∷ [])
    then generated provider "generated output must be rebuilt or tests rerun"
    else none

excluded_part : String → Bool
unfolding among
excluded_part part = among part (
    "node_modules" ∷ "dist" ∷ "build" ∷ "coverage" ∷ ".venv" ∷ "venv" ∷ ".cache" ∷ ".gradle"
    ∷ ".npm" ∷ ".bun" ∷ ".gitmoot" ∷ [])

collection : List String → Bool
unfolding among
collection (p ∷ q ∷ r ∷ []) = among p ("repos" ∷ "projects" ∷ "workspaces" ∷ "src" ∷ "code" ∷ [])
collection _ = true

output_root : List String → Bool
unfolding excluded_part init collection
output_root parts = leb (length parts) 3 && not (any excluded_part (init parts)) && collection parts

generated_root : String → Option Adapter
unfolding generated_of output_root split
generated_root r = if output_root (split b'/' r) then generated_of (base r) else none

or_else : Option Adapter → Option Adapter → Option Adapter
or_else (some a) o = some a
or_else none o = o

unfoldable pub describe_adapter : Entry → Option Adapter
unfolding is_directory rel selected_store_layout complete_store project_store generated_root or_else
describe_adapter e =
    if not (is_directory e.kind)
      || not (is_abs_clean e.path)
      || not (is_abs_clean e.root)
      || not (path_within e.path e.root)
    then none
    else let r0 = rel e.root e.path in
      let r = if str_eq r0 "." then selected_store_layout e.path else r0 in
      or_else (complete_store e r) (or_else (project_store e (split b'/' r)) (generated_root r))
