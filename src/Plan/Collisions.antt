-- ===== src/Plan/Collisions.antt =====
-- internal/plan/plan.go: relocations whose destination is not free become investigations.
pub mod Keeps
pub mod Free
use workspace_janitor.Prelude.{
  ℕ, suc, String, Bool, true, false, not, ◌&&◌, ◌||◌, Option, none, some, List, [], ◌∷◌, ◌++◌, map,
  any, is_empty, str_eq, str_lt, sort_by, concat, join, length, ltb, if◌then◌else◌,
}
use workspace_janitor.Prelude.Int.{pos}
use workspace_janitor.Core.ActionKind.{relocate, investigate}
use workspace_janitor.Core.Action.{Action, RejectedAction, is_relocate}
use workspace_janitor.Core.Entry.{Confidence, thousandths}
use workspace_janitor.Core.Retention.{none_retention}
use workspace_janitor.Plan.Advice.{Trace}

-- The action is in `byDestination[d]`.
unfoldable pub wants : String → Action → Bool
wants d a = is_relocate a.kind && not (is_empty a.destination) && str_eq a.destination d

-- The paths of the actions in `byDestination[d]`.
group : String → List Action → List String
unfolding wants
group d [] = []
group d (a ∷ rest) = let later = group d rest in if wants d a then a.path ∷ later else later

-- The keys of `byDestination`, each once.
destinations : List Action → List String
destinations [] = []
destinations (a ∷ rest) =
    let later = destinations rest in
    if is_relocate a.kind && not (is_empty a.destination) && not (any (str_eq a.destination) later)
    then a.destination ∷ later
    else later

without : List String → String → List String
without [] exclude = []
without (v ∷ vs) exclude =
    let rest = without vs exclude in if not (str_eq v exclude) then v ∷ rest else rest

collision_reason : String → Bool → List String → String → String
unfolding without
collision_reason d taken others path =
    if taken && ltb 1 (length others)
    then concat (
        d
        ∷ " already exists, and "
        ∷ join ", " (without others path)
        ∷ " is also proposed for it"
        ∷ [])
    else if taken
    then concat (d ∷ " already exists, so relocating there would collide with it" ∷ [])
    else concat (
        join ", " (without others path)
        ∷ " is also proposed for "
        ∷ d
        ∷ ", so relocating either would collide"
        ∷ [])

unfoldable pub downgrade : String → Action → Action
downgrade reason a = record a {
  rejected =
      a.rejected
      ++ record {
        kind = relocate;
        rule = "policy.canonical_root";
        reason = reason;
        conflict = true;
      }
        ∷ [];
  kind = investigate;
  destination = "";
  retention = none_retention;
  confidence = thousandths (pos 600);
  rules = a.rules ++ "plan.destination_collision" ∷ [];
  reasons = a.reasons ++ reason ∷ [];
}

retrace : Action → Trace → Trace
retrace a t = record t {
  action = investigate;
  rules = a.rules;
  reasons = a.reasons;
  rejected = a.rejected;
}

traced : String → List Trace → Bool
traced path ts = any (λ t. str_eq t.path path) ts

-- `traces[traceIndex[action.Path]]`: the last trace of the path.
set_trace : Action → List Trace → List Trace
unfolding retrace traced
set_trace a [] = []
set_trace a (t ∷ ts) =
    let later = set_trace a ts in
    if str_eq t.path a.path && not (traced a.path ts) then retrace a t ∷ later else t ∷ later

-- One destination that is taken, or wanted more than once.
collide : String → Bool → List String → List Action → List Trace → List Action × List Trace
unfolding downgrade collision_reason set_trace
collide d taken others [] ts = ([], ts)
collide d taken others (a ∷ rest) ts =
    let changed = downgrade (collision_reason d taken others a.path) a in
    let plain = collide d taken others rest ts in
    let after = collide d taken others rest (set_trace changed ts) in
    if wants d a then (changed ∷ after.0, after.1) else (a ∷ plain.0, plain.1)

-- The loop over the destinations; `occupied` holds the paths that the scan observed.
resolve_each :
    List String → List Action → List String → List Action × List Trace → List Action × List Trace
unfolding group collide
resolve_each occupied built [] at = at
resolve_each occupied built (d ∷ ds) (acts, ts) =
    let taken = any (str_eq d) occupied in
    let others = group d built in
    if ltb (length others) 2 && not taken
    then resolve_each occupied built ds (acts, ts)
    else resolve_each occupied built ds (collide d taken others acts ts)

unfoldable pub resolve_destination_collisions :
    List String → List Action → List Trace → List Action × List Trace
unfolding destinations resolve_each
resolve_destination_collisions occupied actions ts =
    resolve_each occupied actions (sort_by str_lt (destinations actions)) (actions, ts)
