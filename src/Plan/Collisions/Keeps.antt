-- ===== src/Plan/Collisions/Keeps.antt =====
-- A property that a downgrade keeps is one that the resolution of collisions keeps.
use workspace_janitor.Prelude.{
  String, Bool, true, false, not, ◌&&◌, List, [], ◌∷◌, All, any, ltb, length, str_eq, str_lt,
  sort_by, if◌then◌else◌,
}
use workspace_janitor.Core.Action.{Action}
use workspace_janitor.Plan.Advice.{Trace}
use workspace_janitor.Plan.Collisions.{
  downgrade, collision_reason, collide, set_trace, wants, resolve_each,
  resolve_destination_collisions, destinations, group,
}

module _ (P : Action → Type 0)
    (keeps : (reason : String) (a : Action) → P a → P (downgrade reason a)) where
  if-All :
      (b : Bool) (x y : List Action × List Trace)
      → All P x.0
      → All P y.0
      → All P (if b then x else y).0
  if-All true x y h k = h
  if-All false x y h k = k

  collide-All :
      (d : String) (taken : Bool) (others : List String) (acts : List Action) (ts : List Trace)
      → All P acts
      → All P (collide d taken others acts ts).0
  unfolding collide
  collide-All d taken others [] ts h = tt
  collide-All d taken others (a ∷ rest) ts h =
      let reason = collision_reason d taken others a.path in
      if-All (wants d a) _ _
        (
          keeps reason a h.0,
          collide-All d taken others rest (set_trace (downgrade reason a) ts) h.1,
        )
        (h.0, collide-All d taken others rest ts h.1)

  each-All :
      (occupied : List String) (built : List Action) (ds : List String)
      (x : List Action × List Trace)
      → All P x.0
      → All P (resolve_each occupied built ds x).0
  unfolding resolve_each
  each-All occupied built [] x h = h
  each-All occupied built (d ∷ ds) (acts, ts) h =
      let taken = any (str_eq d) occupied in
      let others = group d built in
      if-All (ltb (length others) 2 && not taken) _ _ (each-All occupied built ds (acts, ts) h) (
        each-All occupied built ds (collide d taken others acts ts)
          (collide-All d taken others acts ts h))

  pub resolve-All :
      (occupied : List String) (acts : List Action) (ts : List Trace)
      → All P acts
      → All P (resolve_destination_collisions occupied acts ts).0
  unfolding resolve_destination_collisions
  resolve-All occupied acts ts h =
      each-All occupied acts (sort_by str_lt (destinations acts)) (acts, ts) h
