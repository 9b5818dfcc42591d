-- ===== src/Plan/Collisions/Free.antt =====
-- The relocations that are left once the collisions are resolved.
use text.Mathlib.TextEquality.{eq_iff}
use text.Mathlib.TextPositions.{eq_refl}
use workspace_janitor.Prelude.{
  ◌||◌, ◌==◌, ◌∙◌, sym, ℕ, suc, ◌≤◌, String, ◌≡◌, refl, Bool, true, false, List, [], ◌∷◌, any,
  any-sort_by, length, str_eq, str_lt, sort_by, if◌then◌else◌, Bool-cases, inl, inr, arith,
}
use workspace_janitor.Core.Action.{Action, is_relocate}
use workspace_janitor.Plan.Advice.{Trace}
use workspace_janitor.Plan.Collisions.{
  downgrade, collision_reason, collide, set_trace, wants, resolve_each,
  resolve_destination_collisions, destinations, group,
}

-- How many actions relocate to a destination.
unfoldable pub relocations : String → List Action → ℕ
unfolding wants
relocations d [] = 0
relocations d (a ∷ rest) = let n = relocations d rest in if wants d a then suc n else n

length-group : (d : String) (acts : List Action) → length (group d acts) ≡ relocations d acts
unfolding group relocations
length-group d [] = refl
length-group d (a ∷ rest) = ground (arith, length-group d rest)

downgrade-wants : (d reason : String) (a : Action) → wants d (downgrade reason a) ≡ false
unfolding wants downgrade is_relocate
downgrade-wants d reason a = refl

-- One destination resolved: no count grows, and its own falls to zero.
collide_less :
    (x d : String) (taken : Bool) (others : List String) (acts : List Action) (ts : List Trace)
    → relocations x (collide d taken others acts ts).0 ≤ relocations x acts
unfolding relocations collide
collide_less x d taken others [] ts = omega arith
collide_less x d taken others (a ∷ rest) ts =
    let reason = collision_reason d taken others a.path in
    ground (
      arith,
      downgrade-wants x reason a,
      collide_less x d taken others rest ts,
      collide_less x d taken others rest (set_trace (downgrade reason a) ts),
    )

collide_none :
    (d : String) (taken : Bool) (others : List String) (acts : List Action) (ts : List Trace)
    → relocations d (collide d taken others acts ts).0 ≡ 0
unfolding relocations collide
collide_none d taken others [] ts = refl
collide_none d taken others (a ∷ rest) ts =
    let reason = collision_reason d taken others a.path in
    ground (
      arith,
      downgrade-wants d reason a,
      collide_none d taken others rest ts,
      collide_none d taken others rest (set_trace (downgrade reason a) ts),
    )

resolve_each_less :
    (x : String) (occupied : List String) (built : List Action) (ds : List String)
    (acts : List Action) (ts : List Trace)
    → relocations x (resolve_each occupied built ds (acts, ts)).0 ≤ relocations x acts
unfolding resolve_each
resolve_each_less x occupied built [] acts ts = omega arith
resolve_each_less x occupied built (d ∷ ds) acts ts =
    let taken = any (str_eq d) occupied in
    let others = group d built in
    let after = collide d taken others acts ts in
    ground (
      arith,
      collide_less x d taken others acts ts,
      resolve_each_less x occupied built ds acts ts,
      resolve_each_less x occupied built ds after.0 after.1,
    )

-- A destination that is taken is left to nobody, and any other to one action at most.
unfoldable pub places : List String → String → ℕ
places occupied d = if any (str_eq d) occupied then 0 else 1

at_destination :
    (d : String) (occupied : List String) (built : List Action) (ds : List String)
    (acts : List Action) (ts : List Trace)
    → relocations d acts ≤ relocations d built
    → relocations d (resolve_each occupied built (d ∷ ds) (acts, ts)).0 ≤ places occupied d
unfolding resolve_each places
at_destination d occupied built ds acts ts l =
    let taken = any (str_eq d) occupied in
    let others = group d built in
    let after = collide d taken others acts ts in
    ground (
      arith,
      l,
      length-group d built,
      collide_none d taken others acts ts,
      resolve_each_less d occupied built ds acts ts,
      resolve_each_less d occupied built ds after.0 after.1,
    )

resolve_each_free :
    (x : String) (occupied : List String) (built : List Action) (ds : List String)
    (acts : List Action) (ts : List Trace)
    → any (str_eq x) ds ≡ true
    → relocations x acts ≤ relocations x built
    → relocations x (resolve_each occupied built ds (acts, ts)).0 ≤ places occupied x
unfolding resolve_each places
resolve_each_free x occupied built [] acts ts h l = cc
resolve_each_free x occupied built (d ∷ ds) acts ts h l =
    let taken = any (str_eq d) occupied in
    let others = group d built in
    let after = collide d taken others acts ts in
    elim (Bool-cases (str_eq x d)) [
      | inl e ↦
          let p : x ≡ d = (eq_iff x d).0 e in
          rw p (at_destination d occupied built ds acts ts (rw (sym p) l))
      | inr e ↦
          let k : any (str_eq x) ds ≡ true = ground (arith, h, e) in
          ground (
            arith,
            l,
            collide_less x d taken others acts ts,
            resolve_each_free x occupied built ds acts ts k l,
            resolve_each_free x occupied built ds after.0 after.1 k
                (omega (arith, l, collide_less x d taken others acts ts)),
          )
    ]

-- A destination that is not among the destinations has no relocation.
among_destinations :
    (x : String) (acts : List Action)
    → (any (str_eq x) (destinations acts) || (relocations x acts == 0)) ≡ true
unfolding destinations relocations wants
among_destinations x [] = refl
among_destinations x (a ∷ rest) = elim (Bool-cases (str_eq a.destination x)) [
  | inl e ↦
      let p : a.destination ≡ x = (eq_iff a.destination x).0 e in
      let q : any (str_eq a.destination) (destinations rest) ≡ any (str_eq x) (destinations rest) =
        rw p refl in
      let r : str_eq x a.destination ≡ true = rw p (eq_refl x) in
      ground (arith, among_destinations x rest, q, r, e)
  | inr e ↦ ground (arith, among_destinations x rest, e)
]

-- For every list of observed paths, actions and traces, and every destination, after the collisions
-- are resolved at most one action relocates to the destination, and none if it is an observed path.
pub resolve_destination_collisions-free :
    (occupied : List String) (acts : List Action) (ts : List Trace) (d : String)
    → relocations d (resolve_destination_collisions occupied acts ts).0 ≤ places occupied d
unfolding resolve_destination_collisions
resolve_destination_collisions-free occupied acts ts d =
    let ds = sort_by str_lt (destinations acts) in
    elim (Bool-cases (any (str_eq d) (destinations acts))) [
      | inl h ↦
          resolve_each_free d occupied acts ds acts ts
            (any-sort_by str_lt (str_eq d) (destinations acts) ∙ h) (omega arith)
      | inr h ↦
          ground (arith, among_destinations d acts, resolve_each_less d occupied acts ds acts ts)
    ]
