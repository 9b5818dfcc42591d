-- ===== src/Core/Plan/Bound.antt =====
-- What the validation of a plan refuses of its actions.
use workspace_janitor.Prelude.{
  ℕ, suc, String, ◌≡◌, refl, Bool, true, false, not, ◌||◌, none, List, [], ◌∷◌, ◌++◌, any, str_eq,
  arith,
}
use workspace_janitor.Core.Errors.{FieldErrors, add_if, error_or_nil}
use workspace_janitor.Core.Action.{Action}
use workspace_janitor.Core.Plan.{
  Plan, identity_errors, action_field, header_errors, action_errors, validate,
}
use workspace_janitor.Core.Errors.{Arg}
use workspace_janitor.Core.Action.{validate_action}
use workspace_janitor.Core.Plan.{concat}
use workspace_janitor.Core.Errors.{text}

-- An action of another plan, or whose id is one of those before.
unfoldable pub misplaced : String → List String → List Action → Bool
misplaced plan_id seen [] = false
misplaced plan_id seen (a ∷ rest) =
    any (str_eq a.id) seen || not (str_eq a.plan_id plan_id) || misplaced plan_id (a.id ∷ seen) rest

no_errors-append : (e f : FieldErrors) → e ++ f ≡ [] → (e ≡ []) × (f ≡ [])
no_errors-append [] f h = (refl, h)
no_errors-append (x ∷ e) f h = cc

add_if_none :
    (b : Bool) (field format : String) (args : List Arg)
    → add_if b field format args ≡ []
    → b ≡ false
unfolding add_if
add_if_none true field format args h = cc
add_if_none false field format args h = refl

identity_placed :
    (plan_id : String) (seen : List String) (i : ℕ) (a : Action)
    → identity_errors plan_id seen i a ≡ []
    → (any (str_eq a.id) seen ≡ false) × (not (str_eq a.plan_id plan_id) ≡ false)
unfolding identity_errors
identity_placed plan_id seen i a h =
    let e =
      no_errors-append
        (add_if (any (str_eq a.id) seen) (concat (action_field i ∷ ".id" ∷ []))
          "duplicate action id %q" (text a.id ∷ []))
        (add_if (not (str_eq a.plan_id plan_id)) (concat (action_field i ∷ ".plan_id" ∷ []))
          "must be %q, got %q" (text plan_id ∷ text a.plan_id ∷ []))
        h in
    (add_if_none _ _ _ _ e.0, add_if_none _ _ _ _ e.1)

placed :
    (plan_id : String) (seen : List String) (i : ℕ) (actions : List Action)
    → action_errors plan_id seen i actions ≡ []
    → misplaced plan_id seen actions ≡ false
unfolding misplaced action_errors
placed plan_id seen i [] h = refl
placed plan_id seen i (a ∷ rest) h =
    let later = action_errors plan_id (a.id ∷ seen) (suc i) rest in
    let own = identity_errors plan_id seen i a in
    let v = no_errors-append (validate_action (action_field i) a ++ own) later h in
    let d = no_errors-append (validate_action (action_field i) a) own v.0 in
    let p = identity_placed plan_id seen i a d.1 in
    ground (arith, p, placed plan_id (a.id ∷ seen) (suc i) rest v.1)

empty_when_none : (e : FieldErrors) → error_or_nil e ≡ none → e ≡ []
unfolding error_or_nil
empty_when_none [] h = refl
empty_when_none (x ∷ e) h = cc

-- For every plan that validates, each action carries the plan's id, and no two of its actions have
-- the same id.
pub validate-placed : (p : Plan) → validate p ≡ none → misplaced p.id [] p.actions ≡ false
unfolding validate
validate-placed p h =
    let own = action_errors p.id [] 0 p.actions in
    let e = no_errors-append (header_errors p) own (empty_when_none (header_errors p ++ own) h) in
    placed p.id [] 0 p.actions e.1
