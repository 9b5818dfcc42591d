-- ===== src/Actions/Observe/Unused.antt =====
-- What the re-check of the original path's references establishes.
use text.Mathlib.TextEquality.{eq_iff}
use workspace_janitor.Prelude.{
  refl, String, ◌≡◌, ◌⊎◌, inl, inr, Bool, false, not, ◌&&◌, ◌||◌, none, some, List, [], ◌∷◌, any,
  ◌==◌, str_eq, concat, arith, Bool-cases, Option-cases,
}
use workspace_janitor.Core.CollectorStatus
use workspace_janitor.Core.CollectorStatus.{CollectorStatus, ran, partial, skipped}
use workspace_janitor.Core.Scan.{CollectorReport}
use workspace_janitor.Actions.{
  Answer, missing, failed, found, answer_error, System, Engine, Reference, Collected,
}
use workspace_janitor.Actions.Observe.{
  covers, covering, refused_for, original_references, observe_around, observe_with, observe_options,
  complete, evidence_gap, report_gap, status_is,
}

has_status : CollectorStatus → CollectorReport → Bool
has_status s r = str_eq (CollectorStatus.to_string r.status) (CollectorStatus.to_string s)

-- The report is of a collector that the safety of a mutation rests on, in a status that does not do.
unfoldable pub unfit : Bool → CollectorReport → Bool
unfolding has_status
unfit agents r =
    str_eq r.name "filesystem" && not (has_status ran r)
    || str_eq r.name "processes" && not (has_status ran r)
    || str_eq r.name "services" && not (has_status ran r)
    || str_eq r.name "git" && not (has_status ran r || has_status partial r)
    || str_eq r.name "gitmoot" && not (has_status ran r || has_status skipped r)
    || agents && str_eq r.name "agents" && not (has_status ran r)

fit : (agents : Bool) (r : CollectorReport) → report_gap r agents ≡ none → unfit agents r ≡ false
unfolding report_gap status_is unfit has_status
fit agents r h = elim (Bool-cases (str_eq r.name "filesystem")) [
  | inl e ↦ ground (arith, (eq_iff r.name "filesystem").0 e)
  | inr e1 ↦ elim (Bool-cases (str_eq r.name "processes")) [
    | inl e ↦ ground (arith, (eq_iff r.name "processes").0 e)
    | inr e2 ↦ elim (Bool-cases (str_eq r.name "services")) [
      | inl e ↦ ground (arith, (eq_iff r.name "services").0 e)
      | inr e3 ↦ elim (Bool-cases (str_eq r.name "git")) [
        | inl e ↦ elim (Bool-cases (has_status ran r)) [
          | inl k ↦ ground (arith, (eq_iff r.name "git").0 e)
          | inr k ↦ elim (Bool-cases (has_status partial r)) [
            | inl l ↦
                let g = (eq_iff r.name "git").0 e in
                let m : str_eq r.name "gitmoot" ≡ false = rw g refl in
                let a : str_eq r.name "agents" ≡ false = rw g refl in
                rw (e1, e2, e3, e, k, l, m, a) (ground arith)
            | inr l ↦
                let w : report_gap r agents
                    ≡ some (concat ("Git evidence incomplete: " ∷ r.detail ∷ [])) =
                  rw (e1, e2, e3, e, k, l) refl in
                ground (arith, w)
          ]
        ]
        | inr e4 ↦ elim (Bool-cases (str_eq r.name "gitmoot")) [
          | inl e ↦ elim (Bool-cases (has_status ran r)) [
            | inl k ↦ ground (arith, (eq_iff r.name "gitmoot").0 e)
            | inr k ↦ elim (Bool-cases (has_status skipped r)) [
              | inl l ↦
                  let g = (eq_iff r.name "gitmoot").0 e in
                  let a : str_eq r.name "agents" ≡ false = rw g refl in
                  rw (e1, e2, e3, e4, e, k, l, a) (ground arith)
              | inr l ↦
                  let w : report_gap r agents
                      ≡ some (concat ("Gitmoot evidence incomplete: " ∷ r.detail ∷ [])) =
                    rw (e1, e2, e3, e4, e, k, l) refl in
                  ground (arith, w)
            ]
          ]
          | inr e5 ↦ rw (e1, e2, e3, e4, e5) (ground arith)
        ]
      ]
    ]
  ]
]

all_fit :
    (agents : Bool) (rs : List CollectorReport)
    → evidence_gap rs agents ≡ none
    → any (unfit agents) rs ≡ false
unfolding evidence_gap
all_fit agents [] h = refl
all_fit agents (r ∷ rs) h = elim (Option-cases (report_gap r agents)) [
  | inl k ↦ ground (arith, fit agents r k, all_fit agents rs (ground arith))
  | inr (e, k) ↦ ground arith
]

covering-none :
    (source : String) (rs : List Reference)
    → refused_for (covering source rs) ≡ none
    → any (covers source) rs ≡ false
unfolding refused_for covering
covering-none source [] h = refl
covering-none source (r ∷ rs) h = ground (arith, covering-none source rs)

pub Answer-cases :
    {A : Type 0} (a : Answer A)
    → ((e : String) × (answer_error a ≡ some e)) ⊎ ((x : A) × (a ≡ found x))
unfolding answer_error
Answer-cases (missing e) = inl (e, refl)
Answer-cases (failed e) = inl (e, refl)
Answer-cases (found x) = inr (x, refl)

module _ {F : Type 0} (sys : System F) (eng : Engine) where
  pub original_references-none :
      (fs : F) (source : String)
      → original_references sys eng fs source ≡ none
      → (result : Collected) × (sys.collect fs (observe_options sys eng eng.options source false)
          ≡ found result)
        × (any (unfit (not (eng.options.agent_sources == 0))) result.reports ≡ false)
        × (any (covers source) result.references ≡ false)
  unfolding original_references observe_around observe_with complete answer_error
  original_references-none fs source h =
      elim (Answer-cases (sys.collect fs (observe_options sys eng eng.options source false))) [
        | inl (e, k) ↦ ground arith
        | inr (result, k) ↦
            elim (Option-cases
              (evidence_gap result.reports (not (eng.options.agent_sources == 0)))) [
                | inr (e, l) ↦ ground arith
                | inl l ↦ (
                  result,
                  k,
                  all_fit _ result.reports l,
                  covering-none source result.references (ground arith),
                )
              ]
      ]
