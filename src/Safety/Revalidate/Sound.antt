-- ===== src/Safety/Revalidate/Sound.antt =====
-- internal/safety/revalidate.go: when revalidation refuses, read from what differs from the plan.
use workspace_janitor.Prelude.{
  String, ◌≡◌, refl, ◌∙◌, Bool, true, false, not, ◌&&◌, ◌||◌, Option, none, some, List, [], ◌∷◌,
  ◌++◌, any, any-append, arith, is_empty, str_eq,
}
use workspace_janitor.Core.Entry.{Entry, Protection, is_blocking, zero_id, id_eq}
use workspace_janitor.Core.Verdict.{refused}
use workspace_janitor.Core.Verdict.Gate.{refused-normalize}
use workspace_janitor.Collect.Fingerprint.{fingerprint, snapshot_fingerprint}
use workspace_janitor.Safety.Input.{protect}
use workspace_janitor.Safety.Risk.{unsafe}
use workspace_janitor.Safety.Guards.Raise.{raise_if}
use workspace_janitor.Safety.Engine.{add_protection, evaluate}
use workspace_janitor.Safety.Engine.Collect.{is_idle, any-add_protection}
use workspace_janitor.Safety.Engine.Exact.{idle-evaluate, blocking-evaluate}
use workspace_janitor.Safety.Revalidate.{
  Observation, observed, failed, linked, link_error, Handle, RevalidateInput, refusal,
  handle_protections, fingerprint_protections, change_protections, add_each, fresh_input,
  after_observation, revalidate_by, revalidate,
}
use workspace_janitor.Prelude.{ap₂}

-- The object behind the handle is gone or unknown, or the handle is of another object or path.
unfoldable pub handle_changed : RevalidateInput → Entry → Option Handle → Bool
handle_changed i fresh none = false
handle_changed i fresh (some h) =
    elim h.linkage [ linked b ↦ not b | link_error err ↦ true ]
    || (not (zero_id h.identity) && not (id_eq h.identity fresh.filesystem_id)
        || not (is_empty h.path) && not (str_eq h.path i.planned.path))

-- The saved digest cannot be trusted, or is not the digest of the fresh entry.
unfoldable pub digest_changed : Option String → String → Bool
digest_changed none current = true
digest_changed (some planned) current = not (str_eq planned current)

any-handle_protections :
    (i : RevalidateInput) (fresh : Entry) (h : Option Handle)
    → (any is_blocking (handle_protections i fresh h) ≡ handle_changed i fresh h)
      × (any is_idle (handle_protections i fresh h) ≡ false)
unfolding handle_protections handle_changed protect
any-handle_protections i fresh none = (refl, refl)
any-handle_protections i fresh (some h) = ground arith

module _ (sha256_hex : String → String) where
  -- What makes the fresh observation another thing than the planned one.
  unfoldable pub changed : RevalidateInput → Entry → Bool
  changed i fresh =
      not (str_eq fresh.path i.planned.path)
      || (not (id_eq fresh.filesystem_id i.planned.filesystem_id)
          || (not (zero_id i.action.filesystem_id)
                && not (id_eq i.action.filesystem_id fresh.filesystem_id)
              || (not (is_empty i.action.path) && not (str_eq i.action.path i.planned.path)
                  || (handle_changed i fresh i.handle
                      || digest_changed (snapshot_fingerprint sha256_hex i.planned)
                          (fingerprint sha256_hex fresh)))))

  any-fingerprint_protections :
      (saved : Option String) (current : String)
      → (any is_blocking (fingerprint_protections sha256_hex saved current)
          ≡ digest_changed saved current)
        × (any is_idle (fingerprint_protections sha256_hex saved current) ≡ false)
  unfolding fingerprint_protections digest_changed protect raise_if
  any-fingerprint_protections none current = (refl, refl)
  any-fingerprint_protections (some planned) current = (ground arith, ground arith)

  any-last_protections :
      (i : RevalidateInput) (fresh : Entry)
      → let ps =
          handle_protections i fresh i.handle
          ++ fingerprint_protections sha256_hex
              (snapshot_fingerprint sha256_hex i.planned)
              (fingerprint sha256_hex fresh) in
        (any is_blocking ps ≡ (
          handle_changed i fresh i.handle
          || digest_changed
              (snapshot_fingerprint sha256_hex i.planned)
              (fingerprint sha256_hex fresh)))
        × (any is_idle ps ≡ false)
  any-last_protections i fresh =
      let planned = snapshot_fingerprint sha256_hex i.planned in
      let current = fingerprint sha256_hex fresh in
      let h = any-handle_protections i fresh i.handle in
      let f = any-fingerprint_protections planned current in
      let hs = handle_protections i fresh i.handle in
      let fs = fingerprint_protections sha256_hex planned current in
      (
        any-append is_blocking hs fs ∙ ap₂ (◌||◌) h.0 f.0,
        any-append is_idle hs fs ∙ ap₂ (◌||◌) h.1 f.1,
      )

  any-change_protections :
      (i : RevalidateInput) (fresh : Entry)
      → (any is_blocking (change_protections sha256_hex i fresh) ≡ changed i fresh)
        × (any is_idle (change_protections sha256_hex i fresh) ≡ false)
  unfolding change_protections changed protect raise_if
  any-change_protections i fresh =
      let last = any-last_protections i fresh in (ground (arith, last.0), ground (arith, last.1))

  any-add_each :
      (ps qs : List Protection)
      → any is_idle ps ≡ false
      → any is_idle qs ≡ false
      → any is_blocking (add_each sha256_hex ps qs) ≡ (any is_blocking ps || any is_blocking qs)
  unfolding add_each
  any-add_each ps [] h k = ground arith
  any-add_each ps (q ∷ qs) h k =
      let added = any-add_protection ps q h (ground arith) in
      any-add_each (add_protection ps q) qs added.1 (ground arith) ∙ ground (arith, added.0)

  -- Whether what the re-observation answered forbids the mutation.
  unfoldable pub must_refuse : RevalidateInput → Option (String → Observation) → Bool
  must_refuse i none = true
  must_refuse i (some recollect) = elim (recollect i.planned.path) [
    | observed fresh ↦ unsafe (fresh_input sha256_hex i fresh) || changed i fresh
    | failed err ↦ true
  ]

  refused-after_observation :
      (i : RevalidateInput) (o : Observation)
      → refused (after_observation sha256_hex i o) ≡ elim o [
        | observed fresh ↦ unsafe (fresh_input sha256_hex i fresh) || changed i fresh
        | failed err ↦ true
      ]
  unfolding after_observation refusal protect
  refused-after_observation i (failed err) = refused-normalize _
  refused-after_observation i (observed fresh) =
      let c = any-change_protections i fresh in
      let e = fresh_input sha256_hex i fresh in
      refused-normalize _
      ∙ any-add_each (evaluate e).protections (change_protections sha256_hex i fresh)
          (idle-evaluate e) c.1
      ∙ ap₂ (◌||◌) (blocking-evaluate e) c.0

  refused-revalidate_by :
      (i : RevalidateInput) (recollect : Option (String → Observation))
      → refused (revalidate_by sha256_hex i recollect) ≡ must_refuse i recollect
  unfolding revalidate_by refusal protect must_refuse
  refused-revalidate_by i none = refused-normalize _
  refused-revalidate_by i (some recollect) = refused-after_observation i (recollect i.planned.path)

  -- For every digest function and input, revalidation refuses exactly when there is no re-
  -- observation, it failed, the fresh entry is unsafe, or the fresh entry, the handle or the digest
  -- differs from what was planned.
  pub refused-revalidate :
      (i : RevalidateInput) → refused (revalidate sha256_hex i) ≡ must_refuse i i.recollect
  unfolding revalidate
  refused-revalidate i = refused-revalidate_by i i.recollect
