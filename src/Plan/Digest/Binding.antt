-- ===== src/Plan/Digest/Binding.antt =====
-- When a plan is bound to a scan, an inventory and a policy.
use text.Mathlib.TextEquality.{eq_iff}
use workspace_janitor.Prelude.{
  ◌&&◌, String, ◌≡◌, ◌↔◌, ◌∙◌, refl, ap, sym, Bool, true, false, Option, none, List, [], ◌∷◌, map,
  str_eq, str_lt, sort_by, Bool-cases, inl, inr, arith,
}
use workspace_janitor.Prelude.Sort.{insert_by}
use workspace_janitor.Prelude.Sort.Again.{sort_by-sort_by}
use workspace_janitor.Prelude.Text.Order.{str_lt_asym}
use workspace_janitor.Core.Entry.{Entry}
use workspace_janitor.Core.Plan.{Plan}
use workspace_janitor.Plan.Policy.{Policy}
use workspace_janitor.Plan.Digest.{
  evidence_digest, evidence_text, policy_digest, verify_binding, fingerprint_at, digest_lines,
}

-- For every plan, scan, inventory and policy, verifying the binding finds no mismatch exactly when
-- the plan's scan is the given one and its digests are those of the inventory and of the policy.
pub verify_binding_iff :
    (encode_policy : Policy → Option String) (sha256_hex : String → String) (p : Plan)
    (scan : String) (es : List Entry) (policy : Policy)
    → (verify_binding encode_policy sha256_hex p scan es policy ≡ none) ↔ (
        (str_eq p.scan_id scan ≡ true)
        × (str_eq (evidence_digest sha256_hex es) p.evidence_digest ≡ true)
        × (str_eq (policy_digest encode_policy sha256_hex policy) p.policy_digest ≡ true))
unfolding verify_binding
verify_binding_iff encode_policy sha256_hex p scan es policy = ground arith

abbrev path_of : Entry → String
path_of e = e.path

abbrev path_less : Entry → Entry → Bool
path_less a b = str_lt a.path b.path

map-insert_by :
    (x : Entry) (es : List Entry)
    → map path_of (insert_by path_less x es) ≡ insert_by str_lt x.path (map path_of es)
unfolding insert_by
map-insert_by x [] = refl
map-insert_by x (e ∷ es) = elim (Bool-cases (str_lt e.path x.path)) [
  | inl h ↦ rw h (ap (λ ps. e.path ∷ ps) (map-insert_by x es))
  | inr h ↦ rw h refl
]

map-sort_by :
    (es : List Entry) → map path_of (sort_by path_less es) ≡ sort_by str_lt (map path_of es)
unfolding sort_by
map-sort_by [] = refl
map-sort_by (e ∷ es) =
    map-insert_by e (sort_by path_less es) ∙ ap (insert_by str_lt e.path) (map-sort_by es)

-- Two paths in order are not both the same path.
not_same : (a b p : String) → str_lt a b ≡ true → (str_eq a p && str_eq b p) ≡ false
not_same a b p h = elim (Bool-cases (str_eq a p)) [
  | inr e ↦ rw e refl
  | inl e ↦ elim (Bool-cases (str_eq b p)) [
    | inr k ↦ rw (e, k) refl
    | inl k ↦
        let q : a ≡ b = (eq_iff a p).0 e ∙ sym ((eq_iff b p).0 k) in
        let l : str_lt a a ≡ true = ap (λ z. str_lt a z) q ∙ h in
        let n = str_lt_asym a a l in ground (arith, l, n)
  ]
]

fingerprint_at-insert_by :
    (p : String) (x : Entry) (es : List Entry)
    → fingerprint_at p (insert_by path_less x es) ≡ fingerprint_at p (x ∷ es)
unfolding insert_by fingerprint_at
fingerprint_at-insert_by p x [] = refl
fingerprint_at-insert_by p x (e ∷ es) = elim (Bool-cases (str_lt e.path x.path)) [
  | inl h ↦
      let n = not_same e.path x.path p h in
      let i = fingerprint_at-insert_by p x es in rw h (ground (arith, n, i))
  | inr h ↦ rw h refl
]

fingerprint_at-sort_by :
    (p : String) (es : List Entry) → fingerprint_at p (sort_by path_less es) ≡ fingerprint_at p es
unfolding sort_by fingerprint_at
fingerprint_at-sort_by p [] = refl
fingerprint_at-sort_by p (e ∷ es) =
    fingerprint_at-insert_by p e (sort_by path_less es)
    ∙ ground (arith, fingerprint_at-sort_by p es)

digest_lines-sort_by :
    (es : List Entry) (ps : List String)
    → digest_lines (sort_by path_less es) ps ≡ digest_lines es ps
unfolding digest_lines
digest_lines-sort_by es [] = refl
digest_lines-sort_by es (p ∷ ps) = rw (fingerprint_at-sort_by p es, digest_lines-sort_by es ps) refl

-- The digest does not depend on the order in which the sort by path leaves the entries.
pub evidence_text-sort_by :
    (es : List Entry) → evidence_text (sort_by path_less es) ≡ evidence_text es
unfolding evidence_text
evidence_text-sort_by es =
    rw
      (
        map-sort_by es,
        sort_by-sort_by str_lt str_lt_asym (map path_of es),
        digest_lines-sort_by es (sort_by str_lt (map path_of es)),
      )
      refl
