-- ===== src/Prelude/Sort.antt =====
-- `sort.SliceStable` of Go: a stable insertion sort by a `less` test.
pub mod Again
use mathlib.Core.Path.{◌≡◌, refl}
use Prim.Native.Nat.{ℕ, ◌≤◌}
use mathlib.Core.Bool.{Bool, true, false, not, ◌||◌}
use mathlib.Core.List.{List, [], ◌∷◌, Perm}
use mathlib.Core.List.Perm
use native.Mathlib.Omega.{arith}
use mathlib.Core.Logic.{inl, inr}
use workspace_janitor.Prelude.Tests.{if◌then◌else◌, Bool-cases, ltb}
use workspace_janitor.Prelude.Lists.{any, All}

module _ {ℓ} {A : Type ℓ} (less : A → A → Bool) where
  -- `x` stands before the elements that are not less than it, so equal elements keep their order.
  unfoldable pub insert_by : A → List A → List A
  insert_by x [] = x ∷ []
  insert_by x (y ∷ ys) = let rest = insert_by x ys in if less y x then y ∷ rest else x ∷ y ∷ ys

  unfoldable pub sort_by : List A → List A
  unfolding insert_by
  sort_by [] = []
  sort_by (x ∷ xs) = insert_by x (sort_by xs)

  any-insert_by : (p : A → Bool) (x : A) (xs : List A) → any p (insert_by x xs) ≡ (p x || any p xs)
  unfolding insert_by
  any-insert_by p x [] = refl
  any-insert_by p x (y ∷ ys) = ground (arith, any-insert_by p x ys)

  pub any-sort_by : (p : A → Bool) (xs : List A) → any p (sort_by xs) ≡ any p xs
  unfolding sort_by
  any-sort_by p [] = refl
  any-sort_by p (x ∷ xs) = ground (arith, any-insert_by p x (sort_by xs), any-sort_by p xs)

  All-insert_by {κ} :
      (P : A → Type κ) (x : A) (xs : List A) → P x → All P xs → All P (insert_by x xs)
  unfolding insert_by
  All-insert_by P x [] h k = (h, k)
  All-insert_by P x (y ∷ ys) h k = elim (Bool-cases (less y x)) [
    | inl e ↦ rw e (k.0, All-insert_by P x ys h k.1)
    | inr e ↦ rw e (h, k)
  ]

  pub All-sort_by {κ} : (P : A → Type κ) (xs : List A) → All P xs → All P (sort_by xs)
  unfolding sort_by
  All-sort_by P [] h = tt
  All-sort_by P (x ∷ xs) h = All-insert_by P x (sort_by xs) h.0 (All-sort_by P xs h.1)

  -- No later element has a smaller rank than the first one.
  abbrev pub lowest_first : (A → ℕ) → List A → Bool
  lowest_first rank [] = true
  lowest_first rank (x ∷ xs) = not (any (λ y. ltb (rank y) (rank x)) xs)

  any-below :
      (rank : A → ℕ) (m n : ℕ) (xs : List A)
      → n ≤ m
      → any (λ y. ltb (rank y) m) xs ≡ false
      → any (λ y. ltb (rank y) n) xs ≡ false
  any-below rank m n [] l h = refl
  any-below rank m n (x ∷ xs) l h = let rest = any-below rank m n xs l in ground (arith, rest)

  lowest_first-insert_by :
      (rank : A → ℕ) (x : A) (xs : List A)
      → ((a b : A) → less a b ≡ true → rank a ≤ rank b)
      → ((a b : A) → less a b ≡ false → rank b ≤ rank a)
      → lowest_first rank xs ≡ true
      → lowest_first rank (insert_by x xs) ≡ true
  unfolding insert_by
  lowest_first-insert_by rank x [] up down h = refl
  lowest_first-insert_by rank x (y ∷ ys) up down h = elim (Bool-cases (less y x)) [
    | inl e ↦
        let both = any-insert_by (λ z. ltb (rank z) (rank y)) x ys in
        let le = up y x e in rw e (ground (arith, both, le))
    | inr e ↦
        let le = down y x e in
        let rest = any-below rank (rank y) (rank x) ys le (ground arith) in
        rw e (ground (arith, rest, le))
  ]

  pub lowest_first-sort_by :
      (rank : A → ℕ) (xs : List A)
      → ((a b : A) → less a b ≡ true → rank a ≤ rank b)
      → ((a b : A) → less a b ≡ false → rank b ≤ rank a)
      → lowest_first rank (sort_by xs) ≡ true
  unfolding sort_by
  lowest_first-sort_by rank [] up down = refl
  lowest_first-sort_by rank (x ∷ xs) up down =
      lowest_first-insert_by rank x (sort_by xs) up down (lowest_first-sort_by rank xs up down)

  insert_by-perm : (x : A) (xs : List A) → Perm (insert_by x xs) (x ∷ xs)
  unfolding insert_by
  insert_by-perm x [] = Perm.refl (x ∷ [])
  insert_by-perm x (y ∷ ys) = elim (Bool-cases (less y x)) [
    | inl e ↦ rw e (Perm.trans (Perm.cons y (insert_by-perm x ys)) (Perm.swap x y ys))
    | inr e ↦ rw e (Perm.refl _)
  ]

  pub sort_by-perm : (xs : List A) → Perm (sort_by xs) xs
  unfolding sort_by
  sort_by-perm [] = Perm.nil
  sort_by-perm (x ∷ xs) = Perm.trans (insert_by-perm x (sort_by xs)) (Perm.cons x (sort_by-perm xs))
