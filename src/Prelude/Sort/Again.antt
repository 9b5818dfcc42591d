-- ===== src/Prelude/Sort/Again.antt =====
-- Sorting a sorted list again, and sorting by a key.
use mathlib.Core.Path.{◌≡◌, refl}
use mathlib.Core.Bool.{Bool, true, false, not, ◌&&◌}
use mathlib.Core.List.{List, [], ◌∷◌}
use mathlib.Core.Logic.{inl, inr}
use native.Mathlib.Omega.{arith}
use workspace_janitor.Prelude.Tests.{Bool-cases}
use workspace_janitor.Prelude.Sort.{insert_by, sort_by}

module _ {ℓ} {A : Type ℓ} (less : A → A → Bool) where
  -- `x` may stand before the list.
  below : A → List A → Bool
  below x [] = true
  below x (y ∷ ys) = not (less y x)

  ordered : List A → Bool
  unfolding below
  ordered [] = true
  ordered (x ∷ xs) = below x xs && ordered xs

  insert_below : (x : A) (xs : List A) → below x xs ≡ true → insert_by less x xs ≡ x ∷ xs
  unfolding insert_by below
  insert_below x [] h = refl
  insert_below x (y ∷ ys) h = elim (Bool-cases (less y x)) [
    | inl e ↦ ground (arith, e, h)
    | inr e ↦ rw e refl
  ]

  sort_ordered : (xs : List A) → ordered xs ≡ true → sort_by less xs ≡ xs
  unfolding sort_by ordered
  sort_ordered [] h = refl
  sort_ordered (x ∷ xs) h =
      let o : ordered xs ≡ true = ground (arith, h) in
      rw (sort_ordered xs o) (insert_below x xs (ground (arith, h)))

module _ {ℓ} {A : Type ℓ} (less : A → A → Bool)
    (asymmetric : (x y : A) → less x y ≡ true → less y x ≡ false) where
  -- What may stand before the list may stand before the list with a later element.
  insert-below :
      (z x : A) (xs : List A)
      → below less z xs ≡ true
      → less x z ≡ false
      → below less z (insert_by less x xs) ≡ true
  unfolding insert_by below
  insert-below z x [] h k = ground (arith, k)
  insert-below z x (y ∷ ys) h k = ground (arith, h, k)

  insert-ordered :
      (x : A) (xs : List A) → ordered less xs ≡ true → ordered less (insert_by less x xs) ≡ true
  unfolding insert_by ordered below
  insert-ordered x [] h = refl
  insert-ordered x (y ∷ ys) h = elim (Bool-cases (less y x)) [
    | inl e ↦
        let later = insert-ordered x ys (ground (arith, h)) in
        let first = insert-below y x ys (ground (arith, h)) (asymmetric y x e) in
        rw e (ground (arith, later, first))
    | inr e ↦ rw e (ground (arith, h, e))
  ]

  sort-ordered : (xs : List A) → ordered less (sort_by less xs) ≡ true
  unfolding sort_by ordered
  sort-ordered [] = refl
  sort-ordered (x ∷ xs) = insert-ordered x (sort_by less xs) (sort-ordered xs)

  pub sort_by-sort_by : (xs : List A) → sort_by less (sort_by less xs) ≡ sort_by less xs
  sort_by-sort_by xs = sort_ordered less (sort_by less xs) (sort-ordered xs)
