-- ===== src/Base/Sort/Laws.antt =====
-- A sorted list is a rearrangement of what was sorted, and it is in order.
use mathlib.Core.List.{Perm}
use mathlib.Core.List.Perm
use mathlib.Core.Path.{◌≡◌, refl, ap, ◌∙◌}
use mathlib.Core.Logic.{inl, inr}
use mathlib.Core.Bool.{Bool, true, false}
use mathlib.Core.List.{List, [], ◌∷◌}
use Prim.Native.Nat.{ℕ, suc, ◌+◌}
use native.Mathlib.Omega.{arith}
use llm_inference_optimizati.Base.Tests.{Bool-cases, if◌then◌else◌}
use llm_inference_optimizati.Base.Lists.{length, sum_by, count_if, All}
use llm_inference_optimizati.Base.Sort.{insert, sorted}

module _ {ℓ} {A : Type ℓ} (le : A → A → Bool) where
  -- Each element may precede the one behind it.
  abbrev pub Ordered : List A → Type 0
  Ordered [] = Unit
  Ordered (x ∷ []) = Unit
  Ordered (x ∷ y ∷ xs) = (le x y ≡ true) × Ordered (y ∷ xs)

  sum_by-insert : (f : A → ℕ) (x : A) (xs : List A) → sum_by f (insert le x xs) ≡ f x + sum_by f xs
  unfolding insert
  sum_by-insert f x [] = refl
  sum_by-insert f x (y ∷ ys) = ground (arith, sum_by-insert f x ys)

  pub sum_by-sorted : (f : A → ℕ) (xs : List A) → sum_by f (sorted le xs) ≡ sum_by f xs
  unfolding sorted
  sum_by-sorted f [] = refl
  sum_by-sorted f (x ∷ xs) =
      sum_by-insert f x (sorted le xs) ∙ ap (λ n. f x + n) (sum_by-sorted f xs)

  count_if-insert :
      (p : A → Bool) (x : A) (xs : List A)
      → count_if p (insert le x xs) ≡ (if p x then 1 else 0) + count_if p xs
  unfolding insert
  count_if-insert p x [] = refl
  count_if-insert p x (y ∷ ys) = ground (arith, count_if-insert p x ys)

  pub count_if-sorted : (p : A → Bool) (xs : List A) → count_if p (sorted le xs) ≡ count_if p xs
  unfolding sorted
  count_if-sorted p [] = refl
  count_if-sorted p (x ∷ xs) =
      count_if-insert p x (sorted le xs)
      ∙ ap (λ n. (if p x then 1 else 0) + n) (count_if-sorted p xs)

  length-insert : (x : A) (xs : List A) → length (insert le x xs) ≡ suc (length xs)
  unfolding insert
  length-insert x [] = refl
  length-insert x (y ∷ ys) = ground (arith, length-insert x ys)

  pub length-sorted : (xs : List A) → length (sorted le xs) ≡ length xs
  unfolding sorted
  length-sorted [] = refl
  length-sorted (x ∷ xs) = length-insert x (sorted le xs) ∙ ap suc (length-sorted xs)

  All-insert {κ} : (P : A → Type κ) (x : A) (xs : List A) → P x → All P xs → All P (insert le x xs)
  unfolding insert
  All-insert P x [] p h = (p, tt)
  All-insert P x (y ∷ ys) p h = elim (Bool-cases (le x y)) [
    | inl first ↦ rw first (p, h)
    | inr later ↦ rw later (h.0, All-insert P x ys p h.1)
  ]

  pub All-sorted {κ} : (P : A → Type κ) (xs : List A) → All P xs → All P (sorted le xs)
  unfolding sorted
  All-sorted P [] h = tt
  All-sorted P (x ∷ xs) h = All-insert P x (sorted le xs) h.0 (All-sorted P xs h.1)

  module _ (total : (x y : A) → le x y ≡ false → le y x ≡ true) where
    Ordered-insert_behind :
        (x y : A) (ys : List A)
        → le y x ≡ true
        → Ordered (y ∷ ys)
        → Ordered (insert le x ys)
        → Ordered (y ∷ insert le x ys)
    unfolding insert
    Ordered-insert_behind x y [] e h k = (e, k)
    Ordered-insert_behind x y (z ∷ zs) e h k = elim (Bool-cases (le x z)) [
      | inl first ↦ rw first (e, (rw first at k))
      | inr later ↦ rw later (h.0, (rw later at k))
    ]

    Ordered-tail : (y : A) (ys : List A) → Ordered (y ∷ ys) → Ordered ys
    Ordered-tail y [] h = tt
    Ordered-tail y (z ∷ zs) h = h.1

    Ordered-insert : (x : A) (xs : List A) → Ordered xs → Ordered (insert le x xs)
    unfolding insert
    Ordered-insert x [] h = tt
    Ordered-insert x (y ∷ ys) h = elim (Bool-cases (le x y)) [
      | inl first ↦ rw first (first, h)
      | inr later ↦ rw later (
          Ordered-insert_behind x y ys (total x y later) h
            (Ordered-insert x ys (Ordered-tail y ys h)))
    ]

    pub Ordered-sorted : (xs : List A) → Ordered (sorted le xs)
    unfolding sorted
    Ordered-sorted [] = tt
    Ordered-sorted (x ∷ xs) = Ordered-insert x (sorted le xs) (Ordered-sorted xs)

  insert-perm : (x : A) (xs : List A) → Perm (insert le x xs) (x ∷ xs)
  unfolding insert
  insert-perm x [] = Perm.refl (x ∷ [])
  insert-perm x (y ∷ ys) = elim (Bool-cases (le x y)) [
    | inl first ↦ rw first (Perm.refl (x ∷ y ∷ ys))
    | inr later ↦ rw later (Perm.trans (Perm.cons y (insert-perm x ys)) (Perm.swap x y ys))
  ]

  pub sorted-perm : (xs : List A) → Perm (sorted le xs) xs
  unfolding sorted
  sorted-perm [] = Perm.refl []
  sorted-perm (x ∷ xs) = Perm.trans (insert-perm x (sorted le xs)) (Perm.cons x (sorted-perm xs))
