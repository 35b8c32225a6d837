-- ===== src/Common/Sort.antt =====
-- `Array.prototype.sort` with a comparator: stable, so the result is the one that insertion gives.
-- `le a b` says that the comparator gives `a` before `b` a number that is not positive.
use mathlib.Core.List.Perm
use lawn_eve_intel_dashboard.Common.Tests.{if◌then◌else◌, Bool-cases}
use lawn_eve_intel_dashboard.Common.Lists.{All}
use mathlib.Core.Path.{◌≡◌}
use mathlib.Core.Logic.{inl, inr}
use mathlib.Core.Bool.{Bool, true, false}
use mathlib.Core.List.{List, [], ◌∷◌, Perm}

module _ {ℓ} {A : Type ℓ} (le : A → A → Bool) where
  unfoldable pub insert : A → List A → List A
  insert x [] = x ∷ []
  insert x (y ∷ ys) = if le x y then x ∷ y ∷ ys else y ∷ insert x ys

  unfoldable pub sort : List A → List A
  unfolding insert
  sort [] = []
  sort (x ∷ xs) = insert x (sort xs)

  -- Every element comes before all that follow it.
  abbrev pub IsSorted : List A → Type 0
  IsSorted [] = Unit
  IsSorted (x ∷ xs) = All (λ y. le x y ≡ true) xs × IsSorted xs

  insert-perm : (x : A) (ys : List A) → Perm (insert x ys) (x ∷ ys)
  unfolding insert
  insert-perm x [] = Perm.refl (x ∷ [])
  insert-perm x (y ∷ ys) = elim (Bool-cases (le x y)) [
    | inl h ↦ rw h (Perm.refl _)
    | inr h ↦ rw h (Perm.trans (Perm.cons y (insert-perm x ys)) (Perm.swap x y ys))
  ]

  -- Sorting neither loses nor makes up an element.
  pub sort-perm : (xs : List A) → Perm (sort xs) xs
  unfolding sort
  sort-perm [] = Perm.refl []
  sort-perm (x ∷ xs) = Perm.trans (insert-perm x (sort xs)) (Perm.cons x (sort-perm xs))

  pub All-insert {κ} : (P : A → Type κ) (x : A) (ys : List A) → P x → All P ys → All P (insert x ys)
  unfolding insert
  All-insert P x [] p h = (p, tt)
  All-insert P x (y ∷ ys) p h = elim (Bool-cases (le x y)) [
    | inl e ↦ rw e (p, h)
    | inr e ↦ rw e (h.0, All-insert P x ys p h.1)
  ]

  pub All-sort {κ} : (P : A → Type κ) (xs : List A) → All P xs → All P (sort xs)
  unfolding sort
  All-sort P [] h = tt
  All-sort P (x ∷ xs) h = All-insert P x (sort xs) h.0 (All-sort P xs h.1)

  module _ (total : (a b : A) → le a b ≡ false → le b a ≡ true)
      (transitive : (a b c : A) → le a b ≡ true → le b c ≡ true → le a c ≡ true) where
    All-le :
        (x y : A) (ys : List A)
        → le x y ≡ true
        → All (λ z. le y z ≡ true) ys
        → All (λ z. le x z ≡ true) ys
    All-le x y [] h k = tt
    All-le x y (z ∷ zs) h k = (transitive x y z h k.0, All-le x y zs h k.1)

    insert-IsSorted : (x : A) (ys : List A) → IsSorted ys → IsSorted (insert x ys)
    unfolding insert
    insert-IsSorted x [] s = (tt, tt)
    insert-IsSorted x (y ∷ ys) s = elim (Bool-cases (le x y)) [
      | inl h ↦ rw h ((h, All-le x y ys h s.0), s)
      | inr h ↦ rw h (All-insert _ x ys (total x y h) s.0, insert-IsSorted x ys s.1)
    ]

    -- With a total and transitive order the result is sorted.
    pub sort-IsSorted : (xs : List A) → IsSorted (sort xs)
    unfolding sort
    sort-IsSorted [] = tt
    sort-IsSorted (x ∷ xs) = insert-IsSorted x (sort xs) (sort-IsSorted xs)
