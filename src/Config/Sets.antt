-- ===== src/Config/Sets.antt =====
-- `Set`, as a list in insertion order that holds nothing twice.
use lawn_eve_intel_dashboard.Common.{
  ◌≡◌, refl, inl, inr, Bool, true, false, ◌||◌, List, [], ◌∷◌, ◌++◌, arith, if◌then◌else◌,
  Bool-cases, any,
}

module _ {ℓ} {A : Type ℓ} (eq : A → A → Bool) where
  abbrev pub has : A → List A → Bool
  has a = any (λ b. eq b a)

  -- `Set.add`.
  unfoldable pub add : A → List A → List A
  add a xs = if has a xs then xs else xs ++ (a ∷ [])

  -- Nothing stands twice in a list.
  abbrev pub IsDistinct : List A → Type 0
  IsDistinct [] = Unit
  IsDistinct (x ∷ xs) = (has x xs ≡ false) × IsDistinct xs

  pub has-append : (a : A) (xs ys : List A) → has a (xs ++ ys) ≡ (has a xs || has a ys)
  has-append a [] ys = refl
  has-append a (x ∷ xs) ys = ground (arith, has-append a xs ys)

  module _ (sound : (a b : A) → eq a b ≡ true → a ≡ b) where
    has-add_old : (a b : A) (xs : List A) → has a xs ≡ true → has b xs ≡ (has b xs || eq a b)
    has-add_old a b xs old = elim (Bool-cases (eq a b)) [
      | inl same ↦ let h : has b xs ≡ true = rw (← sound a b same) old in rw h refl
      | inr other ↦ rw other (ground arith)
    ]

    -- A set has what it had, and what was added.
    pub has-add : (a b : A) (xs : List A) → has b (add a xs) ≡ (has b xs || eq a b)
    unfolding add
    has-add a b xs = elim (Bool-cases (has a xs)) [
      | inl old ↦ rw old (has-add_old a b xs old)
      | inr new ↦ rw (new, has-append b xs (a ∷ [])) (ground arith)
    ]
