-- ===== src/Common/Lists.antt =====
-- Lists measured by the native numbers, filtered and searched by Boolean tests.
use Prim.Native.Nat.{ℕ, zero, suc, ◌+◌}
use mathlib.Core.Path.{◌≡◌, refl}
use mathlib.Core.Logic.{inl, inr}
use mathlib.Core.Bool.{Bool, true, false, ◌&&◌, ◌||◌, not}
use mathlib.Core.Option.{Option, none, some}
use mathlib.Core.List.{List, [], ◌∷◌, ◌++◌, Perm, perm_middle, append-nil, append_assoc}
use mathlib.Core.List.Perm
use native.Mathlib.Omega.{arith}
use lawn_eve_intel_dashboard.Common.Tests.{if◌then◌else◌, Bool-cases}

module _ {ℓ} {A : Type ℓ} where
  abbrev pub length : List A → ℕ
  length [] = 0
  length (x ∷ xs) = suc (length xs)

  abbrev pub filter : (A → Bool) → List A → List A
  filter p [] = []
  filter p (x ∷ xs) = if p x then x ∷ filter p xs else filter p xs

  -- `xs.some(p)`.
  abbrev pub any : (A → Bool) → List A → Bool
  any p [] = false
  any p (x ∷ xs) = p x || any p xs

  -- The elements that are neither null nor undefined.
  abbrev pub somes : List (Option A) → List A
  somes [] = []
  somes (none ∷ xs) = somes xs
  somes (some x ∷ xs) = x ∷ somes xs

  abbrev pub All {κ} : (A → Type κ) → List A → Type κ
  All P [] = Unit
  All P (x ∷ xs) = P x × All P xs

  pub length-append : (xs ys : List A) → length (xs ++ ys) ≡ length xs + length ys
  length-append [] ys = omega arith
  length-append (x ∷ xs) ys = omega (arith, length-append xs ys)

  pub filter-append :
      (p : A → Bool) (xs ys : List A) → filter p (xs ++ ys) ≡ filter p xs ++ filter p ys
  filter-append p [] ys = refl
  filter-append p (x ∷ xs) ys = ground (arith, filter-append p xs ys)

  pub filter-filter :
      (p q : A → Bool) (xs : List A) → filter p (filter q xs) ≡ filter (λ x. q x && p x) xs
  filter-filter p q [] = refl
  filter-filter p q (x ∷ xs) = ground (arith, filter-filter p q xs)

  -- What passes a test, and what fails it, is the whole list.
  pub filter-not-perm :
      (p : A → Bool) (xs : List A) → Perm (filter p xs ++ filter (λ x. not (p x)) xs) xs
  filter-not-perm p [] = Perm.refl []
  filter-not-perm p (x ∷ xs) =
      elim (p x)
        as (λ b.
          Perm
            ((if b then x ∷ filter p xs else filter p xs)
              ++ (if not b then x ∷ filter (λ y. not (p y)) xs else filter (λ y. not (p y)) xs))
            (x ∷ xs)) [
              | true ↦ Perm.cons x (filter-not-perm p xs)
              | false ↦
                  Perm.trans (perm_middle (filter p xs) (filter (λ y. not (p y)) xs))
                    (Perm.cons x (filter-not-perm p xs))
            ]

  pub All-filter {κ} :
      (P : A → Type κ) (p : A → Bool) (xs : List A) → All P xs → All P (filter p xs)
  All-filter P p [] h = tt
  All-filter P p (x ∷ xs) h = elim (Bool-cases (p x)) [
    | inl e ↦ rw e (h.0, All-filter P p xs h.1)
    | inr e ↦ rw e (All-filter P p xs h.1)
  ]

  pub filter-All : (p : A → Bool) (xs : List A) → All (λ x. p x ≡ true) (filter p xs)
  filter-All p [] = tt
  filter-All p (x ∷ xs) = ground (arith, filter-All p xs)

  append_comm-perm : (xs ys : List A) → Perm (xs ++ ys) (ys ++ xs)
  append_comm-perm [] ys = rw append-nil (Perm.refl ys)
  append_comm-perm (x ∷ xs) ys =
      Perm.trans (Perm.cons x (append_comm-perm xs ys)) (Perm.symm (perm_middle ys xs))

  pub swap_front-perm : (xs ys zs : List A) → Perm (xs ++ (ys ++ zs)) (ys ++ (xs ++ zs))
  swap_front-perm xs ys zs =
      rw (← append_assoc xs ys zs, ← append_assoc ys xs zs)
        (Perm.append_right zs (append_comm-perm xs ys))

  pub any-filter : (p q : A → Bool) (xs : List A) → any p (filter q xs) ≡ any (λ x. p x && q x) xs
  any-filter p q [] = refl
  any-filter p q (x ∷ xs) = ground (arith, any-filter p q xs)

  pub filter-filter_self : (p : A → Bool) (xs : List A) → filter p (filter p xs) ≡ filter p xs
  filter-filter_self p [] = refl
  filter-filter_self p (x ∷ xs) = ground (arith, filter-filter_self p xs)

  pub filter_ext :
      (p q : A → Bool) (xs : List A) → ((x : A) → p x ≡ q x) → filter p xs ≡ filter q xs
  filter_ext p q [] h = refl
  filter_ext p q (x ∷ xs) h = ground (arith, h x, filter_ext p q xs h)

  -- `slice(0, n)`.
  abbrev pub take : ℕ → List A → List A
  take zero xs = []
  take (suc n) [] = []
  take (suc n) (x ∷ xs) = x ∷ take n xs

pub All-append {ℓ κ} :
    {A : Type ℓ} (P : A → Type κ) (xs ys : List A) → All P xs → All P ys → All P (xs ++ ys)
All-append P [] ys h k = k
All-append P (x ∷ xs) ys h k = (h.0, All-append P xs ys h.1 k)

pub All-implies {ℓ κ μ} :
    {A : Type ℓ} (P : A → Type κ) (Q : A → Type μ) (xs : List A)
    → ((x : A) → P x → Q x)
    → All P xs
    → All Q xs
All-implies P Q [] f h = tt
All-implies P Q (x ∷ xs) f h = (f x h.0, All-implies P Q xs f h.1)
