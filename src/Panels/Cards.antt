-- ===== src/Panels/Cards.antt =====
-- PlanetaryIntel.jsx: the cards of the systems.
use mathlib.Core.List.Perm
use lawn_eve_intel_dashboard.Common.{
  String, ◌≡◌, refl, Bool, true, false, List, [], ◌∷◌, Perm, str_eq, filter, filter-not-perm, inl,
  inr, Bool-cases, arith, eq_iff,
}
use lawn_eve_intel_dashboard.Common.Sort.{sort-perm}
use lawn_eve_intel_dashboard.Config.Sets.{has, IsDistinct}
use lawn_eve_intel_dashboard.Panels.Industry.{PiData, keys, ordered_systems}

-- A name that is not among others makes no difference to which of them are kept.
filter-fresh :
    (x : String) (xs ys : List String)
    → has str_eq x ys ≡ false
    → filter (λ y. has str_eq y (x ∷ xs)) ys ≡ filter (λ y. has str_eq y xs) ys
filter-fresh x xs [] h = refl
filter-fresh x xs (y ∷ ys) h = ground (arith, eq_iff x y, eq_iff y x, filter-fresh x xs ys)

filter-extract :
    (x : String) (xs ys : List String)
    → has str_eq x xs ≡ false
    → has str_eq x ys ≡ true
    → IsDistinct str_eq ys
    → Perm (filter (λ y. has str_eq y (x ∷ xs)) ys) (x ∷ filter (λ y. has str_eq y xs) ys)
filter-extract x xs [] f m d = cc
filter-extract x xs (y ∷ ys) f m d = elim (Bool-cases (str_eq x y)) [
  | inl same ↦
      let e : x ≡ y = (eq_iff x y).0 same in
      let g : has str_eq y xs ≡ false = rw (← e) f in
      let n : has str_eq x ys ≡ false = rw e d.0 in
      rw (same, g, filter-fresh x xs ys n, e) (Perm.refl _)
  | inr other ↦
      let n : has str_eq x ys ≡ true = ground (arith, eq_iff x y, eq_iff y x) in
      let rest = filter-extract x xs ys f n d.1 in
      elim (Bool-cases (has str_eq y xs)) [
        | inl kept ↦ rw (other, kept) (Perm.trans (Perm.cons y rest) (Perm.swap x y _))
        | inr gone ↦ rw (other, gone) rest
      ]
]

filter-none : (ys : List String) → filter (λ y. has str_eq y []) ys ≡ []
filter-none [] = refl
filter-none (y ∷ ys) = filter-none ys

-- What two lists have in common, in the order of either.
common-perm :
    (xs ys : List String)
    → IsDistinct str_eq xs
    → IsDistinct str_eq ys
    → Perm (filter (λ x. has str_eq x ys) xs) (filter (λ y. has str_eq y xs) ys)
common-perm [] ys d e = rw (filter-none ys) (Perm.refl [])
common-perm (x ∷ xs) ys d e = elim (Bool-cases (has str_eq x ys)) [
  | inl both ↦ rw both (
      Perm.trans (Perm.cons x (common-perm xs ys d.1 e))
        (Perm.symm (filter-extract x xs ys d.0 both e)))
  | inr one ↦ rw (one, filter-fresh x xs ys one) (common-perm xs ys d.1 e)
]

-- If no system is listed twice in the configuration: every system with planets has a card, and just
-- one, whether it is listed or not, and there is no card of any other.
pub ordered_systems-perm :
    (le : String → String → Bool) (primary : List String) (data_ : PiData)
    → IsDistinct str_eq primary
    → IsDistinct str_eq (keys data_)
    → Perm (ordered_systems le primary data_) (keys data_)
unfolding ordered_systems
ordered_systems-perm le primary data_ d e =
    Perm.trans (Perm.append (common-perm primary (keys data_) d e) (sort-perm le _))
      (filter-not-perm (λ s. has str_eq s primary) (keys data_))
