-- ===== src/Dscan/Grouping.antt =====
-- DscanParser.jsx: the ships of a scan grouped by category.
use lawn_eve_intel_dashboard.Common.{
  ℕ, ◌+◌, ◌≡◌, refl, sym, ap, ◌∙◌, inl, inr, Bool, true, false, ◌||◌, List, [], ◌∷◌, arith, ◌==◌,
  if◌then◌else◌, Bool-cases, length, filter, any, All,
}
use lawn_eve_intel_dashboard.Common.Text.{Text, text_eq}
use lawn_eve_intel_dashboard.Dscan.{
  Category, rank, Entry, Group, same_category, has_category, bump_type, add_ship, group_ships,
}

-- How many ships there are of a category.
abbrev pub ships_in : Category → List Entry → ℕ
ships_in c es = length (filter (λ e. same_category e.category c) es)

-- What the groups say of it.
abbrev pub count_in : Category → List Group → ℕ
count_in c [] = 0
count_in c (g ∷ gs) = if same_category g.category c then g.count else count_in c gs

abbrev pub type_total : List (Text × ℕ) → ℕ
type_total [] = 0
type_total ((t, n) ∷ m) = n + type_total m

eq_same : (a b c : ℕ) → (a == b) ≡ true → (a == c) ≡ (b == c)
eq_same a b c h = ground arith

absorb : (x y : Bool) → (x || y) ≡ ((x || y) || x)
absorb true y = refl
absorb false true = refl
absorb false false = refl

or_assoc : (a b c : Bool) → (a || (b || c)) ≡ ((a || b) || c)
or_assoc true b c = refl
or_assoc false b c = refl

or_comm : (a b : Bool) → (a || b) ≡ (b || a)
or_comm true true = refl
or_comm true false = refl
or_comm false true = refl
or_comm false false = refl

add_ship-has_category :
    (e : Entry) (gs : List Group) (c : Category)
    → has_category (add_ship e gs) c ≡ (has_category gs c || same_category e.category c)
unfolding add_ship
add_ship-has_category e [] c = or_comm (same_category e.category c) false
add_ship-has_category e (g ∷ gs) c = elim (Bool-cases (same_category g.category e.category)) [
  | inl hit ↦ rw hit (
      absorb (same_category g.category c) (has_category gs c)
      ∙ ap (λ b. (same_category g.category c || has_category gs c) || b)
          (eq_same (rank g.category) (rank e.category) (rank c) hit))
  | inr miss ↦
      rw (miss, add_ship-has_category e gs c)
        (or_assoc (same_category g.category c) (has_category gs c) (same_category e.category c))
]

group_ships-has_category_from :
    (es : List Entry) (gs : List Group) (c : Category)
    → has_category (group_ships es gs) c
      ≡ (has_category gs c || any (λ e. same_category e.category c) es)
unfolding group_ships
group_ships-has_category_from [] gs c = or_comm false (has_category gs c)
group_ships-has_category_from (e ∷ es) gs c =
    group_ships-has_category_from es (add_ship e gs) c
    ∙ ap (λ b. b || any (λ x. same_category x.category c) es) (add_ship-has_category e gs c)
    ∙ sym (or_assoc (has_category gs c) (same_category e.category c) _)

-- A category has a group exactly when there is a ship of it.
pub group_ships-has_category :
    (es : List Entry) (c : Category)
    → has_category (group_ships es []) c ≡ any (λ e. same_category e.category c) es
group_ships-has_category es c = group_ships-has_category_from es [] c

bump_type-total : (t : Text) (m : List (Text × ℕ)) → type_total (bump_type t m) ≡ type_total m + 1
unfolding bump_type
bump_type-total t [] = omega arith
bump_type-total t ((u, n) ∷ m) = elim (Bool-cases (text_eq u t)) [
  | inl hit ↦ rw hit (omega arith)
  | inr miss ↦ rw miss (omega (arith, bump_type-total t m))
]

abbrev pub AddsUp : List Group → Type 0
AddsUp = All (λ g. g.count ≡ type_total g.types)

add_ship-AddsUp : (e : Entry) (gs : List Group) → AddsUp gs → AddsUp (add_ship e gs)
unfolding add_ship
add_ship-AddsUp e [] h = (sym (bump_type-total e.kind []), tt)
add_ship-AddsUp e (g ∷ gs) h = elim (Bool-cases (same_category g.category e.category)) [
  | inl hit ↦ rw hit (ap (λ n. n + 1) h.0 ∙ sym (bump_type-total e.kind g.types), h.1)
  | inr miss ↦ rw miss (h.0, add_ship-AddsUp e gs h.1)
]

pub group_ships-AddsUp :
    (es : List Entry) (gs : List Group) → AddsUp gs → AddsUp (group_ships es gs)
unfolding group_ships
group_ships-AddsUp [] gs h = h
group_ships-AddsUp (e ∷ es) gs h = group_ships-AddsUp es (add_ship e gs) (add_ship-AddsUp e gs h)

apart_counts :
    (a b c n m : ℕ)
    → (a == b) ≡ false
    → (if a == c then n else m + (if b == c then 1 else 0))
      ≡ (if a == c then n else m) + (if b == c then 1 else 0)
apart_counts a b c n m h = ground arith

add_ship-count_in :
    (e : Entry) (gs : List Group) (c : Category)
    → count_in c (add_ship e gs) ≡ count_in c gs + (if same_category e.category c then 1 else 0)
unfolding add_ship
add_ship-count_in e [] c = ground arith
add_ship-count_in e (g ∷ gs) c = elim (Bool-cases (same_category g.category e.category)) [
  | inl hit ↦
      let same = eq_same (rank g.category) (rank e.category) (rank c) hit in
      rw (hit, ← same) (by_test (same_category g.category c) g.count (count_in c gs))
  | inr miss ↦
      rw (miss, add_ship-count_in e gs c)
        (apart_counts (rank g.category) (rank e.category) (rank c) g.count (count_in c gs) miss)
]
  where
    by_test :
        (b : Bool) (n m : ℕ)
        → (if b then n + 1 else m) ≡ (if b then n else m) + (if b then 1 else 0)
    by_test true n m = refl
    by_test false n m = omega arith

group_ships-count_in_from :
    (es : List Entry) (gs : List Group) (c : Category)
    → count_in c (group_ships es gs) ≡ count_in c gs + ships_in c es
unfolding group_ships
group_ships-count_in_from [] gs c = omega arith
group_ships-count_in_from (e ∷ es) gs c =
    group_ships-count_in_from es (add_ship e gs) c ∙ ground (arith, add_ship-count_in e gs c)

-- The count of a category is the number of its ships.
pub group_ships-count_in :
    (es : List Entry) (c : Category) → count_in c (group_ships es []) ≡ ships_in c es
group_ships-count_in es c = group_ships-count_in_from es [] c ∙ omega arith
