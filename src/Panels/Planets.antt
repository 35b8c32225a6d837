-- ===== src/Panels/Planets.antt =====
-- frontend/src/components/PlanetaryIntel.jsx: the planets of a system by type, and what they are
-- good for. The order of two names, `localeCompare`, is a parameter.
use lawn_eve_intel_dashboard.Common.{
  ℕ, ◌+◌, String, Bool, true, false, Option, none, some, List, [], ◌∷◌, leb, ◌==◌, if◌then◌else◌,
  or_else, first_some, any,
}
use lawn_eve_intel_dashboard.Common.Text.{Text, codes, text_eq}
use lawn_eve_intel_dashboard.Common.Sort.{sort}
use lawn_eve_intel_dashboard.Dscan.{bump_type}

-- `([^)]+)` and a closing parenthesis, behind an opening one.
abbrev pub one_longer : ℕ → Option Text → Option Text
one_longer c none = none
one_longer c (some s) = some (c ∷ s)

unfoldable pub inside : Text → Option Text
inside [] = none
inside (c ∷ s) = let rest = one_longer c (inside s) in if c == b')' then some [] else rest

abbrev pub non_empty : Option Text → Option Text
non_empty none = none
non_empty (some []) = none
non_empty (some (c ∷ s)) = some (c ∷ s)

unfoldable pub first_group : Text → Option Text
unfolding inside
first_group [] = none
first_group (c ∷ s) =
    let rest = first_group s in if c == b'(' then first_some (non_empty (inside s)) rest else rest

-- `extractType`.
unfoldable pub extract_type : Text → Text
unfolding first_group
extract_type s = or_else (first_group s) s

pub data Priority : Type 0 where
  critical high : Priority

pub record Product : Type 0 where
  pub short : String
  pub priority : Priority
  pub required : List String

-- `PRIORITY_PRODUCTS`.
abbrev pub priority_products : List Product
priority_products =
    (record {
      short = "FB";
      priority = critical;
      required = "Temperate" ∷ "Ice" ∷ "Gas" ∷ "Lava" ∷ [];
    })
    ∷ (record {
      short = "BSC";
      priority = high;
      required = "Lava" ∷ "Storm" ∷ "Plasma" ∷ "Barren" ∷ "Temperate" ∷ [];
    })
    ∷ (record {
      short = "P4";
      priority = high;
      required = "Temperate" ∷ "Oceanic" ∷ "Gas" ∷ "Lava" ∷ "Storm" ∷ "Plasma" ∷ [];
    })
    ∷ []

abbrev pub requires : Text → Product → Bool
requires kind p = any (λ t. text_eq (codes t) kind) p.required

-- `STRATEGIC_IMPORTANCE[type]`: the first product that needs the type.
unfoldable pub strategic_importance : Text → List Product → Option Priority
unfolding text_eq
strategic_importance kind [] = none
strategic_importance kind (p ∷ ps) =
    if requires kind p then some p.priority else strategic_importance kind ps

-- `typeCounts`, of the types that are written for the planets.
unfoldable pub type_counts : List Text → List (Text × ℕ) → List (Text × ℕ)
unfolding bump_type extract_type
type_counts [] counts = counts
type_counts (t ∷ ts) counts = type_counts ts (bump_type (extract_type t) counts)

-- `TYPE_SORT_ORDER`.
abbrev pub type_sort_order : List String
type_sort_order =
    "Oceanic" ∷ "Storm" ∷ "Plasma" ∷ "Ice" ∷ "Lava" ∷ "Temperate" ∷ "Gas" ∷ "Barren" ∷ []

-- `indexOf`.
abbrev pub one_more : Option ℕ → Option ℕ
one_more none = none
one_more (some n) = some (n + 1)

unfoldable pub index_of : Text → List String → Option ℕ
unfolding text_eq
index_of t [] = none
index_of t (s ∷ ss) =
    let rest = one_more (index_of t ss) in if text_eq (codes s) t then some 0 else rest

abbrev pub place_before : (Text → Text → Bool) → Text → Text → Option ℕ → Option ℕ → Bool
place_before name_before a b none none = name_before a b
place_before name_before a b none (some j) = false
place_before name_before a b (some i) none = true
place_before name_before a b (some i) (some j) = leb i j

-- `sortedTypes`.
unfoldable pub sorted_types : (Text → Text → Bool) → List (Text × ℕ) → List (Text × ℕ)
unfolding sort index_of
sorted_types name_before counts =
    sort
      (λ a b.
        place_before name_before a.0 b.0 (index_of a.0 type_sort_order)
          (index_of b.0 type_sort_order))
      counts

-- `hasRelevantType`: a card without one is dimmed while a product is selected.
unfoldable pub has_relevant_type : Option Product → List (Text × ℕ) → Bool
unfolding text_eq
has_relevant_type none counts = true
has_relevant_type (some p) counts = any (λ t. any (λ c. text_eq c.0 (codes t)) counts) p.required
