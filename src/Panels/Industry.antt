-- ===== src/Panels/Industry.antt =====
-- PlanetaryIntel.jsx: the panel as a whole. `le` is the order in which `sort` puts names, and the
-- planets of a system are the types that are written for them.
use lawn_eve_intel_dashboard.Common.{
  ℕ, ◌+◌, String, Bool, true, false, not, Option, none, some, List, [], ◌∷◌, ◌++◌, map, ltb, ◌==◌,
  str_eq, if◌then◌else◌, or_else, any, filter, length,
}
use lawn_eve_intel_dashboard.Common.Named.{put_named}
use lawn_eve_intel_dashboard.Common.Sort.{sort}
use lawn_eve_intel_dashboard.Common.Text.{Text, codes, text_eq}
use lawn_eve_intel_dashboard.Config.{System, Constellation, or_nil}
use lawn_eve_intel_dashboard.Config.Sets.{has}
use lawn_eve_intel_dashboard.Panels.Planets.{
  Priority, Product, priority_products, extract_type, requires, strategic_importance,
}

-- `piData`.
abbrev pub PiData : Type 0
PiData = List (String × List Text)

abbrev pub keys : PiData → List String
keys data_ = map (λ d. d.0) data_

-- `systemConstellation`: the last constellation that lists a system of the name.
abbrev pub label_systems : String → List System → List (String × String) → List (String × String)
label_systems name [] labels = labels
label_systems name (s ∷ ss) labels = label_systems name ss (put_named s.name name labels)

unfoldable pub system_constellation :
    List (ℕ × Constellation) → List (String × String) → List (String × String)
unfolding put_named
system_constellation [] labels = labels
system_constellation (c ∷ cs) labels =
    system_constellation cs (label_systems (or_else c.1.name "") (or_nil c.1.systems) labels)

-- `totalPlanets`.
unfoldable pub total_planets : PiData → ℕ
total_planets [] = 0
total_planets (d ∷ ds) = length d.1 + total_planets ds

-- `orderedSystems`.
unfoldable pub ordered_systems : (String → String → Bool) → List String → PiData → List String
unfolding sort
ordered_systems le primary data_ =
    filter (λ s. has str_eq s (keys data_)) primary
    ++ sort le (filter (λ s. not (has str_eq s primary)) (keys data_))

-- `allTypes` of the filter row, as its test.
abbrev pub has_planet : String → List Text → Bool
has_planet kind ts = any (λ t. text_eq (extract_type t) (codes kind)) ts

unfoldable pub is_found : PiData → String → Bool
unfolding text_eq extract_type
is_found data_ kind = any (λ d. has_planet kind d.1) data_

pub data Covering : Type 0 where
  full partial no_cover : Covering

-- `coverIcon`.
abbrev pub cover_icon : ℕ → ℕ → Covering
cover_icon covered missing =
    if missing == 0 then full else if ltb 0 covered then partial else no_cover

-- A button of the filter row: the types it finds and misses.
pub record Cover : Type 0 where
  pub product : Product
  pub covered : List String
  pub missing : List String
  pub icon : Covering

unfoldable pub cover_of : PiData → Product → Cover
unfolding is_found
cover_of data_ p =
    let found = filter (is_found data_) p.required in
    let lost = filter (λ t. not (is_found data_ t)) p.required in
    record {
      product = p;
      covered = found;
      missing = lost;
      icon = cover_icon (length found) (length lost);
    }

unfoldable pub coverage_row : PiData → List Cover
unfolding cover_of
coverage_row data_ = map (cover_of data_) priority_products

-- `onSelect(isActive ? null : product)`. A product is named by its short name, which no other one has.
abbrev pub is_chosen : Product → Option Product → Bool
is_chosen p none = false
is_chosen p (some q) = str_eq p.short q.short

unfoldable pub select : Product → Option Product → Option Product
select p chosen = if is_chosen p chosen then none else some p

-- How a type looks while a product is chosen.
pub data Look : Type 0 where
  plain highlighted dimmed : Look

unfoldable pub look_of : Option Product → Text → Look
unfolding text_eq
look_of none kind = plain
look_of (some p) kind = if requires kind p then highlighted else dimmed

-- The card of a system is dimmed if it has no planet that the chosen product needs.
unfoldable pub is_relevant : Option Product → List Text → Bool
unfolding text_eq extract_type
is_relevant none planets = true
is_relevant (some p) planets = any (λ kind. has_planet kind planets) p.required

-- `PLANET_TYPES` in order, and their counts in `TypeSummary`.
abbrev pub planet_types : List String
planet_types = "Barren" ∷ "Temperate" ∷ "Gas" ∷ "Ice" ∷ "Lava" ∷ "Oceanic" ∷ "Storm" ∷ "Plasma" ∷ []

unfoldable pub count_type : PiData → String → ℕ
unfolding text_eq extract_type
count_type [] kind = 0
count_type (d ∷ ds) kind =
    length (filter (λ t. text_eq (extract_type t) (codes kind)) d.1) + count_type ds kind

-- What `TypeSummary` says of a type: its count, and its importance where it has planets.
pub record TypeLine : Type 0 where
  pub kind : String
  pub count : ℕ
  pub look : Look
  pub importance : Option Priority

unfoldable pub type_line : Option Product → PiData → String → TypeLine
unfolding count_type look_of strategic_importance
type_line chosen data_ kind = record {
  kind = kind;
  count = count_type data_ kind;
  look = look_of chosen (codes kind);
  importance =
      if ltb 0 (count_type data_ kind)
      then strategic_importance (codes kind) priority_products
      else none;
}

unfoldable pub type_summary : Option Product → PiData → List TypeLine
unfolding type_line
type_summary chosen data_ = map (type_line chosen data_) planet_types

-- What the panel shows, from how its request ended.
pub data PiState : Type 0 where
  waiting : PiState
  failed : String → PiState
  loaded : PiData → PiState

pub data PiView : Type 0 where
  loading : PiView
  error : String → PiView
  panel : ℕ → ℕ → List Cover → List String → List TypeLine → PiView

unfoldable pub planetary_intel :
    (String → String → Bool) → List String → Option Product → PiState → PiView
unfolding total_planets coverage_row ordered_systems type_summary
planetary_intel le primary chosen waiting = loading
planetary_intel le primary chosen (failed message) = error message
planetary_intel le primary chosen (loaded data_) =
    panel (total_planets data_) (length data_) (coverage_row data_)
      (ordered_systems le primary data_) (type_summary chosen data_)
