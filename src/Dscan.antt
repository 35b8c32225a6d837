-- ===== src/Dscan.antt =====
-- frontend/src/components/DscanParser.jsx: a pasted directional scan read line by line.
mod Categories
mod Groups
mod Hulls
mod SmallHulls
mod Tests
pub mod Accounts
pub mod Grouping
pub mod Threat
pub mod Decoy
use lawn_eve_intel_dashboard.Common.{
  ℕ, suc, ◌+◌, ◌*◌, String, Bool, true, false, not, ◌&&◌, ◌||◌, Option, none, some, List, [], ◌∷◌,
  ◌++◌, map, ltb, ◌==◌, if◌then◌else◌, first_some, length, filter, any,
}
use lawn_eve_intel_dashboard.Common.Text.{
  Text, codes, is_digit, is_space, lower, text_eq, is_nil, trim, split, ends_with,
}
pub use Categories.*
use Groups.{groups}
use Hulls.{hulls}
use SmallHulls.{small_hulls}

abbrev pub Table : Type 0
Table = List (String × Category)

-- `GROUP_CATEGORIES`.
unfoldable pub group_categories : Table
unfolding groups hulls small_hulls
group_categories = groups ++ (hulls ++ small_hulls)

-- A digit or one of `,.*-` in front, or a unit of distance at the end (DISTANCE_RE).
unfoldable pub is_distance : Text → Bool
unfolding ends_with
is_distance v =
    let low = map lower v in
    starts_like v
    || ends_with low (codes "km")
    || ends_with low (codes "au")
    || ends_with low (codes " m")
  where
    starts_like : Text → Bool
    starts_like [] = false
    starts_like (c ∷ s) = is_digit c || c == b',' || c == b'.' || c == b'*' || c == b'-'

-- /^Sun\s/i.
unfoldable pub is_sun : Text → Bool
is_sun (a ∷ b ∷ c ∷ d ∷ s) = lower a == b's' && lower b == b'u' && lower c == b'n' && is_space d
is_sun _ = false

unfoldable pub lookup_with : (Text → Text) → Table → Text → Option Category
unfolding text_eq
lookup_with norm [] v = none
lookup_with norm ((k, c) ∷ t) v =
    if text_eq (norm (codes k)) v then some c else lookup_with norm t v

-- `GROUP_CATEGORIES[val] || GROUP_CATEGORIES_LOWER[val.toLowerCase()]`.
unfoldable pub find_category : Table → Text → Option Category
unfolding lookup_with
find_category table v =
    first_some (lookup_with (λ k. k) table v) (lookup_with (map lower) table (map lower v))

-- The loop over the columns: the category, and the field that gave it.
unfoldable pub scan_parts : Table → List Text → Option (Category × Text)
scan_parts table [] = none
scan_parts table (part ∷ parts) =
    let val = trim part in
    let rest = scan_parts table parts in
    if is_nil val || is_distance val
    then rest
    else if is_sun val
    then some (probe, val)
    else elim (find_category table val) [ some c ↦ some (c, val) | none ↦ rest ]

-- The first column that is no distance and not the field that was matched.
unfoldable pub find_name : Text → List Text → Text
unfolding text_eq
find_name matched [] = matched
find_name matched (part ∷ parts) =
    let v = trim part in
    if not (is_nil v) && (not (is_distance v) && not (text_eq v matched))
    then v
    else find_name matched parts

pub record Entry : Type 0 where
  pub name : Text
  pub kind : Text
  pub category : Category

-- What the loop over the lines gathers.
pub record Parsed : Type 0 where
  pub ships : List Entry
  pub structures : List Entry
  pub unrecognized : ℕ
  pub samples : List Text

abbrev pub is_structure : Category → Bool
is_structure structure = true
is_structure deployable = true
is_structure bubble = true
is_structure sov = true
is_structure _ = false

abbrev pub is_probe : Category → Bool
is_probe probe = true
is_probe _ = false

abbrev pub add_entry : Entry → Parsed → Parsed
add_entry e acc =
    if is_structure e.category
    then record acc { structures = acc.structures ++ (e ∷ []) }
    else if is_probe e.category
    then acc
    else record acc { ships = acc.ships ++ (e ∷ []) }

abbrev pub too_few : List Text → Bool
too_few (a ∷ b ∷ ps) = false
too_few _ = true

-- A line without columns is always kept as a sample, one without a category among the first five.
unfoldable pub parse_parts : Table → Text → List Text → Parsed → Parsed
parse_parts table line parts acc =
    if too_few parts
    then record acc { unrecognized = suc acc.unrecognized; samples = acc.samples ++ (line ∷ []) }
    else elim (scan_parts table parts) [
      | none ↦ record acc {
        unrecognized = suc acc.unrecognized;
        samples = if ltb (length acc.samples) 5 then acc.samples ++ (line ∷ []) else acc.samples;
      }
      | some (c, matched) ↦
          add_entry (record { name = find_name matched parts; kind = matched; category = c }) acc
    ]

unfoldable pub parse_lines : Table → List Text → Parsed → Parsed
unfolding parse_parts
parse_lines table [] acc = acc
parse_lines table (l ∷ ls) acc = parse_lines table ls (parse_parts table l (split b'\t' l) acc)

-- The lines that are not blank, trimmed, with carriage returns removed.
unfoldable pub lines_of : Text → List Text
unfolding trim split
lines_of raw =
    filter (λ l. not (is_nil l))
      (map trim (split b'\n' (trim (filter (λ c. not (c == b'\r')) raw))))

pub record Group : Type 0 where
  pub category : Category
  pub count : ℕ
  pub types : List (Text × ℕ)

-- `types[t] = (types[t] || 0) + 1`.
unfoldable pub bump_type : Text → List (Text × ℕ) → List (Text × ℕ)
unfolding text_eq
bump_type t [] = (t, 1) ∷ []
bump_type t ((u, n) ∷ m) = if text_eq u t then (u, n + 1) ∷ m else (u, n) ∷ bump_type t m

-- One round of the grouping of ships by category.
unfoldable pub add_ship : Entry → List Group → List Group
unfolding bump_type
add_ship e [] = record { category = e.category; count = 1; types = bump_type e.kind [] } ∷ []
add_ship e (g ∷ gs) =
    if same_category g.category e.category
    then record g { count = g.count + 1; types = bump_type e.kind g.types } ∷ gs
    else g ∷ add_ship e gs

unfoldable pub group_ships : List Entry → List Group → List Group
unfolding add_ship
group_ships [] gs = gs
group_ships (e ∷ es) gs = group_ships es (add_ship e gs)

pub data Tier : Type 0 where
  clear minimal low medium high critical : Tier

-- `THREAT_TIERS.find(t => t.test(presentCats))`, given which categories are present.
unfoldable pub tier_of : (Category → Bool) → Tier
tier_of present =
    if present super
    then critical
    else if present capital
    then high
    else if present doctrine || present recon
    then medium
    else if present battleship || (present battlecruiser || (present support || present tackle))
    then low
    else minimal

abbrev pub has_category : List Group → Category → Bool
has_category gs c = any (λ g. same_category g.category c) gs

pub record Scan : Type 0 where
  pub by_cat : List Group
  pub structures : List Entry
  pub ships : ℕ
  pub total : ℕ
  pub unrecognized : ℕ
  pub samples : List Text
  pub threat : Tier

unfoldable pub scan_of : Parsed → ℕ → Scan
unfolding group_ships tier_of
scan_of p total =
    let by_cat = group_ships p.ships [] in
    record {
      by_cat = by_cat;
      structures = p.structures;
      ships = length p.ships;
      total = total;
      unrecognized = p.unrecognized;
      samples = p.samples;
      threat = if length p.ships == 0 then clear else tier_of (has_category by_cat);
    }

-- `parseDscan`, over a table of names.
unfoldable pub parse_dscan : Table → Text → Option Scan
unfolding trim lines_of parse_lines scan_of
parse_dscan table raw =
    if is_nil (trim raw)
    then none
    else let lines = lines_of raw in
      some (
        scan_of
          (parse_lines table lines
            (record { ships = []; structures = []; unrecognized = 0; samples = [] }))
          (length lines))
