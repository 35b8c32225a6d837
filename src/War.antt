-- ===== src/War.antt =====
-- frontend/src/utils/warHelpers.js and frontend/src/pages/WarPage.jsx: the two sides of a war, its
-- losses, and the loading and editing of the page. ISK amounts are whole numbers. What the server
-- sends and the page only shows is of a type `J`.
mod Tests
pub mod Hulls
pub mod Totals
pub mod Amounts
pub mod Chart
pub mod Board
pub mod Page
use lawn_eve_intel_dashboard.Common.{
  ℕ, ◌+◌, String, Bool, not, Option, none, some, List, [], ◌∷◌, ◌++◌, str_eq, if◌then◌else◌,
  or_else, first_some, filter, take,
}
use lawn_eve_intel_dashboard.Common.Text.{Text, split}
use lawn_eve_intel_dashboard.Config.Sets.{add, has}

-- `SIDES`.
pub data SideKey : Type 0 where
  a b : SideKey

-- A missing or empty text is `none`.
pub record Side : Type 0 where
  pub label : Option String
  pub short : Option String
  pub color : Option String

pub record SideMeta : Type 0 where
  pub side_key : Option SideKey
  pub label : String
  pub short : String
  pub color : String

abbrev pub default_label : SideKey → String
default_label a = "Side A"
default_label b = "Side B"

abbrev pub default_short : SideKey → String
default_short a = "A"
default_short b = "B"

abbrev pub default_color : SideKey → String
default_color a = "#ff3355"
default_color b = "#00ff88"

abbrev pub no_side : Side
no_side = record { label = none; short = none; color = none }

abbrev pub meta_of : SideKey → Side → SideMeta
meta_of k s = record {
  side_key = some k;
  label = or_else s.label (default_label k);
  short = or_else (first_some s.short s.label) (default_short k);
  color = or_else s.color (default_color k);
}

-- `sideMeta`, given the sides of the war, where there is one.
unfoldable pub side_meta : (SideKey → Option Side) → Option SideKey → SideMeta
side_meta sides none = record {
  side_key = none;
  label = "Unaligned";
  short = "NEUTRAL";
  color = "#6a8090";
}
side_meta sides (some k) = meta_of k (or_else (sides k) no_side)

-- `periodLabel`, on the parts of a period between its hyphens.
abbrev pub day_label : Text → List Text → Text
day_label period (y ∷ m ∷ (c ∷ d) ∷ ps) = m ++ (b'/' ∷ c ∷ d)
day_label period _ = period

unfoldable pub period_label : Bool → Text → Text
unfolding split
period_label by_month [] = []
period_label by_month (c ∷ s) =
    if by_month then take 7 (c ∷ s) else day_label (c ∷ s) (split b'-' (c ∷ s))

pub record Losses : Type 0 where
  pub count : ℕ
  pub isk : ℕ

-- `shipClasses`: the losses of each side by class.
abbrev pub ShipClasses : Type 0
ShipClasses = SideKey → List (String × Losses)

abbrev pub sum_losses : List (String × Losses) → Losses → Losses
sum_losses [] acc = acc
sum_losses (v ∷ vs) acc =
    sum_losses vs (record { count = acc.count + v.1.count; isk = acc.isk + v.1.isk })

-- `hullTotals`.
unfoldable pub hull_totals : ShipClasses → SideKey → Losses
hull_totals classes k = sum_losses (classes k) (record { count = 0; isk = 0 })

-- `HULL_ORDER`.
abbrev pub hull_order : List String
hull_order = "super" ∷ "capital" ∷ "structure" ∷ "subcap" ∷ "pod" ∷ "fighter" ∷ "deployable" ∷ []

abbrev pub add_classes : List (String × Losses) → List String → List String
add_classes [] seen = seen
add_classes (v ∷ vs) seen = add_classes vs (add str_eq v.0 seen)

abbrev pub seen_classes : ShipClasses → List String
seen_classes classes = add_classes (classes b) (add_classes (classes a) [])

-- `orderedHullClasses`.
unfoldable pub ordered_hull_classes : ShipClasses → List String
unfolding add
ordered_hull_classes classes =
    filter (λ c. has str_eq c (seen_classes classes)) hull_order
    ++ filter (λ c. not (has str_eq c hull_order)) (seen_classes classes)
