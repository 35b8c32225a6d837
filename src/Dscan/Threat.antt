-- ===== src/Dscan/Threat.antt =====
-- DscanParser.jsx: the threat banner against the ships of the scan.
use lawn_eve_intel_dashboard.Common.{
  ℕ, suc, ◌≤◌, ◌≡◌, refl, ap, ◌∙◌, Bool, false, ◌||◌, some, List, [], ◌∷◌, arith, ◌==◌,
  if◌then◌else◌, length, any,
}
use lawn_eve_intel_dashboard.Common.Text.{Text, is_nil, trim}
use Prim.Native.Nat.{max}
use lawn_eve_intel_dashboard.Dscan.{
  Category, super, capital, battleship, battlecruiser, doctrine, recon, support, tackle, Table,
  Entry, Parsed, Scan, Tier, clear, minimal, low, medium, high, critical, same_category,
  has_category, tier_of, group_ships, parse_lines, lines_of, scan_of, parse_dscan,
}
use lawn_eve_intel_dashboard.Dscan.Accounts.{nothing, parse_dscan-some}
use lawn_eve_intel_dashboard.Dscan.Grouping.{
  group_ships-has_category, group_ships-count_in, group_ships-AddsUp, ships_in, count_in, AddsUp,
}

-- How much danger a ship of a category is.
abbrev pub danger : Category → ℕ
danger super = 5
danger capital = 4
danger doctrine = 3
danger recon = 3
danger battleship = 2
danger battlecruiser = 2
danger support = 2
danger tackle = 2
danger _ = 1

abbrev pub greatest_danger : List Entry → ℕ
greatest_danger [] = 0
greatest_danger (e ∷ es) = max (danger e.category) (greatest_danger es)

abbrev pub level : Tier → ℕ
level clear = 0
level minimal = 1
level low = 2
level medium = 3
level high = 4
level critical = 5

present : List Entry → Category → Bool
present es c = any (λ e. same_category e.category c) es

-- The ladder of tests, by level.
ladder : (Category → Bool) → ℕ
ladder p =
    if p super
    then 5
    else if p capital
    then 4
    else if p doctrine || p recon
    then 3
    else if p battleship || (p battlecruiser || (p support || p tackle))
    then 2
    else 1

tier_of-ladder : (p : Category → Bool) → level (tier_of p) ≡ ladder p
unfolding tier_of ladder
tier_of-ladder p = ground arith

-- One more ship of a category.
ladder-add :
    (c : Category) (p : Category → Bool)
    → ladder (λ d. same_category c d || p d) ≡ max (danger c) (ladder p)
unfolding ladder
ladder-add super p = ground arith
ladder-add c p = ground arith

ladder-present : (es : List Entry) → ladder (present es) ≡ max 1 (greatest_danger es)
unfolding present
ladder-present [] = unfold ladder in refl
ladder-present (e ∷ es) = ladder-add e.category (present es) ∙ omega (arith, ladder-present es)

danger_pos : (c : Category) → 1 ≤ danger c
danger_pos super = omega arith
danger_pos c = omega arith

threat_level :
    (es : List Entry)
    → level (if length es == 0 then clear else tier_of (present es)) ≡ greatest_danger es
threat_level [] = refl
threat_level (e ∷ es) = rw (not_zero (length es)) (
    tier_of-ladder (present (e ∷ es))
    ∙ ladder-present (e ∷ es)
    ∙ omega (arith, danger_pos e.category))
  where
    not_zero : (n : ℕ) → (suc n == 0) ≡ false
    not_zero n = ground arith

same_tier : (es : List Entry) → tier_of (has_category (group_ships es [])) ≡ tier_of (present es)
unfolding tier_of present
same_tier es = simp (group_ships-has_category)

-- The ships of a scan, as the loop over its lines gathers them.
abbrev pub ships_of : Table → Text → List Entry
ships_of table raw = (parse_lines table (lines_of raw) nothing).ships

-- What the scan says of its ships: their number; that the banner is that of the most dangerous
-- ship, or CLEAR without ships; and that each category has its number of ships, which the types in
-- it add up to.
pub record Assessed (es : List Entry) (r : Scan) : Type 0 where
  pub ships : r.ships ≡ length es
  pub threat : level r.threat ≡ greatest_danger es
  pub counts : (c : Category) → count_in c r.by_cat ≡ ships_in c es
  pub types : AddsUp r.by_cat

scan_of-Assessed : (p : Parsed) (total : ℕ) → Assessed p.ships (scan_of p total)
unfolding scan_of
scan_of-Assessed p total = record {
  ships = refl;
  threat =
      ap (λ t. level (if length p.ships == 0 then clear else t)) (same_tier p.ships)
      ∙ threat_level p.ships;
  counts = group_ships-count_in p.ships;
  types = group_ships-AddsUp p.ships [] tt;
}

-- A scan that is not blank has a result: the number of ships is right, the banner is that of the
-- most dangerous ship (CLEAR if there is none), each category has as many ships as the scan says,
-- and the types listed under a category add up to its count.
pub parse_dscan-Assessed :
    (table : Table) (raw : Text)
    → is_nil (trim raw) ≡ false
    → (r : Scan) × (parse_dscan table raw ≡ some r) × Assessed (ships_of table raw) r
parse_dscan-Assessed table raw h = (
  _,
  parse_dscan-some table raw h,
  scan_of-Assessed (parse_lines table (lines_of raw) nothing) (length (lines_of raw)),
)
