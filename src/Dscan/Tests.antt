-- ===== src/Dscan/Tests.antt =====
-- Scans as they are pasted, and the theorems at them.
use lawn_eve_intel_dashboard.Common.{ℕ, ◌+◌, ◌≡◌, refl, Option, none, some, [], ◌∷◌, length}
use lawn_eve_intel_dashboard.Common.Text.{Text, codes, trim, split}
use lawn_eve_intel_dashboard.Dscan.{
  Table, Scan, clear, super, capital, frigate, is_distance, is_sun, find_category, scan_parts,
  find_name, parse_parts, lines_of, parse_dscan,
}
use lawn_eve_intel_dashboard.Dscan.Accounts.{nothing, left_out, parse_dscan-total}
use lawn_eve_intel_dashboard.Dscan.Threat.{Assessed, ships_of, parse_dscan-Assessed}
use lawn_eve_intel_dashboard.Dscan.Decoy.{parse_parts_sun}

-- The lookups run over a part of the table here.
abbrev table : Table
table = ("Avatar", super) ∷ ("Carrier", capital) ∷ ("Rifter", frigate) ∷ []

abbrev raw : Text
raw = codes "1\tbob\tRifter\t3 km\r\n2\tx\tcarrier\t-\n\njunk\n3\tSun one\tAvatar\t1 AU"

-- The result, or that of a blank text.
abbrev or_blank : Option Scan → Scan
or_blank none = record {
  by_cat = [];
  structures = [];
  ships = 0;
  total = 0;
  unrecognized = 0;
  samples = [];
  threat = clear;
}
or_blank (some r) = r

abbrev result : Scan
result = or_blank (parse_dscan table raw)

summary : ◌≡◌ {A = ℕ × ℕ × ℕ} (result.ships, result.total, result.unrecognized) (2, 4, 1)
unfolding parse_dscan scan_parts find_category is_distance is_sun find_name
summary = refl

parse_dscan-total_example :
    (r : Scan) × (parse_dscan table raw ≡ some r)
    × (r.total ≡ length (lines_of raw))
    × (r.ships + length r.structures + r.unrecognized + left_out table (lines_of raw) ≡ r.total)
unfolding trim
parse_dscan-total_example = parse_dscan-total table raw refl

parse_dscan-Assessed_example :
    (r : Scan) × (parse_dscan table raw ≡ some r) × Assessed (ships_of table raw) r
unfolding trim
parse_dscan-Assessed_example = parse_dscan-Assessed table raw refl

abbrev decoy : Text
decoy = codes "3\tSun one\tAvatar\t1 AU"

parse_parts_sun_example : parse_parts table decoy (split b'\t' decoy) nothing ≡ nothing
unfolding split trim
parse_parts_sun_example =
    parse_parts_sun table nothing decoy (codes "3") (codes "Sun one")
      (codes "Avatar" ∷ codes "1 AU" ∷ []) refl (unfold is_distance in refl) refl
      (unfold is_distance in refl) (unfold is_sun in refl)
