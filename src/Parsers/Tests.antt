-- ===== src/Parsers/Tests.antt =====
-- LocalScanner.jsx: pasted names, and a scan that comes too late.
use lawn_eve_intel_dashboard.Common.{ℕ, ◌≡◌, refl, false, none, some, [], ◌∷◌}
use lawn_eve_intel_dashboard.Common.Text.{Text, codes, text_eq}
use lawn_eve_intel_dashboard.Dscan.{Parsed, Entry, super, scan_of}
use lawn_eve_intel_dashboard.Parsers.{
  parse_names, Scanner, handle_scan, handle_clear, settle_scan, arrived,
}
use lawn_eve_intel_dashboard.Parsers.Names.{Names, parts_of, parse_names-Names}
use lawn_eve_intel_dashboard.Parsers.Texts.{ship_cat_rows}
use lawn_eve_intel_dashboard.Parsers.Rows.{row_total, ship_cat_rows-total}

abbrev pasted : Text
pasted = codes "Bo, Al  Bo\tCy"

names : parse_names pasted ≡ codes "Bo" ∷ codes "Al" ∷ codes "Cy" ∷ []
unfolding parse_names text_eq
names = refl

lines : parse_names (codes "Bo Al\nCy\n\nBo Al ") ≡ codes "Bo Al" ∷ codes "Cy" ∷ []
unfolding parse_names text_eq
lines = refl

parse_names-Names_example : Names (parts_of pasted) (parse_names pasted)
parse_names-Names_example = parse_names-Names pasted

abbrev titan : Entry
titan = record { name = codes "x"; kind = codes "Avatar"; category = super }

abbrev two : Parsed
two = record { ships = titan ∷ titan ∷ []; structures = []; unrecognized = 0; samples = [] }

ship_cat_rows-total_example :
    row_total (ship_cat_rows (some (scan_of two 2))) ≡ (scan_of two 2).ships
ship_cat_rows-total_example = ship_cat_rows-total two 2

abbrev empty : Scanner ℕ
empty = record { raw_input = pasted; results = none; scanning = false; error = none; requests = [] }

-- The response of a scan fills the panel again after it was cleared.
late_response : (settle_scan (arrived 7) (handle_clear (handle_scan empty))).results ≡ some 7
unfolding settle_scan handle_clear handle_scan
late_response = refl
