-- ===== src/Results/Scans.antt =====
-- DscanResult.jsx: a directional scan as it is shown.
use lawn_eve_intel_dashboard.Common.{
  ℕ, ◌-◌, String, Bool, ◌&&◌, Option, none, some, List, [], ◌∷◌, ◌++◌, map, ltb, ◌==◌,
  if◌then◌else◌, length,
}
use lawn_eve_intel_dashboard.Common.Text.{Text, codes, show}
use lawn_eve_intel_dashboard.Dscan.{Group, Scan, Tier}
use lawn_eve_intel_dashboard.Parsers.Texts.{
  ship_cat_rows, structure_counts, format_types, category_label, times_text,
}
use lawn_eve_intel_dashboard.Results.{shown_if}

pub record ScanRow : Type 0 where
  pub label : String
  pub count : ℕ
  pub types : Text

unfoldable pub scan_row : Group → ScanRow
unfolding format_types
scan_row g = record {
  label = category_label g.category;
  count = g.count;
  types = format_types (codes "×") g.types;
}

-- `line.replace(/\t/g, ' → ')`.
abbrev pub tabs_shown : Text → Text
tabs_shown [] = []
tabs_shown (c ∷ s) = let rest = tabs_shown s in if c == 9 then codes " → " ++ rest else c ∷ rest

-- The box with lines that were not recognized: how many, samples of them, and how many more.
pub record Samples : Type 0 where
  pub count : ℕ
  pub lines : List Text
  pub more : Option ℕ

pub record ScanView : Type 0 where
  pub tier : Tier
  pub headline : Text
  pub rows : List ScanRow
  pub objects : List Text
  pub is_empty : Bool
  pub samples : Option Samples

abbrev pub headline : Scan → Text
headline scan =
    show scan.ships
    ++ (codes " combat ships · "
        ++ (show (length scan.structures)
            ++ (codes " structures"
                ++ shown_if (ltb 0 scan.unrecognized)
                    (codes " · " ++ (show scan.unrecognized ++ codes " unrecognized")))))

abbrev pub samples : Scan → Option Samples
samples scan =
    if ltb 0 scan.unrecognized && ltb 0 (length scan.samples)
    then some (record {
      count = scan.unrecognized;
      lines = map tabs_shown scan.samples;
      more =
          if ltb (length scan.samples) scan.unrecognized
          then some (scan.unrecognized - length scan.samples)
          else none;
    })
    else none

-- `DscanResult`, without what the live page puts into its slots.
unfoldable pub dscan_result : Option Scan → Option ScanView
unfolding ship_cat_rows scan_row structure_counts show
dscan_result none = none
dscan_result (some scan) = some (record {
  tier = scan.threat;
  headline = headline scan;
  rows = map scan_row (ship_cat_rows (some scan));
  objects = map (times_text (codes "×")) (structure_counts (some scan));
  is_empty = scan.ships == 0 && length scan.structures == 0;
  samples = samples scan;
})
