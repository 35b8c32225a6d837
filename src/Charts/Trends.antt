-- ===== src/Charts/Trends.antt =====
-- AdmTrends.jsx and ActivityHeatmap.jsx: the rows of both panels. Names are put in order by `le`, as
-- `localeCompare` has them.
use lawn_eve_intel_dashboard.Common.{
  ℕ, ◌+◌, ◌*◌, String, Bool, ◌&&◌, Option, none, some, List, [], ◌∷◌, map, ltb, leb, ◌==◌,
  if◌then◌else◌, or_else, length,
}
use lawn_eve_intel_dashboard.Common.Assoc.{lookup}
use lawn_eve_intel_dashboard.Common.Int.{ℤ, pos, negsuc}
use lawn_eve_intel_dashboard.Common.Sort.{sort}
use lawn_eve_intel_dashboard.Config.{System, Constellation, or_nil}
use lawn_eve_intel_dashboard.Grinding.{
  AdmColor, get_adm_color, Point, compute_24h_change, lawn_systems,
}
use lawn_eve_intel_dashboard.MapStyle.{SovView, no_sov_view}
use lawn_eve_intel_dashboard.Charts.{Sparkline, sparkline}

pub data Mark : Type 0 where
  crit low : Mark

-- The mark of a system whose ADM is low.
abbrev pub mark_of : Bool → ℕ → Option Mark
mark_of friendly adm =
    if friendly && ltb 0 adm && ltb adm 40
    then (if ltb adm 20 then some crit else some low)
    else none

pub data Trend : Type 0 where
  rising level sinking : Trend

-- The arrow before a change in tenths.
abbrev pub trend_of : ℤ → Trend
trend_of (pos n) = if n == 0 then level else rising
trend_of (negsuc n) = sinking

abbrev pub with_trend : ℤ → Trend × ℤ
with_trend z = (trend_of z, z)

abbrev pub change_of : ℕ → List Point → ℕ → Option (Trend × ℤ)
change_of now history adm =
    if leb 2 (length history) then some (with_trend (compute_24h_change now history adm)) else none

-- A row of `AdmTrends`.
pub record TrendRow : Type 0 where
  pub name : String
  pub mark : Option Mark
  pub adm : Option (ℕ × AdmColor)
  pub change : Option (Trend × ℤ)
  pub curve : Sparkline

unfoldable pub trend_row : ℕ → List (ℕ × SovView) → List (ℕ × List Point) → System → TrendRow
unfolding lookup compute_24h_change sparkline get_adm_color
trend_row now sov histories s =
    let v = or_else (lookup s.system_id sov) no_sov_view in
    let history = or_nil (lookup s.system_id histories) in
    record {
      name = s.name;
      mark = mark_of v.is_friendly v.adm;
      adm = if ltb 0 v.adm then some (v.adm, get_adm_color v.adm) else none;
      change = change_of now history v.adm;
      curve = sparkline 120 24 history;
    }

abbrev pub adm_at : List (ℕ × SovView) → System → ℕ
adm_at sov s = (or_else (lookup s.system_id sov) no_sov_view).adm

-- `AdmTrends`: no rows without history; else the lowest ADM first.
abbrev pub rows_for : ℕ → List (ℕ × SovView) → List (ℕ × List Point) → List System → List TrendRow
rows_for now sov histories ss =
    map (trend_row now sov histories) (sort (λ s t. leb (adm_at sov s) (adm_at sov t)) ss)

unfoldable pub adm_trends :
    ℕ
    → List ℕ
    → Option (List (ℕ × Constellation))
    → List (ℕ × SovView)
    → List (ℕ × List Point)
    → Option (List TrendRow)
unfolding trend_row lawn_systems sort lookup
adm_trends now lawn_ids table sov [] = none
adm_trends now lawn_ids table sov (h ∷ hs) =
    some (rows_for now sov (h ∷ hs) (lawn_systems lawn_ids (or_nil table)))

pub data Shown : Type 0 where
  npc pvp jumps : Shown

-- An hour of a system.
pub record Hour : Type 0 where
  pub npc : ℕ
  pub pvp : ℕ
  pub jumps : ℕ

abbrev pub in_view : Shown → Hour → ℕ
in_view npc h = h.npc
in_view pvp h = h.pvp
in_view jumps h = h.jumps

abbrev pub at_most : ℕ → ℕ → ℕ
at_most top n = if leb top n then top else n

abbrev pub opacity : Shown → ℕ → ℕ
opacity npc val = 100 + val * 2
opacity pvp val = 200 + val * 200
opacity jumps val = 100 + val * 10

-- `getColor` of the heat map: the opacity in thousandths.
unfoldable pub heat_of : ℕ → Shown → ℕ
heat_of val view = if val == 0 then 20 else at_most 900 (opacity view val)

pub record HeatCell : Type 0 where
  pub hour : ℕ
  pub value : ℕ
  pub heat : ℕ

abbrev pub value_at : Option Hour → Shown → ℕ
value_at none view = 0
value_at (some h) view = in_view view h

abbrev pub heat_cell : List (ℕ × Hour) → Shown → ℕ → HeatCell
heat_cell hours view h = record {
  hour = h;
  value = value_at (lookup h hours) view;
  heat = heat_of (value_at (lookup h hours) view) view;
}

abbrev pub day_hours : List ℕ
day_hours =
    0 ∷ 1 ∷ 2 ∷ 3 ∷ 4 ∷ 5 ∷ 6 ∷ 7 ∷ 8 ∷ 9 ∷ 10 ∷ 11 ∷ 12 ∷ 13 ∷ 14 ∷ 15 ∷ 16 ∷ 17 ∷ 18 ∷ 19 ∷ 20
    ∷ 21 ∷ 22 ∷ 23 ∷ []

pub record HeatRow : Type 0 where
  pub name : String
  pub cells : List HeatCell

abbrev pub heat_row : List (ℕ × List (ℕ × Hour)) → Shown → System → HeatRow
heat_row table view s = record {
  name = s.name;
  cells = map (heat_cell (or_nil (lookup s.system_id table)) view) day_hours;
}

-- `ActivityHeatmap`, on the systems of our constellations.
unfoldable pub activity_heatmap :
    (String → String → Bool)
    → List ℕ
    → Option (List (ℕ × Constellation))
    → List (ℕ × List (ℕ × Hour))
    → Shown
    → List HeatRow
unfolding lookup heat_of lawn_systems sort
activity_heatmap le lawn_ids table data_ view =
    map (heat_row data_ view)
      (sort (λ s t. le s.name t.name) (lawn_systems lawn_ids (or_nil table)))
