-- ===== src/MapStyle/Lines.antt =====
-- ConstellationMap.jsx, getConnectionStyle: how a connection is drawn.
use lawn_eve_intel_dashboard.Common.{
  ℕ, String, Bool, true, false, not, ◌&&◌, ◌||◌, str_eq, if◌then◌else◌,
}
use lawn_eve_intel_dashboard.Common.Named.{named}
use lawn_eve_intel_dashboard.Config.{Layout}
use lawn_eve_intel_dashboard.MapStyle.{lies_in_lawn}

-- A line of the map: its colour, its width and its opacity in tenths or hundredths, its dashes, and
-- whether its ends are round.
pub record Style : Type 0 where
  pub stroke : String
  pub width : ℕ
  pub dash : String
  pub opacity : ℕ
  pub round : Bool

abbrev pub style : String → ℕ → String → ℕ → Bool → Style
style stroke width dash opacity round = record {
  stroke = stroke;
  width = width;
  dash = dash;
  opacity = opacity;
  round = round;
}

-- `styles[type] || styles.internal`, of the traditional map.
abbrev pub traditional_style : String → Style
traditional_style kind =
    if str_eq kind "cross"
    then style "#00d4ff" 12 "6 3" 80 false
    else if str_eq kind "regional"
    then style "#cc44aa" 10 "8 4" 80 false
    else if str_eq kind "neighbor"
    then style "#1a2030" 10 "none" 50 false
    else style "#1a3040" 15 "none" 80 false

abbrev pub outside_style : String → Style
outside_style kind =
    if str_eq kind "neighbor"
    then style "#252535" 8 "none" 40 false
    else if str_eq kind "regional"
    then style "#774466" 10 "6 4" 50 false
    else if str_eq kind "cross"
    then style "#3a6070" 12 "4 3" 60 false
    else style "#1e3040" 12 "none" 65 false

abbrev pub subway_style : Bool → Bool → String → Style
subway_style a b kind =
    if a && b && str_eq kind "internal"
    then style "#00ff88" 30 "none" 100 true
    else if a && b && str_eq kind "cross"
    then style "#00d4ff" 25 "8 4" 100 true
    else if (a || b) && not (a && b)
    then style "#ffaa00" 25 "6 4" 90 true
    else outside_style kind

-- `getConnectionStyle`.
unfoldable pub get_connection_style : Bool → Layout → String → String → String → Style
unfolding named
get_connection_style is_subway layout from to kind =
    if is_subway
    then subway_style (lies_in_lawn (named from layout)) (lies_in_lawn (named to layout)) kind
    else traditional_style kind
