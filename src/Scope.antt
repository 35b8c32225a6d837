-- ===== src/Scope.antt =====
-- frontend/src/utils/entosisHelpers.js: the part of the map and of the kill feed that an operation
-- is about, and the labels of an event.
mod Tests
pub mod Focus
pub mod Ids
use lawn_eve_intel_dashboard.Common.{
  ℕ, compare, String, Bool, ◌&&◌, ◌||◌, Option, none, some, List, [], ◌∷◌, map, ◌==◌, str_eq,
  if◌then◌else◌, filter, any,
}
use lawn_eve_intel_dashboard.Common.Text.{Text, codes, upper, starts_with}
use text.Mathlib.Text.{is_le}
use Prim.Native.String
use lawn_eve_intel_dashboard.Common.Sort.{sort}
use lawn_eve_intel_dashboard.Campaign.{Campaign}
use lawn_eve_intel_dashboard.Config.{
  Config, Constellation, System, Layout, MapPos, Connection, or_nil, constellation_at,
}
use lawn_eve_intel_dashboard.Config.Sets.{add, has}

-- `c?.name`, where it is not empty.
abbrev pub name_of : Option Constellation → Option String
name_of none = none
name_of (some c) = c.name

abbrev pub add_name : Option String → List String → List String
add_name none names = names
add_name (some s) names = add str_eq s names

names_loop : List (ℕ × Constellation) → List Campaign → List String → List String
names_loop table [] names = names
names_loop table (c ∷ cs) names =
    names_loop table cs (add_name (name_of (constellation_at c.constellation_id table)) names)

-- `constellationNamesForCampaigns`.
unfoldable pub constellation_names_for_campaigns :
    Option (List Campaign) → Option (List (ℕ × Constellation)) → List String
unfolding names_loop constellation_at add
constellation_names_for_campaigns cs none = []
constellation_names_for_campaigns cs (some table) = names_loop table (or_nil cs) []

-- `filterLayout`.
unfoldable pub filter_layout : List String → Option Layout → Layout
filter_layout names layout = filter (λ p. has str_eq p.1.constellation names) (or_nil layout)

-- `name in layout`.
abbrev pub in_layout : String → Layout → Bool
in_layout name layout = any (λ p. str_eq p.0 name) layout

-- `filterConfigToConstellations`.
unfoldable pub filter_config_to_constellations : Option Config → List String → Option Config
unfolding filter_layout
filter_config_to_constellations none names = none
filter_config_to_constellations (some cfg) names =
    let map_layout = filter_layout names cfg.map_layout in
    let map_layout_subway = filter_layout names cfg.map_layout_subway in
    let in_both =
      λ (name : String). in_layout name map_layout || in_layout name map_layout_subway in
    some (record cfg {
      map_layout = some map_layout;
      map_layout_subway = some map_layout_subway;
      map_connections =
          some (filter (λ c. in_both c.from && in_both c.to) (or_nil cfg.map_connections));
    })

abbrev str_le : String → String → Bool
str_le s t = is_le (String.compare s t)

abbrev pub systems_of : Option Constellation → Option (List System)
systems_of none = none
systems_of (some c) = c.systems

-- `systemsForConstellation`.
unfoldable pub systems_for_constellation : Option (List (ℕ × Constellation)) → ℕ → List String
unfolding constellation_at
systems_for_constellation none k = []
systems_for_constellation (some table) k =
    sort str_le (map (λ s. s.name) (or_nil (systems_of (constellation_at k table))))

abbrev pub add_ids : List System → List ℕ → List ℕ
add_ids [] ids = ids
add_ids (s ∷ ss) ids = add_ids ss (add ◌==◌ s.system_id ids)

ids_loop : List (ℕ × Constellation) → List Campaign → List ℕ → List ℕ
ids_loop table [] ids = ids
ids_loop table (c ∷ cs) ids =
    ids_loop table cs
      (add_ids (or_nil (systems_of (constellation_at c.constellation_id table))) ids)

-- `campaignSystemIds`.
unfoldable pub campaign_system_ids :
    Option (List Campaign) → Option (List (ℕ × Constellation)) → List ℕ
unfolding ids_loop constellation_at add
campaign_system_ids cs none = []
campaign_system_ids cs (some table) = ids_loop table (or_nil cs) []

-- `replace('_defense', '')`: the first occurrence goes.
unfoldable pub drop_defense : Text → Text
drop_defense [] = []
drop_defense (c ∷ s) =
    let rest = drop_defense s in
    if starts_with (c ∷ s) (codes "_defense") then drop_eight (c ∷ s) else c ∷ rest
  where
    drop_eight : Text → Text
    drop_eight (a ∷ b ∷ c ∷ d ∷ e ∷ f ∷ g ∷ h ∷ r) = r
    drop_eight r = r

-- `eventTypeLabel`.
unfoldable pub event_type_label : Option Text → Text
unfolding drop_defense starts_with
event_type_label none = codes "SOV"
event_type_label (some []) = codes "SOV"
event_type_label (some (c ∷ s)) =
    if starts_with (c ∷ s) (codes "ihub")
    then codes "IHUB"
    else if starts_with (c ∷ s) (codes "tcu")
    then codes "TCU"
    else if starts_with (c ∷ s) (codes "station")
    then codes "STATION"
    else map upper (drop_defense (c ∷ s))
