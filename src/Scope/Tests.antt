-- ===== src/Scope/Tests.antt =====
-- A small map, and the theorems at it.
use lawn_eve_intel_dashboard.Common.{ℕ, String, ◌≡◌, refl, true, false, none, some, List, [], ◌∷◌}
use lawn_eve_intel_dashboard.Common.Text.{codes}
use lawn_eve_intel_dashboard.Common.Int.{pos}
use lawn_eve_intel_dashboard.Campaign.{Campaign, at}
use lawn_eve_intel_dashboard.Config.{Config, Constellation, MapPos}
use lawn_eve_intel_dashboard.Scope.{filter_config_to_constellations, event_type_label}
use lawn_eve_intel_dashboard.Scope.Focus.{Trimmed, filter_config-Trimmed}

abbrev campaign : Campaign
campaign = record {
  campaign_id = 1;
  system_name = "A-1";
  constellation_id = 100;
  start_time = some (at 500);
  event_type = some (codes "tcu_defense");
  is_primary = some true;
  is_lawn = none;
}

abbrev table : List (ℕ × Constellation)
table =
    (
      100,
      record {
        name = some "Alpha";
        systems =
            some (
              record { system_id = 1; name = "A-1" } ∷ record { system_id = 2; name = "A-2" } ∷ []);
        is_primary = some true;
        is_lawn = none;
      },
    )
    ∷ (200, record { name = some "Beta"; systems = none; is_primary = none; is_lawn = none })
    ∷ []

abbrev spot : String → MapPos
spot k = record { x = pos 10; y = pos 20; constellation = k; lawn = false; note = none }

abbrev cfg : Config
cfg = record {
  constellations = some table;
  map_layout = some (("A-1", spot "Alpha") ∷ ("B-1", spot "Beta") ∷ ("A-2", spot "Alpha") ∷ []);
  map_layout_subway = none;
  map_connections = some (
      record { from = "A-1"; to = "A-2"; kind = "gate" }
      ∷ record { from = "A-1"; to = "B-1"; kind = "gate" }
      ∷ []);
  alliance_short = some "LAWN";
  holds_sov = some true;
}

defense_label : event_type_label (some (codes "custom_defense")) ≡ codes "CUSTOM"
unfolding event_type_label
defense_label = refl

filter_config-Trimmed_example :
    (r : Config) × (filter_config_to_constellations (some cfg) ("Alpha" ∷ []) ≡ some r)
    × Trimmed ("Alpha" ∷ []) cfg r
filter_config-Trimmed_example = filter_config-Trimmed ("Alpha" ∷ []) cfg
