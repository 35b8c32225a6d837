-- ===== src/Panels/Tests.antt =====
-- SystemTable.jsx, PlanetaryIntel.jsx and the formatters, on small inputs.
use lawn_eve_intel_dashboard.Panels.Industry.{PiData, keys, ordered_systems}
use lawn_eve_intel_dashboard.Panels.Cards.{ordered_systems-perm}
use lawn_eve_intel_dashboard.Common.{Perm, ◌≡◌, refl, true, false, some, List, [], ◌∷◌, map}
use lawn_eve_intel_dashboard.Common.Text.{codes}
use lawn_eve_intel_dashboard.Config.{System}
use lawn_eve_intel_dashboard.MapStyle.{SovView}
use lawn_eve_intel_dashboard.Panels.{system_rows, time_ago, short_time_ago, hostile_threat, med}
use lawn_eve_intel_dashboard.Panels.Planets.{
  extract_type, strategic_importance, priority_products, high, sorted_types, type_counts,
}

abbrev systems : List System
systems = (record { system_id = 1; name = "A-1" }) ∷ (record { system_id = 2; name = "B-2" }) ∷ []

abbrev ours : SovView
ours = record { alliance_name = some "LAWN"; is_friendly = true; is_host = false; adm = 30 }

hostile_first : map (λ s. s.system_id) (system_rows ((1, ours) ∷ []) [] [] systems) ≡ 2 ∷ 1 ∷ []
unfolding system_rows
hostile_first = refl

found : map (λ s. s.system_id) (system_rows [] [] (codes "a-") systems) ≡ 1 ∷ []
unfolding system_rows
found = refl

ago : time_ago 3720000 ≡ codes "1h 2m ago"
unfolding time_ago
ago = refl

days : short_time_ago 180000000 ≡ codes "2d"
unfolding short_time_ago
days = refl

threat : hostile_threat 0 4 ≡ med
unfolding hostile_threat
threat = refl

kind : extract_type (codes "Planet (Storm)") ≡ codes "Storm"
unfolding extract_type
kind = refl

storm : strategic_importance (codes "Storm") priority_products ≡ some high
unfolding strategic_importance
storm = refl

sorted :
    map
      (λ t. t.0)
      (sorted_types
        (λ s t. true)
        (type_counts (codes "(Gas)" ∷ codes "Odd" ∷ codes "(Ice)" ∷ []) []))
    ≡ codes "Ice" ∷ codes "Gas" ∷ codes "Odd" ∷ []
unfolding sorted_types type_counts
sorted = refl

abbrev surveys : PiData
surveys = ("C-3", []) ∷ ("A-1", codes "Planet (Gas)" ∷ []) ∷ ("D-4", []) ∷ []

ordered_systems-perm_example :
    Perm (ordered_systems (λ s t. true) ("A-1" ∷ "B-2" ∷ []) surveys) (keys surveys)
ordered_systems-perm_example =
    ordered_systems-perm (λ s t. true) ("A-1" ∷ "B-2" ∷ []) surveys (refl, (refl, tt))
      (refl, (refl, (refl, tt)))

cards : ordered_systems (λ s t. true) ("A-1" ∷ "B-2" ∷ []) surveys ≡ "A-1" ∷ "C-3" ∷ "D-4" ∷ []
unfolding ordered_systems
cards = refl
