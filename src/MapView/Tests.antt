-- ===== src/MapView/Tests.antt =====
-- A small layout, and the theorems at it.
use lawn_eve_intel_dashboard.Common.{
  ℕ, String, ◌≡◌, refl, Bool, true, false, Option, none, some, List, [], ◌∷◌, filter,
}
use lawn_eve_intel_dashboard.Common.Int.{pos, negsuc, ◌+ℤ◌, ◌-ℤ◌}
use lawn_eve_intel_dashboard.Common.Named.{named}
use lawn_eve_intel_dashboard.Config.{MapPos, Layout, Connection}
use lawn_eve_intel_dashboard.MapView.{
  positions, is_member, constellation_bounds, gateway_destinations,
}
use lawn_eve_intel_dashboard.MapView.Bounds.{LeastOf, constellation_bounds-LeastOf}
use lawn_eve_intel_dashboard.MapView.Gates.{last_label, gateway_destinations-last_label}

abbrev spot : ℕ → ℕ → String → Bool → Option String → MapPos
spot x y k ours note = record { x = pos x; y = pos y; constellation = k; lawn = ours; note = note }

abbrev layout : Layout
layout =
    ("A-1", spot 10 20 "Alpha" true none)
    ∷ ("A-2", spot 110 5 "Alpha" true none)
    ∷ ("N-1", spot 300 40 "neighbor" false (some "Vale"))
    ∷ []

abbrev gates : List Connection
gates =
    record { from = "A-1"; to = "A-2"; kind = "gate" }
    ∷ record { from = "N-1"; to = "A-2"; kind = "regional" }
    ∷ []

alpha_box :
    constellation_bounds layout "Alpha"
    ≡ some (record { x = negsuc 19; y = negsuc 24; width = pos 160; height = pos 75 })
unfolding constellation_bounds ◌+ℤ◌ ◌-ℤ◌
alpha_box = refl

gate_label : named "A-2" (gateway_destinations layout gates) ≡ some "Vale"
unfolding gateway_destinations named
gate_label = refl

constellation_bounds-LeastOf_example :
    LeastOf 30 (filter (is_member "Alpha") (positions layout)) (constellation_bounds layout "Alpha")
constellation_bounds-LeastOf_example = constellation_bounds-LeastOf layout "Alpha"

gateway_destinations-last_label_example :
    named "A-2" (gateway_destinations layout gates) ≡ last_label layout "A-2" gates none
gateway_destinations-last_label_example = gateway_destinations-last_label layout gates "A-2"
