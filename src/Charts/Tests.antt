-- ===== src/Charts/Tests.antt =====
-- The charts, on small inputs.
use lawn_eve_intel_dashboard.Common.{◌≡◌, refl, some, [], ◌∷◌, true, false}
use lawn_eve_intel_dashboard.Config.{System}
use lawn_eve_intel_dashboard.MapStyle.{SovView}
use lawn_eve_intel_dashboard.Charts.Trends.{crit, trend_row}

abbrev system : System
system = record { system_id = 7; name = "J9A-BH" }

abbrev sov : SovView
sov = record { alliance_name = some "LAWN"; is_friendly = true; is_host = false; adm = 15 }

critical : (trend_row 0 ((7, sov) ∷ []) [] system).mark ≡ some crit
unfolding trend_row
critical = refl
