-- ===== src/Upgrades/Overview.antt =====
-- frontend/src/components/UpgradesOverview.jsx: the upgrades of all our systems together.
use lawn_eve_intel_dashboard.Common.{
  ℕ, ◌+◌, String, Option, none, some, List, [], ◌∷◌, or_else, length, ltb, if◌then◌else◌,
}
use mathlib.Core.Option
use lawn_eve_intel_dashboard.Common.Named.{named}
use lawn_eve_intel_dashboard.Upgrades.{
  Upgrade, UpgradeConfig, get_system_upgrades, PerCategory, none_yet, get_category, types_of,
  count_one,
}

pub record Overview : Type 0 where
  pub total : ℕ
  pub systems_with : ℕ
  pub counts : PerCategory

-- `upgradeTypes[u.type] || {}`: a type that is not in the table has no category.
abbrev pub known_category : Option UpgradeConfig → Upgrade → Option String
known_category config u = Option.map (λ m. m.category) (named u.kind (or_else (types_of config) []))

abbrev pub count_known : Option String → PerCategory → PerCategory
count_known none counts = counts
count_known (some c) counts = count_one c (get_category c counts) counts

-- The loop over the upgrades of a system.
unfoldable pub count_upgrades : Option UpgradeConfig → List Upgrade → PerCategory → PerCategory
unfolding named
count_upgrades config [] counts = counts
count_upgrades config (u ∷ us) counts =
    count_upgrades config us (count_known (known_category config u) counts)

-- The loop over the systems.
unfoldable pub over_systems : Option UpgradeConfig → List String → Overview → Overview
unfolding count_upgrades get_system_upgrades
over_systems config [] o = o
over_systems config (name ∷ names) o =
    let ups = get_system_upgrades name config in
    over_systems config names (record {
      total = o.total + length ups;
      systems_with = if ltb 0 (length ups) then o.systems_with + 1 else o.systems_with;
      counts = count_upgrades config ups o.counts;
    })

-- The figures of `UpgradesOverview`, where the configuration has both tables.
abbrev pub figures : Option UpgradeConfig → List String → Overview
figures config names =
    over_systems config names (record { total = 0; systems_with = 0; counts = none_yet })

abbrev pub if_both {ℓ κ λ_} :
    {A : Type ℓ} {B : Type κ} {C : Type λ_} → Option A → Option B → C → Option C
if_both none b c = none
if_both (some a) none c = none
if_both (some a) (some b) c = some c

unfoldable pub upgrades_overview : Option UpgradeConfig → List String → Option Overview
unfolding over_systems
upgrades_overview none names = none
upgrades_overview (some cfg) names =
    if_both cfg.system_upgrades cfg.upgrade_types (figures (some cfg) names)
