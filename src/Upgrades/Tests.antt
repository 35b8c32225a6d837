-- ===== src/Upgrades/Tests.antt =====
-- A system with three upgrades, and the theorems at it.
use lawn_eve_intel_dashboard.Common.{◌≡◌, refl, Option, none, some, [], ◌∷◌, if◌then◌else◌}
use lawn_eve_intel_dashboard.Common.Named.{named}
use lawn_eve_intel_dashboard.Upgrades.{
  UpgradeConfig, get_category, get_system_upgrades, get_upgrade_type_meta, get_upgrade_max_levels,
}
use lawn_eve_intel_dashboard.Upgrades.Levels.{
  within, highest, is_known, get_upgrade_max_levels-get_category,
}

abbrev cfg : Option UpgradeConfig
cfg = some (record {
  system_upgrades = some (
      (
        "A-1",
        record { kind = "ED"; level = 3 }
            ∷ record { kind = "ED"; level = 5 }
            ∷ record { kind = "??"; level = 1 }
            ∷ [],
      )
      ∷ []);
  upgrade_types = some (("ED", record { name = "Entrapment"; category = "military" }) ∷ []);
})

levels_now : get_upgrade_max_levels "A-1" cfg ≡ record { military = 5; industry = 0; strategic = 1 }
unfolding get_upgrade_max_levels named get_upgrade_type_meta
levels_now = refl

get_upgrade_max_levels-get_category_example :
    get_category "military" (get_upgrade_max_levels "A-1" cfg) ≡ (
      if is_known "military"
      then some (highest (within cfg "military" (get_system_upgrades "A-1" cfg)))
      else none)
get_upgrade_max_levels-get_category_example =
    get_upgrade_max_levels-get_category "A-1" cfg "military"
