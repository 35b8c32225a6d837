-- ===== src/Upgrades.antt =====
-- frontend/src/utils/upgradeHelpers.js: the infrastructure upgrades of a system.
mod Tests
pub mod Overview
pub mod Levels
use lawn_eve_intel_dashboard.Common.{
  ℕ, ◌+◌, String, Option, none, some, List, [], ◌∷◌, ltb, str_eq, if◌then◌else◌, or_else,
}
use lawn_eve_intel_dashboard.Common.Named.{named}

pub record Upgrade : Type 0 where
  pub kind : String
  pub level : ℕ

pub record TypeMeta : Type 0 where
  pub name : String
  pub category : String

-- What the helpers read of the configuration.
pub record UpgradeConfig : Type 0 where
  pub system_upgrades : Option (List (String × List Upgrade))
  pub upgrade_types : Option (List (String × TypeMeta))

-- `config.system_upgrades`, and `config.upgrade_types`.
abbrev pub upgrades_of : Option UpgradeConfig → Option (List (String × List Upgrade))
upgrades_of none = none
upgrades_of (some cfg) = cfg.system_upgrades

abbrev pub types_of : Option UpgradeConfig → Option (List (String × TypeMeta))
types_of none = none
types_of (some cfg) = cfg.upgrade_types

-- `getSystemUpgrades`.
unfoldable pub get_system_upgrades : String → Option UpgradeConfig → List Upgrade
get_system_upgrades name cfg = or_else (named name (or_else (upgrades_of cfg) [])) []

-- `getUpgradeTypeMeta`.
unfoldable pub get_upgrade_type_meta : String → Option UpgradeConfig → TypeMeta
get_upgrade_type_meta code cfg =
    or_else (named code (or_else (types_of cfg) []))
      (record { name = code; category = "strategic" })

-- One number for each category.
pub record PerCategory : Type 0 where
  pub military : ℕ
  pub industry : ℕ
  pub strategic : ℕ

abbrev pub none_yet : PerCategory
none_yet = record { military = 0; industry = 0; strategic = 0 }

abbrev pub get_category : String → PerCategory → Option ℕ
get_category c s =
    if str_eq c "military"
    then some s.military
    else if str_eq c "industry"
    then some s.industry
    else if str_eq c "strategic"
    then some s.strategic
    else none

abbrev pub set_category : String → ℕ → PerCategory → PerCategory
set_category c n s =
    if str_eq c "military"
    then record s { military = n }
    else if str_eq c "industry"
    then record s { industry = n }
    else if str_eq c "strategic"
    then record s { strategic = n }
    else s

abbrev pub category_of : Option UpgradeConfig → Upgrade → String
category_of cfg u = (get_upgrade_type_meta u.kind cfg).category

-- `summary[category]++`, where it is a number.
abbrev pub count_one : String → Option ℕ → PerCategory → PerCategory
count_one c none s = s
count_one c (some n) s = set_category c (n + 1) s

pub summary_loop : Option UpgradeConfig → List Upgrade → PerCategory → PerCategory
unfolding get_upgrade_type_meta
summary_loop cfg [] s = s
summary_loop cfg (u ∷ us) s =
    summary_loop cfg us (count_one (category_of cfg u) (get_category (category_of cfg u) s) s)

-- `getUpgradeSummary`.
unfoldable pub get_upgrade_summary : String → Option UpgradeConfig → PerCategory
unfolding summary_loop get_system_upgrades
get_upgrade_summary name cfg = summary_loop cfg (get_system_upgrades name cfg) none_yet

-- `if (u.level > levels[category]) levels[category] = u.level`; undefined is never less.
abbrev pub raise_level : String → ℕ → Option ℕ → PerCategory → PerCategory
raise_level c level none s = s
raise_level c level (some n) s = if ltb n level then set_category c level s else s

pub levels_loop : Option UpgradeConfig → List Upgrade → PerCategory → PerCategory
unfolding get_upgrade_type_meta
levels_loop cfg [] s = s
levels_loop cfg (u ∷ us) s =
    levels_loop cfg us
      (raise_level (category_of cfg u) u.level (get_category (category_of cfg u) s) s)

-- `getUpgradeMaxLevels`.
unfoldable pub get_upgrade_max_levels : String → Option UpgradeConfig → PerCategory
unfolding levels_loop get_system_upgrades
get_upgrade_max_levels name cfg = levels_loop cfg (get_system_upgrades name cfg) none_yet
