-- ===== src/Panels.antt =====
-- The figures of smaller panels of frontend/src/components: SystemTable, ActiveHostileTracker,
-- RegionalIntel, PlanetaryIntel and CampaignAlerts.
mod Tests
pub mod Planets
pub mod Industry
pub mod Cards
pub mod Regions
use lawn_eve_intel_dashboard.Common.{
  ℕ, ◌+◌, ◌-◌, ◌/◌, ◌%◌, Bool, true, false, not, ◌&&◌, ◌||◌, Option, none, some, List, [], ◌∷◌,
  ◌++◌, map, ltb, leb, ◌==◌, if◌then◌else◌, length, filter,
}
use lawn_eve_intel_dashboard.Common.Text.{Text, codes, lower, text_eq, show, is_nil, includes}
use lawn_eve_intel_dashboard.Common.Assoc.{lookup}
use lawn_eve_intel_dashboard.Common.Sort.{sort}
use lawn_eve_intel_dashboard.Campaign.{
  Campaign, Phase, nodes, reinforced, PhaseInfo, get_campaign_phase,
}
use lawn_eve_intel_dashboard.Config.{System}
use lawn_eve_intel_dashboard.Dashboard.{Traffic}
use lawn_eve_intel_dashboard.Dashboard.Figures.{traffic_at, pvp_of}
use lawn_eve_intel_dashboard.MapStyle.{SovView}

-- SystemTable: `sovA.is_friendly`.
unfoldable pub is_friendly_at : List (ℕ × SovView) → System → Bool
unfolding lookup
is_friendly_at sov s = elim (lookup s.system_id sov) [ none ↦ false | some v ↦ v.is_friendly ]

-- The comparator of SystemTable: hostile systems first, then those with more kills, then those with
-- more jumps.
unfoldable pub system_before : List (ℕ × SovView) → List (ℕ × Traffic) → System → System → Bool
unfolding is_friendly_at traffic_at
system_before sov act a b =
    let friendly_a = is_friendly_at sov a in
    let friendly_b = is_friendly_at sov b in
    let t = traffic_at act a in
    let u = traffic_at act b in
    if not friendly_a && friendly_b
    then true
    else if friendly_a && not friendly_b
    then false
    else if ltb (pvp_of t) (pvp_of u)
    then false
    else if ltb (pvp_of u) (pvp_of t)
    then true
    else leb u.jumps t.jumps

-- `filtered` of SystemTable.
unfoldable pub system_rows :
    List (ℕ × SovView) → List (ℕ × Traffic) → Text → List System → List System
unfolding system_before sort includes
system_rows sov act wanted ss =
    let sorted = sort (system_before sov act) ss in
    if is_nil wanted
    then sorted
    else filter (λ s. includes (map lower (codes s.name)) (map lower wanted)) sorted

-- `maxNPC` and `maxJumps`.
unfoldable pub max_figure : (Traffic → ℕ) → List (ℕ × Traffic) → List System → ℕ
unfolding traffic_at
max_figure figure act [] = 1
max_figure figure act (s ∷ ss) =
    let rest = max_figure figure act ss in
    let n = figure (traffic_at act s) in if ltb rest n then n else rest

pub data Threat : Type 0 where
  high med low : Threat

-- `threatLevel` of ActiveHostileTracker.
unfoldable pub hostile_threat : ℕ → ℕ → Threat
hostile_threat primary_kills kill_count =
    if leb 3 primary_kills
    then high
    else if leb 1 primary_kills || leb 4 kill_count
    then med
    else low

-- `timeAgo` of ActiveHostileTracker, of a time that is given and is not later than the clock.
unfoldable pub time_ago : ℕ → Text
unfolding show
time_ago diff =
    let m = diff / 60000 in
    if ltb m 1
    then codes "just now"
    else if ltb m 60
    then show m ++ codes "m ago"
    else show (m / 60) ++ (codes "h " ++ (show (m % 60) ++ codes "m ago"))

-- `timeAgo` of formatters.js, likewise.
unfoldable pub short_time_ago : ℕ → Text
unfolding show
short_time_ago diff =
    let s = diff / 1000 in
    if ltb s 60
    then show s ++ codes "s"
    else if ltb s 3600
    then show (s / 60) ++ codes "m"
    else if ltb s 86400
    then show (s / 3600) ++ codes "h"
    else show (s / 86400) ++ codes "d"

pub data Level : Type 0 where
  no_kills low_kills medium_kills high_kills : Level

-- `classifyKills`.
unfoldable pub classify_kills : ℕ → ℕ → ℕ → Level
classify_kills first second count =
    if count == 0
    then no_kills
    else if ltb count first
    then low_kills
    else if ltb count second
    then medium_kills
    else high_kills

-- A region of RegionalIntel.
pub record Region : Type 0 where
  pub name : Text
  pub threat : Text
  pub total_kills : ℕ

unfoldable pub active_regions : List Region → List Region
unfolding text_eq
active_regions rs = filter (λ r. not (text_eq r.threat (codes "quiet"))) rs

unfoldable pub quiet_count : List Region → ℕ
unfolding active_regions
quiet_count rs = length rs - length (active_regions rs)

unfoldable pub total_kills : List Region → ℕ → ℕ
total_kills [] sum = sum
total_kills (r ∷ rs) sum = total_kills rs (sum + r.total_kills)

-- The sort of CampaignAlerts: by the time of the nodes, campaigns without one last.
abbrev pub earlier : Option ℕ → Option ℕ → Bool
earlier none none = true
earlier none (some b) = false
earlier (some a) none = true
earlier (some a) (some b) = leb a b

abbrev pub enrich : ℕ → Campaign → Campaign × PhaseInfo
enrich now c = (c, get_campaign_phase now c)

-- `enrichedCampaigns`.
unfoldable pub enriched_campaigns : ℕ → List Campaign → List (Campaign × PhaseInfo)
unfolding sort get_campaign_phase
enriched_campaigns now cs =
    sort (λ a b. earlier a.1.nodes_spawn_time b.1.nodes_spawn_time) (map (enrich now) cs)

abbrev pub in_nodes : Campaign × PhaseInfo → Bool
in_nodes c = elim c.1.phase [ nodes ↦ true | reinforced ↦ false ]

-- `activeCount` and `reffedCount`.
unfoldable pub phase_counts : List (Campaign × PhaseInfo) → ℕ × ℕ
phase_counts cs = (length (filter in_nodes cs), length (filter (λ c. not (in_nodes c)) cs))
