-- ===== src/Campaign/Texts.antt =====
-- campaignHelpers.js: times of day in EVE time, which is UTC, and the text of the campaigns that is
-- copied.
use lawn_eve_intel_dashboard.Common.{
  ℕ, ◌+◌, ◌-◌, ◌*◌, ◌/◌, ◌%◌, ◌≡◌, refl, Bool, Option, none, some, List, [], ◌∷◌, ◌++◌, map, ltb,
  if◌then◌else◌,
}
use lawn_eve_intel_dashboard.Common.Text.{Text, codes, show, join}
use lawn_eve_intel_dashboard.Campaign.{
  at, Phase, nodes, reinforced, PhaseInfo, format_countdown, day_ms, hour_ms, minute_ms,
}

-- `toString().padStart(2, '0')`.
abbrev pub pad : ℕ → Text
pad n = if ltb n 10 then b'0' ∷ show n else show n

-- The date of a day, counted from 1970 in days, in the years of March to February that 400 years
-- repeat.
abbrev pub day_of_era : ℕ → ℕ
day_of_era days = (days + 719468) % 146097

abbrev pub year_of_era : ℕ → ℕ
year_of_era d = (d + d / 36524 - (d / 1460 + d / 146096)) / 365

abbrev pub day_of_year : ℕ → ℕ
day_of_year d = let y = year_of_era d in d + y / 100 - (365 * y + y / 4)

abbrev pub march_month : ℕ → ℕ
march_month days = (5 * day_of_year (day_of_era days) + 2) / 153

-- `getUTCMonth() + 1` and `getUTCDate()`.
unfoldable pub month_of : ℕ → ℕ
month_of days = let m = march_month days in if ltb m 10 then m + 3 else m - 9

unfoldable pub date_of : ℕ → ℕ
date_of days = day_of_year (day_of_era days) + 1 - (153 * march_month days + 2) / 5

-- `getUTCHours()` and `getUTCMinutes()`.
abbrev pub hours_of : ℕ → ℕ
hours_of t = t % day_ms / hour_ms

abbrev pub minutes_of : ℕ → ℕ
minutes_of t = t % hour_ms / minute_ms

abbrev pub clock_text : ℕ → Text
clock_text t = pad (hours_of t) ++ (b':' ∷ pad (minutes_of t))

-- `formatEveTime`, of a time or of none.
unfoldable pub format_eve_time : Option ℕ → Text
unfolding show month_of date_of
format_eve_time none = []
format_eve_time (some t) =
    pad (month_of (t / day_ms))
    ++ (b'/' ∷ (pad (date_of (t / day_ms)) ++ (b' ' ∷ (clock_text t ++ codes " EVE"))))

-- `formatVulnWindow`, of two times that are valid.
unfoldable pub format_vuln_window : Option ℕ → Option ℕ → Option Text
unfolding show
format_vuln_window none e = none
format_vuln_window (some s) none = none
format_vuln_window (some s) (some e) =
    some (clock_text s ++ (codes " - " ++ (clock_text e ++ codes " EVE")))

-- A campaign with its phase, as `buildCampaignCopyText` reads it. Scores are whole percents.
pub record Enriched : Type 0 where
  pub system_name : Text
  pub phase_info : PhaseInfo
  pub is_primary : Bool
  pub defender_is_friendly : Bool
  pub campaign_type : Option Text
  pub attackers_score : ℕ
  pub defender_score : ℕ

abbrev pub campaign_label : Text → Enriched → Text
campaign_label short c =
    if c.is_primary
    then (if c.defender_is_friendly then short ++ codes " DEFENSE" else codes "RECONQUEST")
    else codes "REGIONAL"

abbrev pub type_text : Option Text → Text
type_text none = []
type_text (some t) = t ++ codes " — "

abbrev pub countdown_text : ℕ → Option ℕ → Text
countdown_text now none = format_countdown now none
countdown_text now (some t) = format_countdown now (some (at t))

abbrev pub phase_text : ℕ → Enriched → Phase → Text
phase_text now c nodes =
    codes "NODES ACTIVE ("
    ++ (show c.attackers_score ++ (codes "% vs " ++ (show c.defender_score ++ codes "%)")))
phase_text now c reinforced =
    codes "Reinforced, nodes spawn in "
    ++ (countdown_text now c.phase_info.nodes_spawn_time
        ++ (codes " (" ++ (format_eve_time c.phase_info.nodes_spawn_time ++ codes ")")))

abbrev pub campaign_line : ℕ → Text → Enriched → Text
campaign_line now short c =
    c.system_name
    ++ (codes " — "
        ++ (type_text c.campaign_type
            ++ (campaign_label short c ++ (codes " — " ++ phase_text now c c.phase_info.phase))))

-- `buildCampaignCopyText`.
unfoldable pub build_campaign_copy_text : ℕ → Text → List Enriched → Text
unfolding show format_countdown format_eve_time
build_campaign_copy_text now short cs =
    join (codes "\n") (codes "SOV CAMPAIGNS" ∷ [] ∷ map (campaign_line now short) cs)

leap_day : format_eve_time (some 1709230500000) ≡ codes "02/29 18:15 EVE"
unfolding format_eve_time
leap_day = refl

last_day : format_eve_time (some 1735689599000) ≡ codes "12/31 23:59 EVE"
unfolding format_eve_time
last_day = refl
