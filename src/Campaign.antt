-- ===== src/Campaign.antt =====
-- frontend/src/utils/campaignHelpers.js: the phase of a sovereignty campaign and its countdown.
-- Times are milliseconds since 1970. The current time is an argument of each call.
mod Tests
pub mod Texts
pub mod Countdown
use lawn_eve_intel_dashboard.Common.{
  ℕ, ◌-◌, ◌/◌, ◌%◌, String, Bool, Option, none, some, [], ◌∷◌, ◌++◌, ltb, leb, if◌then◌else◌,
}
use lawn_eve_intel_dashboard.Common.Text.{Text, codes, show}

-- What `new Date(s)` makes of a text: an Invalid Date, or an instant.
pub data Date : Type 0 where
  invalid : Date
  at : ℕ → Date

pub data Phase : Type 0 where
  reinforced nodes : Phase

-- A campaign of /api/campaigns. A missing, null or empty field is `none`.
pub record Campaign : Type 0 where
  pub campaign_id : ℕ
  pub system_name : String
  pub constellation_id : ℕ
  pub start_time : Option Date
  pub event_type : Option Text
  pub is_primary : Option Bool
  pub is_lawn : Option Bool

pub record PhaseInfo : Type 0 where
  pub phase : Phase
  pub nodes_spawn_time : Option ℕ

phase_at : ℕ → Option Date → PhaseInfo
phase_at now none = record { phase = reinforced; nodes_spawn_time = none }
phase_at now (some invalid) = record { phase = reinforced; nodes_spawn_time = none }
phase_at now (some (at t)) = record {
  phase = if leb t now then nodes else reinforced;
  nodes_spawn_time = some t;
}

-- `getCampaignPhase`.
unfoldable pub get_campaign_phase : ℕ → Campaign → PhaseInfo
unfolding phase_at
get_campaign_phase now c = phase_at now c.start_time

abbrev pub day_ms : ℕ
day_ms = 86400000

abbrev pub hour_ms : ℕ
hour_ms = 3600000

abbrev pub minute_ms : ℕ
minute_ms = 60000

-- The part of `formatCountdown` below its guard, at a positive difference.
unfoldable pub countdown_of : ℕ → Text
countdown_of diff =
    let days = diff / day_ms in
    let hours = diff % day_ms / hour_ms in
    let minutes = diff % hour_ms / minute_ms in
    if ltb 0 days
    then show days ++ (b'd' ∷ b' ' ∷ (show hours ++ (b'h' ∷ [])))
    else if ltb 0 hours
    then show hours ++ (b'h' ∷ b' ' ∷ (show minutes ++ (b'm' ∷ [])))
    else show minutes ++ (b'm' ∷ [])

-- `formatCountdown`. A null target counts as the instant 0, which has passed, and the arithmetic
-- on an Invalid Date gives NaN, which is neither below nor above any number.
unfoldable pub format_countdown : ℕ → Option Date → Text
unfolding countdown_of
format_countdown now none = codes "ACTIVE NOW"
format_countdown now (some invalid) = codes "NaNm"
format_countdown now (some (at t)) =
    if leb t now then codes "ACTIVE NOW" else countdown_of (t - now)
