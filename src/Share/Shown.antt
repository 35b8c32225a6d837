-- ===== src/Share/Shown.antt =====
-- SharePage.jsx: what the page shows of a report, and in its place while there is none.
use lawn_eve_intel_dashboard.Common.{
  ℕ, ◌-◌, ◌*◌, Bool, true, false, not, Option, none, some, ◌++◌, ltb, if◌then◌else◌, String,
}
use lawn_eve_intel_dashboard.Common.Text.{Text, codes, show}
use lawn_eve_intel_dashboard.Parsers.Fleet.{
  Payload, dscan, local, fleet, other, build_share_copy_text,
}
use lawn_eve_intel_dashboard.Results.{local_counts, standing_counts, StandingCount}
use lawn_eve_intel_dashboard.Results.Fleet.{fleet_counts}
use lawn_eve_intel_dashboard.Share.{Status, loading, forbidden, missing, error, ok, Page, Report}
use lawn_eve_intel_dashboard.Share.Button.{Visibility, link, alliance}

pub data AgeColor : Type 0 where
  green amber red muted : AgeColor

-- `ageColorFor`, given the present time; a time that is no date is `none`.
unfoldable pub age_color_for : ℕ → Option ℕ → AgeColor
age_color_for now none = muted
age_color_for now (some created) =
    if ltb (now - created) (15 * 60000)
    then green
    else if ltb (now - created) (120 * 60000)
    then amber
    else red

-- `KIND_TITLE[kind] || 'SHARED REPORT'`.
abbrev pub kind_title : Payload → String
kind_title (dscan result) = "D-SCAN"
kind_title (local results risks) = "LOCAL SCAN"
kind_title (fleet summary) = "FLEET COMP"
kind_title other = "SHARED REPORT"

abbrev pub counts_badge : Option StandingCount → Option Text
counts_badge none = none
counts_badge (some c) = some (standing_counts c)

-- `ShareBadge`.
unfoldable pub share_badge : Payload → Option Text
unfolding show standing_counts fleet_counts local_counts
share_badge (dscan none) = none
share_badge (dscan (some scan)) =
    some (show scan.ships ++ (codes " ships · " ++ (show scan.total ++ codes " total")))
share_badge (local results risks) = counts_badge (local_counts results)
share_badge (fleet none) = none
share_badge (fleet (some summary)) = some (fleet_counts summary)
share_badge other = none

-- A report as the server sends it.
pub record Shared : Type 0 where
  pub payload : Payload
  pub title : Option Text
  pub created_by : Option Text
  pub created_at : Option ℕ
  pub visibility : Visibility

-- What the page shows: a notice, or a report with its title, badge, age and marks, and the text that
-- its button copies.
pub data View : Type 0 where
  loading_notice : View
  alliance_only : Bool → View
  not_found : View
  shared : String → Option Text → AgeColor → Option Text → Option Text → Bool → Text → View

abbrev pub is_alliance : Visibility → Bool
is_alliance link = false
is_alliance alliance = true

abbrev pub view_report : ℕ → Shared → View
view_report now r =
    shared (kind_title r.payload) (share_badge r.payload) (age_color_for now r.created_at)
      r.created_by r.title (is_alliance r.visibility) (build_share_copy_text r.payload)

abbrev pub view_ok : ℕ → Option (Report Shared) → View
view_ok now none = not_found
view_ok now (some r) = view_report now r.body

abbrev pub view_status : ℕ → Bool → Status → Option (Report Shared) → View
view_status now sso_enabled loading report = loading_notice
view_status now sso_enabled forbidden report = alliance_only (not sso_enabled)
view_status now sso_enabled missing report = not_found
view_status now sso_enabled error report = not_found
view_status now sso_enabled ok report = view_ok now report

-- `SharePage`. A share that is for the alliance says so, and whether one can log in at all.
unfoldable pub view : ℕ → Bool → Page Shared → View
unfolding share_badge age_color_for build_share_copy_text
view now sso_enabled s = view_status now sso_enabled s.status s.report
