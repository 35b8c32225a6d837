-- ===== src/Dashboard/Tabs.antt =====
-- App.jsx and MobileNav.jsx: the tabs of a phone share out the page.
use lawn_eve_intel_dashboard.Common.{
  ℕ, ◌≡◌, refl, Bool, true, false, Option, none, some, List, [], ◌∷◌, ◌++◌, Perm, arith, leb,
  if◌then◌else◌, or_else, any, ◌==◌,
}
use mathlib.Core.List.Perm
use lawn_eve_intel_dashboard.Common.Sort.{insert, sort, sort-perm}
use lawn_eve_intel_dashboard.Dashboard.Figures.{sov_tabs, rootless_tabs, active_tab}
use lawn_eve_intel_dashboard.Dashboard.Layout.{
  Panel, summary_cards, constellation_map, grinding_plan, system_status, kill_feed, campaign_alerts,
  timer_board, planetary_intel, activity_heatmap, intel_channel_parser, active_hostile_tracker,
  jump_bridge_manager, regional_intel, neighbor_intel, dscan_parser, local_scanner,
  fleet_comp_analyzer, adm_trends, upgrades_overview, page,
}

-- The tabs of the navigation.
abbrev pub tabs_of : Option Bool → List ℕ
tabs_of has_ao = if or_else has_ao true then sov_tabs else rootless_tabs

place : Panel → ℕ
place summary_cards = 0
place constellation_map = 1
place grinding_plan = 2
place system_status = 3
place kill_feed = 4
place campaign_alerts = 5
place timer_board = 6
place planetary_intel = 7
place activity_heatmap = 8
place intel_channel_parser = 9
place active_hostile_tracker = 10
place jump_bridge_manager = 11
place regional_intel = 12
place neighbor_intel = 13
place dscan_parser = 14
place local_scanner = 15
place fleet_comp_analyzer = 16
place adm_trends = 17
place upgrades_overview = 18

abbrev before : Panel → Panel → Bool
before p q = leb (place p) (place q)

same_panels : (ps qs : List Panel) → sort before ps ≡ sort before qs → Perm ps qs
same_panels ps qs e = Perm.trans (Perm.symm (sort-perm before ps)) (rw e (sort-perm before qs))

abbrev pub under_tabs : Option Bool → Option Bool → List ℕ → List Panel
under_tabs has_ao holds_sov [] = []
under_tabs has_ao holds_sov (t ∷ ts) =
    page true has_ao holds_sov t ++ under_tabs has_ao holds_sov ts

-- The panels under the tabs of the phone, one tab after the other.
abbrev pub tabbed : Option Bool → Option Bool → List Panel
tabbed has_ao holds_sov = under_tabs has_ao holds_sov (tabs_of has_ao)

active_tab-listed :
    (has_ao : Option Bool) (m : ℕ) → any (λ t. t == active_tab has_ao m) (tabs_of has_ao) ≡ true
unfolding active_tab
active_tab-listed none m = ground arith
active_tab-listed (some true) m = ground arith
active_tab-listed (some false) m = ground arith

tabbed-perm :
    (has_ao holds_sov : Option Bool) (m : ℕ)
    → Perm (tabbed has_ao holds_sov) (page false has_ao holds_sov m)
unfolding page place insert sort active_tab
tabbed-perm none none m = same_panels _ _ refl
tabbed-perm none (some true) m = same_panels _ _ refl
tabbed-perm none (some false) m = same_panels _ _ refl
tabbed-perm (some true) none m = same_panels _ _ refl
tabbed-perm (some true) (some true) m = same_panels _ _ refl
tabbed-perm (some true) (some false) m = same_panels _ _ refl
tabbed-perm (some false) holds_sov m = same_panels _ _ refl

-- The tabs of a phone together have the panels of the wide page and no others, each as often as the
-- wide page has it; and the tab that is open is always one of the navigation's, whichever was tapped
-- last.
pub page-perm :
    (has_ao holds_sov : Option Bool) (mobile_tab : ℕ)
    → Perm (tabbed has_ao holds_sov) (page false has_ao holds_sov mobile_tab)
      × (any (λ t. t == active_tab has_ao mobile_tab) (tabs_of has_ao) ≡ true)
page-perm has_ao holds_sov m = (tabbed-perm has_ao holds_sov m, active_tab-listed has_ao m)
