-- ===== src/Dashboard/Layout.antt =====
-- App.jsx: the panels that stand on the page, wide or on a phone under a tab, and how its cards are
-- coloured.
use lawn_eve_intel_dashboard.Common.{
  ℕ, Bool, true, false, not, ◌||◌, Option, List, [], ◌∷◌, ◌++◌, ◌==◌, ltb, if◌then◌else◌, or_else,
  length, filter,
}
use lawn_eve_intel_dashboard.Campaign.{Campaign, Phase, reinforced, nodes, get_campaign_phase}
use lawn_eve_intel_dashboard.Dashboard.Figures.{active_tab}

pub data Panel : Type 0 where
  summary_cards : Panel
  constellation_map : Panel
  grinding_plan : Panel
  system_status : Panel
  kill_feed : Panel
  campaign_alerts : Panel
  timer_board : Panel
  planetary_intel : Panel
  activity_heatmap : Panel
  intel_channel_parser : Panel
  active_hostile_tracker : Panel
  jump_bridge_manager : Panel
  regional_intel : Panel
  neighbor_intel : Panel
  dscan_parser : Panel
  local_scanner : Panel
  fleet_comp_analyzer : Panel
  adm_trends : Panel
  upgrades_overview : Panel

-- `{condition && <panels />}`.
abbrev pub when : Bool → List Panel → List Panel
when true ps = ps
when false ps = []

-- `showTab`.
abbrev pub show_tab : Bool → ℕ → ℕ → Bool
show_tab is_mobile active id = not is_mobile || active == id

-- The page of an alliance with a home, from top to bottom.
abbrev pub home_page : Bool → ℕ → Bool → List Panel
home_page is_mobile active holds_sov =
    let show = show_tab is_mobile active in
    when (show 0) (summary_cards ∷ [])
    ++ (when (show 1) (when holds_sov (grinding_plan ∷ []))
        ++ (when (show 0) (constellation_map ∷ [])
            ++ (when (show 1) (system_status ∷ [])
                ++ (when (show 2) (kill_feed ∷ [])
                    ++ (when (not is_mobile || (active == 3 || active == 4))
                          (when (show 3) (campaign_alerts ∷ []) ++ when (show 4) (timer_board ∷ []))
                        ++ (when (show 5) (planetary_intel ∷ [])
                            ++ (when (show 2) (activity_heatmap ∷ [])
                                ++ (when (show 3) (intel_channel_parser ∷ [])
                                    ++ (when (show 3) (active_hostile_tracker ∷ [])
                                        ++ (when (show 3) (jump_bridge_manager ∷ [])
                                            ++ (when (show 3) (regional_intel ∷ [])
                                                ++ (when (show 3) (neighbor_intel ∷ [])
                                                    ++ (when (show 3) (dscan_parser ∷ [])
                                                        ++ (when (show 3) (local_scanner ∷ [])
                                                            ++ (when (show 3)
                                                            (fleet_comp_analyzer ∷ [])
                                                            ++ when (show 1) (
                                                            if holds_sov
                                                            then adm_trends ∷ upgrades_overview ∷ []
                                                            else upgrades_overview
                                                            ∷ []))))))))))))))))

-- The page of an alliance that has none.
abbrev pub rootless_page : Bool → ℕ → List Panel
rootless_page is_mobile active =
    let show = show_tab is_mobile active in
    when (show 3) (dscan_parser ∷ [])
    ++ (when (show 3) (local_scanner ∷ [])
        ++ (when (show 3) (fleet_comp_analyzer ∷ [])
            ++ (when (show 2) (kill_feed ∷ [])
                ++ (when (show 2) (active_hostile_tracker ∷ [])
                    ++ (when (show 4) (timer_board ∷ [])
                        ++ when (show 3) (intel_channel_parser ∷ []))))))

-- What stands on the page, given what the configuration says and the tab that was tapped last.
unfoldable pub page : Bool → Option Bool → Option Bool → ℕ → List Panel
unfolding active_tab
page is_mobile has_ao holds_sov mobile_tab =
    if or_else has_ao true
    then home_page is_mobile (active_tab has_ao mobile_tab) (or_else holds_sov true)
    else rootless_page is_mobile (active_tab has_ao mobile_tab)

-- The type of a `SummaryCard`.
pub data CardType : Type 0 where
  danger warn safe default : CardType

-- `n > high ? "danger" : n > low ? "warn" : "safe"`.
abbrev pub graded : ℕ → ℕ → ℕ → CardType
graded high low n = if ltb high n then danger else if ltb low n then warn else safe

-- `n > low ? "warn" : "default"`.
abbrev pub noted : ℕ → ℕ → CardType
noted low n = if ltb low n then warn else default

abbrev pub pvp_card : ℕ → CardType
pvp_card = graded 10 0

abbrev pub jumps_card : ℕ → CardType
jumps_card = noted 200

abbrev pub critical_card : ℕ → CardType
critical_card = graded 3 0

abbrev pub hostile_card : ℕ → CardType
hostile_card n = if ltb 0 n then danger else safe

abbrev pub alliance_pvp_card : ℕ → CardType
alliance_pvp_card = graded 15 5

abbrev pub alliance_jumps_card : ℕ → CardType
alliance_jumps_card = noted 300

abbrev is_out : Phase → Bool
is_out nodes = true
is_out reinforced = false

-- The card of the campaigns: how many have their nodes out, how many are still to come.
pub record CampaignCard : Type 0 where
  pub active_count : ℕ
  pub reffed_count : ℕ
  pub card_type : CardType

unfoldable pub campaign_card : ℕ → List Campaign → CampaignCard
campaign_card now cs =
    let out = length (filter (λ c. is_out (get_campaign_phase now c).phase) cs) in
    let coming = length (filter (λ c. not (is_out (get_campaign_phase now c).phase)) cs) in
    record {
      active_count = out;
      reffed_count = coming;
      card_type = if ltb 0 out then danger else if ltb 0 coming then warn else safe;
    }
