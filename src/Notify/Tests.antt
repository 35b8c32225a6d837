-- ===== src/Notify/Tests.antt =====
-- Two polls of a small home, and the theorems at them.
use lawn_eve_intel_dashboard.Common.{
  ℕ, ◌≡◌, refl, sym, ◌∙◌, ◌≢◌, Bool, true, false, ◌&&◌, none, some, List, [], ◌∷◌, if◌then◌else◌,
}
use lawn_eve_intel_dashboard.Common.Text.{codes, digits, show}
use lawn_eve_intel_dashboard.Common.Assoc.{lookup, insert}
use lawn_eve_intel_dashboard.Common.Int.{pos}
use lawn_eve_intel_dashboard.Campaign.{Campaign, at, get_campaign_phase}
use lawn_eve_intel_dashboard.Notify.{
  Settings, granted, is_granted, Poll, snapshot, campaign_notice, adm_notice, nodes_notice,
  pvp_notice, check_and_notify,
}
use lawn_eve_intel_dashboard.Notify.Polls.{wanted, check_and_notify-wanted}

abbrev campaign : ℕ → ℕ → Campaign
campaign id start = record {
  campaign_id = id;
  system_name = "A-1";
  constellation_id = 100;
  start_time = some (at start);
  event_type = some (codes "ihub_defense");
  is_primary = some true;
  is_lawn = none;
}

abbrev poll : List Campaign → ℕ → ℕ → Bool → Poll
poll cs adm kills ours = record {
  campaigns = cs;
  sovereignty = (7, record { is_friendly = true; adm = adm }) ∷ [];
  activity = (7, record { ship_kills = kills; pod_kills = 0 }) ∷ [];
  primary_ids = 7 ∷ [];
  names = (7, "A-1") ∷ [];
  alliance_short = "LAWN";
  holds_sov = ours;
}

abbrev on : Settings
on = record { enabled = true; campaigns = true; pvp = true; pvp_threshold = 3; adm_critical = true }

abbrev before : Poll
before = poll (campaign 1 500 ∷ []) 25 1 true

abbrev now_worse : Poll
now_worse = poll (campaign 1 500 ∷ campaign 2 900 ∷ []) 19 4 true

-- A new campaign, the nodes of the old one, three kills and the fallen ADM.
all_four :
    (check_and_notify 600 on granted
      (some (check_and_notify 400 on granted none before).0)
      now_worse).1
    ≡ campaign_notice "LAWN" (campaign 2 900)
      ∷ nodes_notice (campaign 1 500)
      ∷ pvp_notice "LAWN" (pos 3) 4
      ∷ adm_notice ((7, "A-1") ∷ []) 7 19
      ∷ []
unfolding check_and_notify snapshot lookup insert get_campaign_phase
all_four = refl

tag_of_adm : (adm_notice ((7, "A-1") ∷ []) 7 19).tag ≡ codes "adm-critical-7"
unfolding adm_notice show digits
tag_of_adm = refl

check_and_notify-wanted_example :
    (check_and_notify 600 on granted
      (some (check_and_notify 400 on granted none before).0)
      now_worse).1
    ≡ (if on.enabled && is_granted granted then wanted 400 before 600 now_worse on else [])
check_and_notify-wanted_example = check_and_notify-wanted 400 before 600 now_worse on granted

some_alert :
    (check_and_notify 600 on granted
      (some (check_and_notify 400 on granted none before).0)
      now_worse).1
    ≢ []
some_alert e = cc (sym all_four ∙ e)

abbrev guest : Poll
guest = poll (campaign 1 500 ∷ []) 19 4 false
