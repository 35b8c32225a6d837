-- ===== src/OpPage/Tests.antt =====
-- A small home and its polls, and the theorems at them.
use lawn_eve_intel_dashboard.Campaign.{Campaign}
use lawn_eve_intel_dashboard.Entosis.{Node, unclaimed}
use lawn_eve_intel_dashboard.OpPage.Body.{Vulnerable, op_body, op_kills}
use lawn_eve_intel_dashboard.Common.{
  Option, map, length, ℕ, ◌≡◌, refl, true, false, none, some, List, [], ◌∷◌, arith, any,
}
use lawn_eve_intel_dashboard.Common.Assoc.{lookup}
use lawn_eve_intel_dashboard.Config.{Config, Constellation}
use lawn_eve_intel_dashboard.Notify.{granted, Activity, kills_of}
use lawn_eve_intel_dashboard.OpPage.{
  missing, odd, good, Intel, Setting, op_poll, primary_ids, fetch_intel, OpKill, KillReply, refused,
  failed, no_list, kill_feed_done,
}
use lawn_eve_intel_dashboard.OpPage.Feeds.{Shows, fetch_intel-Shows}
use lawn_eve_intel_dashboard.OpPage.Alarm.{is_spike, with_config, fetch_intel-spike}

abbrev table : List (ℕ × Constellation)
table =
    (
      100,
      record {
        name = some "Alpha";
        systems = some (record { system_id = 7; name = "A-1" } ∷ []);
        is_primary = some true;
        is_lawn = none;
      },
    )
    ∷ (
      200,
      record {
        name = some "Beta";
        systems = some (record { system_id = 8; name = "B-1" } ∷ []);
        is_primary = none;
        is_lawn = some false;
      },
    )
    ∷ []

abbrev cfg : Config
cfg = record {
  constellations = some table;
  map_layout = none;
  map_layout_subway = none;
  map_connections = none;
  alliance_short = some "LAWN";
  holds_sov = some true;
}

abbrev page : Intel
page = record {
  campaigns = [];
  sovereignty = [];
  activity = [];
  config = some cfg;
  kill_feed = (record { killmail_id = 1; system_id = 8 }) ∷ [];
  kill_requests = 0;
  previous = none;
}

abbrev at_noon : Setting
at_noon = record {
  now = 500;
  settings = record {
    enabled = true;
    campaigns = true;
    pvp = true;
    pvp_threshold = 3;
    adm_critical = true;
  };
  permission = granted;
}

abbrev kills_now : List (ℕ × Activity)
kills_now = (7, record { ship_kills = 3; pod_kills = 2 }) ∷ []

homes : primary_ids table [] ≡ 7 ∷ []
unfolding primary_ids
homes = refl

fetch_intel-Shows_example :
    Shows
      (fetch_intel at_noon missing odd (good kills_now) page).0
      []
      []
      kills_now
      (some cfg)
      page.kill_feed
      1
fetch_intel-Shows_example = fetch_intel-Shows at_noon missing odd (good kills_now) page refl refl

fetch_intel-spike_example :
    any is_spike
      (fetch_intel at_noon
        (good [])
        (good [])
        (good kills_now)
        (fetch_intel at_noon (good []) (good []) missing (with_config page cfg table)).0).1
    ≡ true
unfolding op_poll lookup kills_of
fetch_intel-spike_example =
    fetch_intel-spike at_noon at_noon [] [] [] [] kills_now page cfg table refl refl refl
      (omega arith)

abbrev campaign : Campaign
campaign = record {
  campaign_id = 5;
  system_name = "A-1";
  constellation_id = 100;
  start_time = none;
  event_type = none;
  is_primary = none;
  is_lawn = none;
}

abbrev node : ℕ → Option ℕ → Node
node id campaign_id = record {
  id = id;
  system_name = "A-1";
  label = none;
  status = unclaimed;
  claimed_by = none;
  campaign_id = campaign_id;
}

abbrev vulnerable : Campaign → Vulnerable
vulnerable c = record {
  vulnerable_start_time = none;
  vulnerable_end_time = none;
  defender_is_friendly = true;
}

abbrev polled : List Node
polled = node 1 (some 5) ∷ node 2 none ∷ node 3 (some 9) ∷ []

one_card :
    map
      (λ p. length p.cards)
      (op_body (λ s t. true) 0 vulnerable true none (some table) polled (campaign ∷ [])).panels
    ≡ 1 ∷ []
unfolding op_body lawn_eve_intel_dashboard.Entosis.push_node
one_card = refl

abbrev kills : List OpKill
kills =
    (record { killmail_id = 1; system_id = 8 }) ∷ (record { killmail_id = 2; system_id = 7 }) ∷ []

kills_of_the_operation :
    map (λ k. k.killmail_id) (op_kills (some cfg) (campaign ∷ []) (some kills)) ≡ 2 ∷ []
unfolding op_kills
kills_of_the_operation = refl

kill_feed_answers :
    map {B = ℕ}
      (λ r. length (kill_feed_done r page).kill_feed)
      (refused ∷ failed ∷ no_list ∷ KillReply.kills kills ∷ [])
    ≡ 0 ∷ 1 ∷ 1 ∷ 2 ∷ []
unfolding kill_feed_done
kill_feed_answers = refl
