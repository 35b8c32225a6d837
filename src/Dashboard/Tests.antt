-- ===== src/Dashboard/Tests.antt =====
-- App.jsx: a poll that fails, and a guest's poll.
use lawn_eve_intel_dashboard.Dashboard.Layout.{page}
use lawn_eve_intel_dashboard.Dashboard.Tabs.{tabs_of, tabbed, page-perm}
use lawn_eve_intel_dashboard.Common.{
  ℕ, zero, suc, ◌+◌, ◌-◌, ◌*◌, ◌/◌, ◌%◌, ◌^◌, ◌≤◌, ◌<◌, compare, Ordering, String, ◌≡◌, refl, sym,
  ap, ◌∙◌, ◌≢◌, ◌↔◌, ◌⊎◌, inl, inr, Bool, true, false, not, ◌&&◌, ◌||◌, Option, none, some, List,
  [], ◌∷◌, ◌++◌, map, flat_map, append-nil, append_assoc, Perm, arith, eq_iff, eq_refl, ltb, leb,
  ◌==◌, str_eq, if◌then◌else◌, ==_iff, ==_refl, Bool-cases, Option-cases, or_else, first_some,
  length, filter, any, somes, All, length-append, filter-append, filter-filter, filter-not-perm,
  All-filter, filter-All, swap_front-perm, any-filter, filter-filter_self, filter_ext, take,
}
use lawn_eve_intel_dashboard.Common.Text.{codes}
use lawn_eve_intel_dashboard.Config.{Constellation}
use lawn_eve_intel_dashboard.MapStyle.{SovView}
use lawn_eve_intel_dashboard.Notify.{Poll, Permission, granted, defaults, check_and_notify}
use lawn_eve_intel_dashboard.OpPage.{Setting}
use lawn_eve_intel_dashboard.Dashboard.{App, Site, Traffic, threw, body, Responses, fetch_data}
use lawn_eve_intel_dashboard.Dashboard.Failures.{fetch_data-failed}
use lawn_eve_intel_dashboard.Dashboard.Figures.{active_tab}
use lawn_eve_intel_dashboard.Dashboard.Guests.{without_adm, after_poll, fetch_data_guest}

abbrev home : Constellation
home = record {
  name = some "Home";
  systems = some ((record { system_id = 30; name = "J9A-BH" }) ∷ []);
  is_primary = some true;
  is_lawn = none;
}

abbrev table : List (ℕ × Constellation)
table = (20, home) ∷ []

abbrev site : Site
site = record {
  config = record {
    constellations = some table;
    map_layout = none;
    map_layout_subway = none;
    map_connections = none;
    alliance_short = some "GST";
    holds_sov = some false;
  };
  region_id = some 10;
  has_ao = none;
  host_ids = 99 ∷ [];
  neighbors = [];
}

abbrev low : SovView
low = record { alliance_name = some "Host"; is_friendly = true; is_host = true; adm = 15 }

abbrev kills : Traffic
kills = record { ship_kills = 4; pod_kills = 1; npc_kills = 7; jumps = 2 }

abbrev setting : Setting
setting = record { now = 5; settings = record defaults { enabled = true }; permission = granted }

abbrev first_poll : Poll
first_poll = record {
  campaigns = [];
  sovereignty = (30, record { is_friendly = true; adm = 25 }) ∷ [];
  activity = [];
  primary_ids = 30 ∷ [];
  names = (30, "J9A-BH") ∷ [];
  alliance_short = "GST";
  holds_sov = true;
}

abbrev app : App
app = record {
  config = some site;
  sovereignty = [];
  activity = [];
  campaigns = [];
  region = some 10;
  feeds = some 10 ∷ [];
  loading = false;
  refreshing = false;
  error = none;
  previous = after_poll setting 3 first_poll;
}

abbrev responses : Responses
responses = record {
  site = threw "not asked";
  sov = body ((30, low) ∷ []);
  act = body ((30, kills) ∷ []);
  camp = body [];
}

abbrev broken : Responses
broken = record responses { act = threw "502" }

fetch_data-failed_example :
    fetch_data false setting "502" broken app
    ≡ (record app { loading = false; refreshing = false; error = none }, [])
fetch_data-failed_example = fetch_data-failed false setting "502" broken app refl

fetch_data_guest_example :
    (fetch_data false setting "" responses app).1
    ≡ (fetch_data false (without_adm setting) "" responses app).1
fetch_data_guest_example =
    fetch_data_guest setting 3 first_poll site "" responses app refl refl refl

one_alert :
    map (λ n. n.tag) (fetch_data false setting "" responses app).1 ≡ codes "primary-pvp-spike" ∷ []
unfolding fetch_data check_and_notify lawn_eve_intel_dashboard.Notify.snapshot
    lawn_eve_intel_dashboard.Common.Assoc.lookup lawn_eve_intel_dashboard.Notify.pvp_notice
    lawn_eve_intel_dashboard.Common.Assoc.insert
one_alert = refl

tabs : map (active_tab (some false)) (0 ∷ 2 ∷ 5 ∷ []) ≡ 3 ∷ 2 ∷ 3 ∷ []
unfolding active_tab
tabs = refl

page-perm_example :
    Perm (tabbed (some true) (some false)) (page false (some true) (some false) 9)
    × (any (λ t. t == active_tab (some true) 9) (tabs_of (some true)) ≡ true)
page-perm_example = page-perm (some true) (some false) 9
