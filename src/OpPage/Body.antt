-- ===== src/OpPage/Body.antt =====
-- EntosisPage.jsx: what stands in the body of the operation page, made of the board of Entosis, the
-- scope of Scope and the texts of Campaign. Percents of scores are left out.
use lawn_eve_intel_dashboard.Common.{
  ℕ, ◌-◌, String, Bool, true, false, ◌||◌, Option, none, some, List, ◌++◌, map, flat_map, ltb, ◌==◌,
  if◌then◌else◌, or_else, filter, length,
}
use lawn_eve_intel_dashboard.Common.Text.{Text, codes}
use lawn_eve_intel_dashboard.Common.Sort.{sort}
use lawn_eve_intel_dashboard.Campaign.{
  Campaign, Phase, reinforced, nodes, PhaseInfo, get_campaign_phase,
}
use lawn_eve_intel_dashboard.Campaign.Texts.{countdown_text, format_eve_time, format_vuln_window}
use lawn_eve_intel_dashboard.Config.{
  Config, Constellation, Layout, or_nil, constellation_at, is_primary_constellation,
}
use lawn_eve_intel_dashboard.Config.Sets.{has}
use lawn_eve_intel_dashboard.Entosis.{Node, Event, Board, key, group_nodes_by_event}
use lawn_eve_intel_dashboard.OpPage.{OpKill}
use lawn_eve_intel_dashboard.Scope.{
  name_of, constellation_names_for_campaigns, filter_config_to_constellations,
  systems_for_constellation, campaign_system_ids, event_type_label,
}

-- `config?.constellations`.
abbrev pub table_of : Option Config → Option (List (ℕ × Constellation))
table_of none = none
table_of (some cfg) = cfg.constellations

-- `focusedConfig`.
unfoldable pub focused_config : Option Config → List Campaign → Option Config
unfolding filter_config_to_constellations constellation_names_for_campaigns
focused_config config cs =
    filter_config_to_constellations config
      (constellation_names_for_campaigns (some cs) (table_of config))

-- `opKills`.
unfoldable pub op_kills : Option Config → List Campaign → Option (List OpKill) → List OpKill
unfolding campaign_system_ids
op_kills config cs kills =
    let ids = campaign_system_ids (some cs) (table_of config) in
    filter (λ k. has ◌==◌ k.system_id ids) (or_nil kills)

-- `mapHasSystems`, on the subway map or the traditional one.
abbrev pub layout_of : Bool → Config → Option Layout
layout_of true cfg = cfg.map_layout_subway
layout_of false cfg = cfg.map_layout

abbrev pub map_has_systems : Bool → Option Config → Bool
map_has_systems is_subway none = false
map_has_systems is_subway (some cfg) = ltb 0 (length (or_nil (layout_of is_subway cfg)))

-- `primarySystems`.
unfoldable pub primary_systems :
    (String → String → Bool) → Option (List (ℕ × Constellation)) → List String
unfolding sort is_primary_constellation
primary_systems le table = sort le (
    flat_map (λ c. map (λ s. s.name) (or_nil c.1.systems))
      (filter (λ c. is_primary_constellation c.1) (or_nil table)))

abbrev pub nodes_are_out : Phase → Bool
nodes_are_out nodes = true
nodes_are_out reinforced = false

abbrev pub event_is_active : ℕ → Event → Bool
event_is_active now e = nodes_are_out (get_campaign_phase now e.campaign).phase

-- `activeCount` and `upcomingCount`.
unfoldable pub active_events : ℕ → List Event → ℕ
active_events now es = length (filter (event_is_active now) es)

abbrev pub upcoming_events : ℕ → List Event → ℕ
upcoming_events now es = length es - active_events now es

-- `addFormFor`: no form, the form for unlinked nodes, or that of a campaign.
abbrev pub is_form_for : Option ℕ → Option (Option ℕ) → Bool
is_form_for k none = false
is_form_for none (some none) = true
is_form_for none (some (some id)) = false
is_form_for (some k) (some none) = false
is_form_for (some k) (some (some id)) = k == id

-- The form to add a node, with the systems it offers, and its button: `true` is CANCEL.
abbrev pub form_if : Bool → List String → Option (List String)
form_if true systems = some systems
form_if false systems = none

abbrev pub toggle_if : Bool → Bool → Option Bool
toggle_if can_manage is_open = if can_manage then some is_open else none

abbrev pub spawn_badge : ℕ → PhaseInfo → Phase → Text
spawn_badge now p nodes = codes "NODES ACTIVE"
spawn_badge now p reinforced = codes "NODES IN " ++ countdown_text now p.nodes_spawn_time

-- Where and when the nodes of a reinforced structure come out.
abbrev pub spawn_place : Option String → PhaseInfo → Phase → Option (String × Text)
spawn_place name p nodes = none
spawn_place name p reinforced =
    some (or_else name "the constellation", format_eve_time p.nodes_spawn_time)

-- The fields of a campaign that only its panel reads.
pub record Vulnerable : Type 0 where
  pub vulnerable_start_time : Option ℕ
  pub vulnerable_end_time : Option ℕ
  pub defender_is_friendly : Bool

pub record EventPanel : Type 0 where
  pub campaign_id : ℕ
  pub title : String
  pub kind : Text
  pub is_defense : Bool
  pub constellation : Option String
  pub vuln : Option Text
  pub badge : Text
  pub toggle : Option Bool
  pub reinforced_at : Option (String × Text)
  pub form : Option (List String)
  pub cards : List Node

-- `EventPanel`.
unfoldable pub event_panel :
    ℕ
    → (Campaign → Vulnerable)
    → Bool
    → Option (Option ℕ)
    → Option (List (ℕ × Constellation))
    → Event
    → EventPanel
unfolding event_type_label constellation_at systems_for_constellation format_vuln_window
    format_eve_time
event_panel now vulnerable can_manage form table e =
    let phase = get_campaign_phase now e.campaign in
    let v = vulnerable e.campaign in
    let is_open = is_form_for (some (key e)) form in
    let place = name_of (constellation_at e.campaign.constellation_id (or_nil table)) in
    record {
      campaign_id = key e;
      title = e.campaign.system_name;
      kind = event_type_label e.campaign.event_type;
      is_defense = v.defender_is_friendly;
      constellation = place;
      vuln = format_vuln_window v.vulnerable_start_time v.vulnerable_end_time;
      badge = spawn_badge now phase phase.phase;
      toggle = toggle_if can_manage is_open;
      reinforced_at = spawn_place place phase phase.phase;
      form = form_if is_open (systems_for_constellation table e.campaign.constellation_id);
      cards = e.nodes;
    }

-- The panel of the nodes that are under no event; `is_only` is its title COMMAND NODES.
pub record UnlinkedPanel : Type 0 where
  pub is_only : Bool
  pub toggle : Option Bool
  pub form : Option (List String)
  pub cards : List Node

unfoldable pub show_unlinked : Board → Bool
show_unlinked b = ltb 0 (length b.unlinked) || length b.events == 0

abbrev pub unlinked_panel :
    (String → String → Bool)
    → Bool
    → Option (Option ℕ)
    → Option (List (ℕ × Constellation))
    → Board
    → UnlinkedPanel
unlinked_panel le can_manage form table b = record {
  is_only = length b.events == 0;
  toggle = toggle_if can_manage (is_form_for none form);
  form = form_if (is_form_for none form) (primary_systems le table);
  cards = b.unlinked;
}

pub record OpBody : Type 0 where
  pub active : ℕ
  pub upcoming : ℕ
  pub panels : List EventPanel
  pub unlinked : Option UnlinkedPanel

-- The event board of the page, from the nodes and campaigns that were polled.
unfoldable pub op_body :
    (String → String → Bool)
    → ℕ
    → (Campaign → Vulnerable)
    → Bool
    → Option (Option ℕ)
    → Option (List (ℕ × Constellation))
    → List Node
    → List Campaign
    → OpBody
unfolding group_nodes_by_event active_events event_panel show_unlinked primary_systems
op_body le now vulnerable can_manage form table ns cs =
    let b = group_nodes_by_event now (some (map some ns)) (some (map some cs)) in
    record {
      active = active_events now b.events;
      upcoming = upcoming_events now b.events;
      panels = map (event_panel now vulnerable can_manage form table) b.events;
      unlinked = if show_unlinked b then some (unlinked_panel le can_manage form table b) else none;
    }
