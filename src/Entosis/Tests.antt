-- ===== src/Entosis/Tests.antt =====
-- The board of a small operation, and the theorems at it.
use lawn_eve_intel_dashboard.Common.{ℕ, ◌≡◌, refl, true, Option, none, some, List, [], ◌∷◌, map}
use lawn_eve_intel_dashboard.Common.Text.{codes}
use lawn_eve_intel_dashboard.Common.Sort.{sort, insert}
use lawn_eve_intel_dashboard.Campaign.{Campaign, at, get_campaign_phase}
use lawn_eve_intel_dashboard.Entosis.{Node, unclaimed, safe, push_node, group_nodes_by_event}
use lawn_eve_intel_dashboard.Entosis.Placed.{Placed}
use lawn_eve_intel_dashboard.Entosis.Grouping.{group_nodes_by_event-Placed}
use lawn_eve_intel_dashboard.Entosis.Order.{InOrder, group_nodes_by_event-InOrder}

abbrev campaign : ℕ → ℕ → Campaign
campaign id start = record {
  campaign_id = id;
  system_name = "A-1";
  constellation_id = 100;
  start_time = some (at start);
  event_type = some (codes "ihub_defense");
  is_primary = some true;
  is_lawn = none;
}

abbrev node : ℕ → Option ℕ → Node
node id c = record {
  id = id;
  system_name = "A-2";
  label = none;
  status = unclaimed;
  claimed_by = none;
  campaign_id = c;
}

-- Two campaigns to come, the later one first, and one whose nodes are out; a value that is no object.
abbrev campaigns : Option (List (Option Campaign))
campaigns = some (some (campaign 3 900) ∷ none ∷ some (campaign 2 500) ∷ some (campaign 1 10) ∷ [])

abbrev nodes : Option (List (Option Node))
nodes = some (
    some (node 11 (some 2))
    ∷ none
    ∷ some (node 12 none)
    ∷ some (node 13 (some 9))
    ∷ some (node 14 (some 2))
    ∷ [])

board_ids :
    map {B = ℕ × List ℕ}
      (λ e. (e.campaign.campaign_id, map (λ n. n.id) e.nodes))
      (group_nodes_by_event 100 nodes campaigns).events
    ≡ (1, []) ∷ (2, 11 ∷ 14 ∷ []) ∷ (3, []) ∷ []
unfolding group_nodes_by_event push_node sort insert get_campaign_phase
board_ids = refl

board_unlinked : map (λ n. n.id) (group_nodes_by_event 100 nodes campaigns).unlinked ≡ 12 ∷ 13 ∷ []
unfolding group_nodes_by_event push_node
board_unlinked = refl

group_nodes_by_event-Placed_example :
    Placed (safe campaigns) (safe nodes) (group_nodes_by_event 100 nodes campaigns)
group_nodes_by_event-Placed_example = group_nodes_by_event-Placed 100 nodes campaigns

group_nodes_by_event-InOrder_example : InOrder 100 (group_nodes_by_event 100 nodes campaigns).events
group_nodes_by_event-InOrder_example = group_nodes_by_event-InOrder 100 nodes campaigns
