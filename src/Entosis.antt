-- ===== src/Entosis.antt =====
-- frontend/src/utils/entosisHelpers.js: command nodes joined to sovereignty campaigns.
mod Tests
pub mod Group
pub mod Exact
pub mod Placed
pub mod Indexed
pub mod Grouping
pub mod Order
use lawn_eve_intel_dashboard.Common.{
  ℕ, compare, Ordering, String, Bool, true, false, Option, none, some, List, [], ◌∷◌, ◌++◌, ◌==◌,
  if◌then◌else◌, any, somes,
}
use lawn_eve_intel_dashboard.Common.Sort.{sort}
use lawn_eve_intel_dashboard.Campaign.{
  Campaign, Phase, reinforced, nodes, PhaseInfo, get_campaign_phase,
}

pub data Status : Type 0 where
  unclaimed running contested captured lost : Status

-- A row of /api/entosis/nodes.
pub record Node : Type 0 where
  pub id : ℕ
  pub system_name : String
  pub label : Option String
  pub status : Status
  pub claimed_by : Option String
  pub campaign_id : Option ℕ

pub record Event : Type 0 where
  pub campaign : Campaign
  pub nodes : List Node

abbrev pub key : Event → ℕ
key e = e.campaign.campaign_id

-- What `Array.isArray(xs) ? xs : []` and the filter on objects leave: `none` is a value that is no
-- array, and an element `none` one that is no object.
unfoldable pub safe {ℓ} : {A : Type ℓ} → Option (List (Option A)) → List A
safe none = []
safe (some xs) = somes xs

-- `Map.set`: a key that is there keeps its place and takes the new value.
unfoldable pub put_event : Event → List Event → List Event
put_event e [] = e ∷ []
put_event e (x ∷ xs) = if key x == key e then e ∷ xs else x ∷ put_event e xs

-- `new Map(safeCampaigns.map(...))`, entry by entry.
unfoldable pub index_campaigns : List Event → List Campaign → List Event
unfolding put_event
index_campaigns acc [] = acc
index_campaigns acc (c ∷ cs) =
    index_campaigns (put_event (record { campaign = c; nodes = [] }) acc) cs

-- `entry.nodes.push(node)` on the entry under a key.
unfoldable pub push_node : ℕ → Node → List Event → List Event
push_node k n [] = []
push_node k n (e ∷ es) =
    if key e == k then record e { nodes = e.nodes ++ (n ∷ []) } ∷ es else e ∷ push_node k n es

abbrev pub has_event : ℕ → List Event → Bool
has_event k = any (λ e. key e == k)

-- The entries of the map, and the unlinked nodes.
pub record Board : Type 0 where
  pub events : List Event
  pub unlinked : List Node

unfoldable pub place_under : Board → Node → Option ℕ → Board
place_under b n none = record b { unlinked = b.unlinked ++ (n ∷ []) }
place_under b n (some k) =
    if has_event k b.events
    then record b { events = push_node k n b.events }
    else record b { unlinked = b.unlinked ++ (n ∷ []) }

-- The loop over the nodes.
unfoldable pub place_nodes : Board → List Node → Board
unfolding place_under
place_nodes b [] = b
place_nodes b (n ∷ ns) = place_nodes (place_under b n n.campaign_id) ns

-- `ta - tb`, where a missing time counts as Infinity and Infinity - Infinity is no number.
unfoldable pub compare_times : Option ℕ → Option ℕ → Ordering
compare_times (some a) (some b) = compare a b
compare_times (some a) none = Ordering.lt
compare_times none (some b) = Ordering.gt
compare_times none none = Ordering.eq

-- Nodes that are out stand before nodes that are not; within a phase, by the spawn time.
unfoldable pub compare_phases : Phase → Phase → Ordering → Ordering
compare_phases nodes nodes by_time = by_time
compare_phases nodes reinforced by_time = Ordering.lt
compare_phases reinforced nodes by_time = Ordering.gt
compare_phases reinforced reinforced by_time = by_time

unfoldable pub compare_events : PhaseInfo → PhaseInfo → Ordering
unfolding compare_times compare_phases
compare_events pa pb =
    compare_phases pa.phase pb.phase (compare_times pa.nodes_spawn_time pb.nodes_spawn_time)

-- The comparator puts `a` no later than `b`.
unfoldable pub event_le : ℕ → Event → Event → Bool
unfolding compare_events
event_le now a b =
    elim (compare_events (get_campaign_phase now a.campaign) (get_campaign_phase now b.campaign)) [
      | Ordering.gt ↦ false
      | _ ↦ true
    ]

-- `groupNodesByEvent`.
unfoldable pub group_nodes_by_event :
    ℕ → Option (List (Option Node)) → Option (List (Option Campaign)) → Board
unfolding safe index_campaigns place_nodes event_le
group_nodes_by_event now ns cs =
    let board =
      place_nodes (record { events = index_campaigns [] (safe cs); unlinked = [] }) (safe ns) in
    record board { events = sort (event_le now) board.events }
