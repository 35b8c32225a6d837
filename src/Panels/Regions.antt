-- ===== src/Panels/Regions.antt =====
-- RegionalIntel.jsx and NeighborIntel.jsx: what both panels show of the regions around.
use lawn_eve_intel_dashboard.Common.{
  ℕ, ◌-◌, ◌*◌, ◌/◌, String, Bool, true, false, not, ◌&&◌, ◌||◌, Option, none, some, List, [], ◌∷◌,
  ◌++◌, map, ltb, leb, ◌==◌, str_eq, if◌then◌else◌, or_else, filter, take, length,
}
use lawn_eve_intel_dashboard.Common.Text.{Text, codes, show}
use lawn_eve_intel_dashboard.Common.Named.{named, put_named}

pub data Danger : Type 0 where
  high elevated quiet : Danger

abbrev pub is_quiet : Danger → Bool
is_quiet quiet = true
is_quiet _ = false

-- A spike that is null is `none`.
pub record RegionSystem : Type 0 where
  pub system_id : ℕ
  pub ship_kills : ℕ
  pub pod_kills : ℕ
  pub jumps : ℕ
  pub spike_kills : Option ℕ
  pub spike_jumps : ℕ

pub record RegionIntel : Type 0 where
  pub name : String
  pub threat : Danger
  pub total_kills : ℕ
  pub total_jumps : ℕ
  pub systems : List RegionSystem

-- `toggleRegion`.
unfoldable pub toggle_region : String → List (String × Bool) → List (String × Bool)
unfolding named put_named
toggle_region name expanded = put_named name (not (or_else (named name expanded) false)) expanded

-- A click on the head of a region: one without systems does not open.
unfoldable pub click_region : RegionIntel → List (String × Bool) → List (String × Bool)
unfolding toggle_region
click_region r expanded = if length r.systems == 0 then expanded else toggle_region r.name expanded

abbrev pub is_busy : RegionSystem → Bool
is_busy s = ltb 0 s.ship_kills || ltb 0 s.jumps

-- The mark of a spike, of kills or else of jumps.
pub data Spike : Type 0 where
  kills_spike jumps_spike : ℕ → Spike

abbrev pub spike_of : RegionSystem → Option ℕ → Option Spike
spike_of s none = if leb 2 s.spike_jumps then some (jumps_spike s.spike_jumps) else none
spike_of s (some n) = if leb 2 n then some (kills_spike n) else none

abbrev pub figure_if : ℕ → String → List Text
figure_if n unit = if ltb 0 n then (show n ++ codes unit) ∷ [] else []

-- A row of a region: its figures, a dash if there is neither a kill of a ship nor a jump, its spike.
pub record SystemLine : Type 0 where
  pub system_id : ℕ
  pub figures : List Text
  pub dash : Bool
  pub spike : Option Spike

abbrev pub system_line : RegionSystem → SystemLine
system_line s = record {
  system_id = s.system_id;
  figures = figure_if s.ship_kills "k" ++ (figure_if s.pod_kills "p" ++ figure_if s.jumps "j");
  dash = s.ship_kills == 0 && s.jumps == 0;
  spike = spike_of s s.spike_kills;
}

-- The card of a region, and how many more systems it has that are quiet.
pub record RegionCard : Type 0 where
  pub name : String
  pub figures : List Text
  pub lines : List SystemLine
  pub more : Option ℕ

abbrev pub shown_systems : Bool → List RegionSystem → List RegionSystem
shown_systems true ss = ss
shown_systems false ss = filter is_busy ss

abbrev pub more_quiet : Bool → List RegionSystem → Option ℕ
more_quiet true ss = none
more_quiet false ss =
    if ltb (length (filter is_busy ss)) (length ss)
    then some (length ss - length (filter is_busy ss))
    else none

unfoldable pub region_card : List (String × Bool) → RegionIntel → RegionCard
unfolding named show
region_card expanded r =
    let is_expanded = or_else (named r.name expanded) false in
    record {
      name = r.name;
      figures = figure_if r.total_kills "k" ++ figure_if r.total_jumps "j";
      lines = map system_line (shown_systems is_expanded r.systems);
      more = more_quiet is_expanded r.systems;
    }

-- `formatAge`, of whole seconds.
unfoldable pub region_age : ℕ → Text
unfolding show
region_age s =
    if ltb s 60
    then show s ++ codes "s"
    else if ltb s 3600
    then show (s / 60) ++ codes "m"
    else show (s / 3600) ++ codes "h"

-- A change of sovereignty, between two alliances or none.
pub record SovChange : Type 0 where
  pub name : Text
  pub old_alliance : Option ℕ
  pub new_alliance : Option ℕ
  pub age : ℕ

pub record ChangeLine : Type 0 where
  pub name : Text
  pub from : Option ℕ
  pub to : Option ℕ
  pub age : Text

abbrev pub change_line : SovChange → ChangeLine
change_line c = record {
  name = c.name;
  from = c.old_alliance;
  to = c.new_alliance;
  age = region_age c.age ++ codes " ago";
}

unfoldable pub sov_changes : List SovChange → List ChangeLine
unfolding region_age
sov_changes cs = map change_line (take 10 cs)

-- A neighbour, as the server profiles it.
pub record Neighbor : Type 0 where
  pub id : ℕ
  pub threat_level : String
  pub kills_nearby : ℕ

pub record NeighborView : Type 0 where
  pub pinned : List Neighbor
  pub detected : List Neighbor
  pub high_count : ℕ

abbrev pub seen_nearby : List Neighbor → List Neighbor
seen_nearby = filter (λ n. ltb 0 n.kills_nearby)

abbrev pub view_neighbors : List Neighbor → List Neighbor → Option NeighborView
view_neighbors [] [] = none
view_neighbors ps ds = some (record {
  pinned = ps;
  detected = ds;
  high_count = length (filter (λ n. str_eq n.threat_level "High") ps);
})

-- `NeighborIntel`, on the two lists of its reply.
unfoldable pub neighbor_intel : Bool → Option (List Neighbor × List Neighbor) → Option NeighborView
neighbor_intel true reply = none
neighbor_intel false none = none
neighbor_intel false (some (pinned, detected)) = view_neighbors pinned (seen_nearby detected)

-- `HeatmapBar`: the heights in a hundred, times the largest number, and at least 3.
abbrev pub larger : ℕ → ℕ → ℕ
larger m n = if leb m n then n else m

unfoldable pub busiest : List ℕ → ℕ
busiest [] = 1
busiest (n ∷ ns) = larger n (busiest ns)

unfoldable pub heat_bars : List ℕ → List ℕ
unfolding busiest
heat_bars ns = map (λ n. larger (3 * busiest ns) (n * 100)) ns
