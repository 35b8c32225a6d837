-- ===== src/MapStyle/Nodes.antt =====
-- ConstellationMap.jsx: how the node of a system is drawn. Sizes and widths are tenths, opacities
-- hundredths.
use lawn_eve_intel_dashboard.Common.{
  ℕ, ◌+◌, ◌*◌, String, Bool, true, false, not, ◌&&◌, Option, none, some, List, [], ◌∷◌, ◌++◌, ltb,
  ◌==◌, str_eq, if◌then◌else◌,
}
use lawn_eve_intel_dashboard.Common.Named.{named}
use lawn_eve_intel_dashboard.Config.{MapPos}
use lawn_eve_intel_dashboard.Config.Sets.{has}
use lawn_eve_intel_dashboard.MapStyle.{
  View, get_pvp_glow, get_npc_ring, sov_at, is_lost_system, needs_critical_grinding,
  needs_caution_grinding, is_reffed,
}

-- A fill: the colour of the system, or one that is given.
pub data Fill : Type 0 where
  own : Fill
  hex : String → Fill

pub record NodeSize : Type 0 where
  pub r : ℕ
  pub name_size : ℕ
  pub name_off : ℕ
  pub adm_size : ℕ
  pub adm_off : ℕ
  pub opacity : ℕ
  pub name_fill : Fill
  pub stroke : ℕ
  pub fill : String

abbrev pub node_size : ℕ → ℕ → ℕ → ℕ → ℕ → ℕ → Fill → ℕ → String → NodeSize
node_size r name_size name_off adm_size adm_off opacity name_fill stroke fill = record {
  r = r;
  name_size = name_size;
  name_off = name_off;
  adm_size = adm_size;
  adm_off = adm_off;
  opacity = opacity;
  name_fill = name_fill;
  stroke = stroke;
  fill = fill;
}

-- The sizes of a node, for the kind of map and of system.
unfoldable pub size_of : Bool → Bool → Bool → Bool → NodeSize
size_of is_subway is_neighbor is_primary is_gateway =
    if not is_subway
    then (if is_neighbor
        then node_size 40 80 100 100 220 60 (hex "#554400") 10 "#0a0a08"
        else node_size 60 100 130 100 220 100 own 15 "#060a0f")
    else if is_neighbor
    then node_size 30 70 80 0 0 55 (hex "#555565") 10 "#080810"
    else if is_primary
    then (if is_gateway
        then node_size 120 130 220 110 280 100 (hex "#e0fff0") 30 "#0a1a10"
        else node_size 100 130 180 110 240 100 (hex "#e0fff0") 25 "#0a1a10")
    else node_size 40 75 90 0 0 80 own 10 "#060a0f"

-- What a system is on the map.
pub record Marks : Type 0 where
  pub is_subway : Bool
  pub is_neighbor : Bool
  pub is_primary : Bool
  pub is_gateway : Bool
  pub critical : Bool
  pub caution : Bool
  pub lost : Bool
  pub reffed : Bool
  pub nodes_active : Bool
  pub selected : Bool
  pub alerted : Bool
  pub noted : Bool

abbrev pub is_large : Marks → Bool
is_large m = m.is_subway && m.is_primary

abbrev pub sized : Marks → NodeSize
sized m = size_of m.is_subway m.is_neighbor m.is_primary m.is_gateway

-- The sizes with the colours of a lost system.
unfoldable pub final_size : Marks → NodeSize
unfolding size_of
final_size m =
    if m.lost && is_large m
    then record (sized m) { name_fill = hex "#ff8888"; fill = "#1a0408" }
    else sized m

abbrev pub either : Bool → ℕ → ℕ → ℕ
either large a b = if large then a else b

-- `strokeColor`, `strokeW` and `nodeFilter`.
unfoldable pub stroke_color : Marks → Fill
stroke_color m = if m.critical then hex "#ff3355" else if m.caution then hex "#ffaa00" else own

unfoldable pub stroke_width : Marks → ℕ
unfolding final_size
stroke_width m =
    if m.critical
    then either (is_large m) 40 30
    else if m.caution
    then either (is_large m) 30 20
    else if m.lost
    then either (is_large m) 40 30
    else (final_size m).stroke

pub data Glow : Type 0 where
  glow_red glow_amber glow_green no_glow : Glow

unfoldable pub node_filter : Marks → Glow
node_filter m =
    if m.critical
    then glow_red
    else if m.caution
    then glow_amber
    else if m.lost
    then glow_red
    else if is_large m
    then glow_green
    else no_glow

-- A circle around the node, by what it stands for, with its radius.
pub data Ring : Type 0 where
  gateway lost reffed_nodes reffed alert npc pvp picked note : ℕ → Ring

abbrev pub ring_if : Bool → Ring → List Ring
ring_if true r = r ∷ []
ring_if false r = []

abbrev pub reffed_radius : Marks → ℕ → ℕ
reffed_radius m r = if m.is_subway then (if m.is_primary then r + 80 else r + 60) else 160

abbrev pub chosen_radius : Marks → ℕ → ℕ
chosen_radius m r = if m.is_subway then (if m.is_primary then r + 40 else r + 30) else 110

abbrev pub lost_radius : Marks → ℕ → ℕ
lost_radius m r = if m.is_subway then (if m.is_primary then r + 120 else r + 80) else r + 100

-- A glow is larger by a factor of 1.3 around a large node.
abbrev pub glow_radius : Marks → ℕ → ℕ
glow_radius m n = if is_large m then n * 13 else n * 10

abbrev pub npc_ring : Marks → Option (ℕ × ℕ) → List Ring
npc_ring m none = []
npc_ring m (some ring) = npc (glow_radius m ring.0) ∷ []

-- The circles of a node, from the back to the front.
abbrev pub rings_of : Marks → ℕ → Option (ℕ × ℕ) → ℕ → List Ring
rings_of m r npc_size pvp_size =
    ring_if m.is_gateway (gateway (r + 50))
    ++ (ring_if (m.lost && not m.is_neighbor) (lost (lost_radius m r))
        ++ (ring_if m.reffed (
              if m.nodes_active
              then reffed_nodes (reffed_radius m r)
              else reffed (reffed_radius m r))
            ++ (ring_if m.alerted (alert (if m.is_neighbor then r + 50 else reffed_radius m r + 90))
                ++ (npc_ring m npc_size
                    ++ (ring_if (ltb 0 pvp_size) (pvp (glow_radius m pvp_size))
                        ++ (ring_if m.selected (picked (chosen_radius m r))
                            ++ ring_if (not m.is_neighbor && m.noted)
                                (note (if is_large m then 35 else 25))))))))

-- The node of a system: its sizes, circles, stroke and glow, and the signs beside it.
pub record Node : Type 0 where
  pub size : NodeSize
  pub rings : List Ring
  pub stroke : Fill
  pub width : ℕ
  pub glow : Glow
  pub exclamation : Bool
  pub cross : Bool
  pub adm : Option ℕ

unfoldable pub node_of : Marks → Option (ℕ × ℕ) → ℕ → ℕ → Node
unfolding final_size stroke_color stroke_width node_filter
node_of m npc_size pvp_size adm = record {
  size = final_size m;
  rings = rings_of m (final_size m).r npc_size pvp_size;
  stroke = stroke_color m;
  width = stroke_width m;
  glow = node_filter m;
  exclamation = m.critical;
  cross = m.lost && not m.is_neighbor;
  adm = if not m.is_neighbor && ltb 0 adm && ltb 0 (final_size m).adm_size then some adm else none;
}

abbrev pub is_same : Option ℕ → Option ℕ → Bool
is_same none s = false
is_same (some id) none = false
is_same (some id) (some s) = id == s

-- The marks of a system, from the properties of the map. `nodes_active` says whether the nodes of
-- its campaign are out.
unfoldable pub marks_of :
    Bool
    → View
    → Option ℕ
    → List String
    → List String
    → List String
    → Bool
    → String
    → MapPos
    → Marks
unfolding needs_critical_grinding needs_caution_grinding is_lost_system is_reffed named
marks_of is_subway v chosen borders alerts notes nodes_active name p = record {
  is_subway = is_subway;
  is_neighbor = str_eq p.constellation "neighbor";
  is_primary = p.lawn;
  is_gateway = is_subway && has str_eq name borders;
  critical = needs_critical_grinding v name;
  caution = needs_caution_grinding v name;
  lost = is_lost_system v name;
  reffed = is_reffed v name;
  nodes_active = nodes_active;
  selected = is_same (named name v.ids) chosen;
  alerted = has str_eq name alerts;
  noted = has str_eq name notes;
}

-- A node of the map.
unfoldable pub draw_node :
    Bool → View → Option ℕ → List String → List String → List String → Bool → String → MapPos → Node
unfolding marks_of node_of get_npc_ring get_pvp_glow sov_at named
draw_node is_subway v chosen borders alerts notes nodes_active name p =
    node_of (marks_of is_subway v chosen borders alerts notes nodes_active name p)
      (get_npc_ring v name) (get_pvp_glow v name) (sov_at v (named name v.ids)).adm
