-- ===== src/MapStyle.antt =====
-- frontend/src/components/ConstellationMap.jsx: what the map says of a system. ADM values are tenths.
-- A constellation that lists no systems stops the map, and has none here.
mod Tests
pub mod Badges
pub mod Lines
pub mod Tips
pub mod Nodes
pub mod Gestures
pub mod Scales
use lawn_eve_intel_dashboard.Common.{
  ℕ, ◌+◌, String, Bool, true, false, not, ◌&&◌, ◌||◌, Option, none, some, List, [], ◌∷◌, ltb, leb,
  ◌==◌, str_eq, if◌then◌else◌, or_else, any,
}
use lawn_eve_intel_dashboard.Common.Text.{codes}
use lawn_eve_intel_dashboard.Common.Named.{named, put_named}
use lawn_eve_intel_dashboard.Common.Assoc.{lookup, insert}
use lawn_eve_intel_dashboard.Config.{Config, Constellation, System, MapPos, Layout, or_nil}
use lawn_eve_intel_dashboard.Config.Sets.{add, has}
use lawn_eve_intel_dashboard.Notify.{Activity, kills_of}
use lawn_eve_intel_dashboard.MapView.{constellation_color}
use lawn_eve_intel_dashboard.Intel.{Row}

-- What the map reads of a system's sovereignty. A missing ADM is 0.
pub record SovView : Type 0 where
  pub alliance_name : Option String
  pub is_friendly : Bool
  pub is_host : Bool
  pub adm : ℕ

-- What the map reads of a system's activity.
pub record Kills : Type 0 where
  pub ship_kills : ℕ
  pub pod_kills : ℕ
  pub npc_kills : ℕ

-- The properties of the map. The ids of the campaigns are those of their systems.
pub record View : Type 0 where
  pub ids : List (String × ℕ)
  pub layout : Layout
  pub sovereignty : List (ℕ × SovView)
  pub activity : List (ℕ × Kills)
  pub campaigns : Option (List ℕ)
  pub holds_sov : Bool

-- `nameToId` of the systems.
abbrev pub name_systems : List System → List (String × ℕ) → List (String × ℕ)
name_systems [] ids = ids
name_systems (s ∷ ss) ids = name_systems ss (put_named s.name s.system_id ids)

unfoldable pub name_constellations :
    List (ℕ × Constellation) → List (String × ℕ) → List (String × ℕ)
unfolding put_named
name_constellations [] ids = ids
name_constellations (c ∷ cs) ids = name_constellations cs (name_systems (or_nil c.1.systems) ids)

-- `nameToId`: the neighbours come last.
unfoldable pub name_to_id :
    Option (List (ℕ × Constellation)) → Option (List System) → List (String × ℕ)
unfolding name_constellations
name_to_id table neighbors = name_systems (or_nil neighbors) (name_constellations (or_nil table) [])

-- `c.is_primary || c.is_lawn || primaryConstIds.has(cid)`.
abbrev pub is_home_constellation : List ℕ → ℕ × Constellation → Bool
is_home_constellation primary c =
    or_else c.1.is_primary false || or_else c.1.is_lawn false || has ◌==◌ c.0 primary

abbrev pub collect_ids : List System → List ℕ → List ℕ
collect_ids [] ids = ids
collect_ids (s ∷ ss) ids = collect_ids ss (add ◌==◌ s.system_id ids)

-- `primarySystemIds`.
unfoldable pub primary_system_ids : List ℕ → List (ℕ × Constellation) → List ℕ → List ℕ
unfolding add
primary_system_ids primary [] ids = ids
primary_system_ids primary (c ∷ cs) ids =
    primary_system_ids primary cs
      (if is_home_constellation primary c then collect_ids (or_nil c.1.systems) ids else ids)

-- `intelAlertSet`: the last of the rows that count for a system.
abbrev pub is_active : Row → Bool
is_active r = not r.expired && not r.report.is_clear && ltb 0 (or_else r.report.count 0)

unfoldable pub intel_alert_set : List Row → List (String × Row) → List (String × Row)
unfolding put_named
intel_alert_set [] m = m
intel_alert_set (r ∷ rs) m =
    intel_alert_set rs (if is_active r then put_named r.report.system r m else m)

-- `sovereignty[sysId] || {}`.
abbrev pub no_sov_view : SovView
no_sov_view = record { alliance_name = none; is_friendly = false; is_host = false; adm = 0 }

unfoldable pub sov_at : View → Option ℕ → SovView
unfolding lookup
sov_at v none = no_sov_view
sov_at v (some id) = or_else (lookup id v.sovereignty) no_sov_view

-- `sov.alliance_name && !sov.is_friendly`.
abbrev pub has_owner : Option String → Bool
has_owner none = false
has_owner (some name) = true

abbrev pub is_hostile : SovView → Bool
is_hostile s = has_owner s.alliance_name && not s.is_friendly

-- `isHostSystem`.
unfoldable pub is_host_system : View → String → Bool
unfolding sov_at named
is_host_system v name = (sov_at v (named name v.ids)).is_host

pub data Color : Type 0 where
  unknown neighbor hostile host held : Color
  palette : Option ℕ → Color

abbrev pub color_at : View → Option ℕ → Option MapPos → Color
color_at v id none = unknown
color_at v id (some p) =
    if str_eq p.constellation "neighbor"
    then neighbor
    else if p.lawn
    then (if is_hostile (sov_at v id)
        then hostile
        else if (sov_at v id).is_host
        then host
        else held)
    else palette (constellation_color (codes p.constellation))

-- `getColor`.
unfoldable pub get_color : View → String → Color
unfolding sov_at named constellation_color
get_color v name = color_at v (named name v.ids) (named name v.layout)

abbrev pub lies_in_lawn : Option MapPos → Bool
lies_in_lawn none = false
lies_in_lawn (some p) = p.lawn

abbrev pub has_id : Option ℕ → Bool
has_id none = false
has_id (some id) = true

-- `isLostSystem`.
unfoldable pub is_lost_system : View → String → Bool
unfolding sov_at named
is_lost_system v name =
    lies_in_lawn (named name v.layout)
    && has_id (named name v.ids)
    && is_hostile (sov_at v (named name v.ids))

-- `activity[sysId] || {}`.
unfoldable pub kills_at : View → Option ℕ → Kills
unfolding lookup
kills_at v none = record { ship_kills = 0; pod_kills = 0; npc_kills = 0 }
kills_at v (some id) =
    or_else (lookup id v.activity) (record { ship_kills = 0; pod_kills = 0; npc_kills = 0 })

-- `getPvpGlow`.
unfoldable pub get_pvp_glow : View → String → ℕ
unfolding kills_at named
get_pvp_glow v name =
    let k = kills_at v (named name v.ids) in
    if leb 5 (k.ship_kills + k.pod_kills)
    then 14
    else if leb 1 (k.ship_kills + k.pod_kills)
    then 8
    else 0

-- `getNpcRing`: the radius, and the opacity in hundredths.
unfoldable pub get_npc_ring : View → String → Option (ℕ × ℕ)
unfolding kills_at named
get_npc_ring v name =
    let npc = (kills_at v (named name v.ids)).npc_kills in
    if ltb 500 npc then some (24, 18) else if ltb 200 npc then some (18, 10) else none

-- `isReffed`.
abbrev pub is_contested : List ℕ → Option ℕ → Bool
is_contested campaigns none = false
is_contested campaigns (some id) = any (λ c. c == id) campaigns

unfoldable pub is_reffed : View → String → Bool
unfolding named
is_reffed v name = is_contested (or_nil v.campaigns) (named name v.ids)

-- `needsCriticalGrinding`.
unfoldable pub needs_critical_grinding : View → String → Bool
unfolding sov_at named
needs_critical_grinding v name =
    let sov = sov_at v (named name v.ids) in
    v.holds_sov
    && lies_in_lawn (named name v.layout)
    && has_id (named name v.ids)
    && sov.is_friendly
    && ltb 0 sov.adm
    && ltb sov.adm 20

-- `needsCautionGrinding`.
unfoldable pub needs_caution_grinding : View → String → Bool
unfolding sov_at named
needs_caution_grinding v name =
    let sov = sov_at v (named name v.ids) in
    v.holds_sov
    && lies_in_lawn (named name v.layout)
    && has_id (named name v.ids)
    && sov.is_friendly
    && leb 20 sov.adm
    && ltb sov.adm 40
