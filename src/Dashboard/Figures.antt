-- ===== src/Dashboard/Figures.antt =====
-- App.jsx: the systems that are listed, the figures of the header and the tabs.
use lawn_eve_intel_dashboard.Common.{
  ℕ, ◌+◌, String, ◌≡◌, refl, inl, inr, Bool, true, false, ◌&&◌, Option, none, some, List, [], ◌∷◌,
  flat_map, ltb, ◌==◌, if◌then◌else◌, Bool-cases, or_else, length, filter, any,
}
use lawn_eve_intel_dashboard.Common.Assoc.{lookup}
use lawn_eve_intel_dashboard.Config.{
  Constellation, System, or_nil, is_primary_constellation, constellation_at,
}
use lawn_eve_intel_dashboard.Config.Sets.{add, has}
use lawn_eve_intel_dashboard.MapStyle.{SovView, is_hostile, has_owner}
use lawn_eve_intel_dashboard.OpPage.{add_primary, primary_ids}
use lawn_eve_intel_dashboard.Dashboard.{Traffic, Site}

-- `activeConst`.
pub data Selection : Type 0 where
  primary all : Selection
  single : ℕ → Selection

-- `Object.values(c.systems)`. A constellation that lists none stops the page, and has none here.
abbrev pub systems_in : List (ℕ × Constellation) → List System
systems_in = flat_map (λ c. or_nil c.1.systems)

abbrev pub primary_entry : ℕ × Constellation → Bool
primary_entry c = is_primary_constellation c.1

abbrev pub systems_of_one : Option Constellation → List System
systems_of_one none = []
systems_of_one (some c) = or_nil c.systems

-- `visible`.
unfoldable pub visible : Selection → List (ℕ × Constellation) → List System
unfolding is_primary_constellation constellation_at
visible primary table = systems_in (filter primary_entry table)
visible all table = systems_in table
visible (single id) table = systems_of_one (constellation_at id table)

abbrev pub quiet : Traffic
quiet = record { ship_kills = 0; pod_kills = 0; npc_kills = 0; jumps = 0 }

unfoldable pub traffic_at : List (ℕ × Traffic) → System → Traffic
unfolding lookup
traffic_at act s = or_else (lookup s.system_id act) quiet

-- `totPVP`, `totNPC` and `totJ`: `reduce` with one of the figures.
abbrev pub pvp_of : Traffic → ℕ
pvp_of t = t.ship_kills + t.pod_kills

unfoldable pub sum_of : (Traffic → ℕ) → List (ℕ × Traffic) → List System → ℕ → ℕ
unfolding traffic_at
sum_of figure act [] sum = sum
sum_of figure act (s ∷ ss) sum = sum_of figure act ss (sum + figure (traffic_at act s))

abbrev pub sov_says : (SovView → Bool) → List (ℕ × SovView) → System → Bool
sov_says test sov s = elim (lookup s.system_id sov) [ none ↦ false | some v ↦ test v ]

-- `hostile` and `hostSystems`.
unfoldable pub hostile_count : List (ℕ × SovView) → List System → ℕ
unfolding lookup
hostile_count sov ss = length (filter (sov_says is_hostile sov) ss)

unfoldable pub host_count : List (ℕ × SovView) → List System → ℕ
unfolding lookup
host_count sov ss = length (filter (sov_says (λ v. v.is_host) sov) ss)

-- `primarySysIdSet`.
abbrev pub add_all : List System → List ℕ → List ℕ
add_all [] ids = ids
add_all (s ∷ ss) ids = add_all ss (add ◌==◌ s.system_id ids)

unfoldable pub add_tables : List (ℕ × Constellation) → List ℕ → List ℕ
unfolding add
add_tables [] ids = ids
add_tables (c ∷ cs) ids = add_tables cs (add_all (or_nil c.1.systems) ids)

unfoldable pub primary_sys_id_set : Option (List (ℕ × Constellation)) → List ℕ
unfolding add_tables is_primary_constellation
primary_sys_id_set none = []
primary_sys_id_set (some table) = add_tables (filter primary_entry table) []

-- `criticalSystems`.
unfoldable pub critical_systems :
    Bool → Option (List (ℕ × Constellation)) → List (ℕ × SovView) → List System → ℕ
unfolding primary_sys_id_set lookup
critical_systems holds_sov table sov ss =
    if holds_sov
    then length (
        filter
          (λ s.
            has ◌==◌ s.system_id (primary_sys_id_set table)
            && sov_says (λ v. v.is_friendly && ltb 0 v.adm && ltb v.adm 20) sov s)
          ss)
    else 0

pub record Totals : Type 0 where
  pub pvp : ℕ
  pub npc : ℕ
  pub jumps : ℕ

-- `primaryPVP`, `primaryNPC` and `primaryJumps`, summed in one pass.
abbrev pub add_traffic : Traffic → Totals → Totals
add_traffic t acc = record {
  pvp = acc.pvp + (t.ship_kills + t.pod_kills);
  npc = acc.npc + t.npc_kills;
  jumps = acc.jumps + t.jumps;
}

unfoldable pub sum_up : List (ℕ × Traffic) → List System → Totals → Totals
unfolding traffic_at
sum_up act [] acc = acc
sum_up act (s ∷ ss) acc = sum_up act ss (add_traffic (traffic_at act s) acc)

unfoldable pub primary_totals : List (ℕ × Traffic) → List (ℕ × Constellation) → Totals
unfolding sum_up is_primary_constellation
primary_totals act table =
    sum_up act (systems_in (filter primary_entry table)) (record { pvp = 0; npc = 0; jumps = 0 })

-- `hostName`.
abbrev pub host_in : List (ℕ × SovView) → String
host_in [] = ""
host_in (e ∷ es) =
    if e.1.is_host && has_owner e.1.alliance_name then or_else e.1.alliance_name "" else host_in es

unfoldable pub host_name : Option Site → List (ℕ × SovView) → String
host_name none sov = ""
host_name (some s) sov = elim s.host_ids [ [] ↦ "" | id ∷ ids ↦ host_in sov ]

-- The ids of `SOV_TABS` and of `ROOTLESS_TABS`.
abbrev pub sov_tabs : List ℕ
sov_tabs = 0 ∷ 1 ∷ 2 ∷ 3 ∷ 4 ∷ 5 ∷ []

abbrev pub rootless_tabs : List ℕ
rootless_tabs = 3 ∷ 2 ∷ 4 ∷ []

-- `activeTab`.
unfoldable pub active_tab : Option Bool → ℕ → ℕ
active_tab has_ao mobile_tab =
    let tabs = if or_else has_ao true then sov_tabs else rootless_tabs in
    if any (λ t. t == mobile_tab) tabs then mobile_tab else if or_else has_ao true then 0 else 3

add_primary-add_all : (ss : List System) (ids : List ℕ) → add_primary true ss ids ≡ add_all ss ids
add_primary-add_all [] ids = refl
add_primary-add_all (s ∷ ss) ids = add_primary-add_all ss (add ◌==◌ s.system_id ids)

add_primary-skip : (ss : List System) (ids : List ℕ) → add_primary false ss ids ≡ ids
add_primary-skip [] ids = refl
add_primary-skip (s ∷ ss) ids = add_primary-skip ss ids

add_tables-primary_ids :
    (table : List (ℕ × Constellation)) (ids : List ℕ)
    → add_tables (filter primary_entry table) ids ≡ primary_ids table ids
unfolding add_tables primary_ids
add_tables-primary_ids [] ids = refl
add_tables-primary_ids (c ∷ cs) ids = elim (Bool-cases (is_primary_constellation c.1)) [
  | inl home ↦
      rw (home, add_primary-add_all (or_nil c.1.systems) ids)
        (add_tables-primary_ids cs (add_all (or_nil c.1.systems) ids))
  | inr away ↦ rw (away, add_primary-skip (or_nil c.1.systems) ids) (add_tables-primary_ids cs ids)
]

sum_up-sum_of :
    (act : List (ℕ × Traffic)) (ss : List System) (acc : Totals)
    → sum_up act ss acc ≡ record {
      pvp = sum_of pvp_of act ss acc.pvp;
      npc = sum_of (λ t. t.npc_kills) act ss acc.npc;
      jumps = sum_of (λ t. t.jumps) act ss acc.jumps;
    }
unfolding sum_up sum_of
sum_up-sum_of act [] acc = refl
sum_up-sum_of act (s ∷ ss) acc = sum_up-sum_of act ss (add_traffic (traffic_at act s) acc)

-- The three figures of the home are those of the selection "primary", and the set of home systems
-- is the one that the alerts watch.
pub primary_totals-visible :
    (act : List (ℕ × Traffic)) (table : List (ℕ × Constellation))
    → (primary_totals act table ≡ record {
      pvp = sum_of pvp_of act (visible primary table) 0;
      npc = sum_of (λ t. t.npc_kills) act (visible primary table) 0;
      jumps = sum_of (λ t. t.jumps) act (visible primary table) 0;
    })
      × (primary_sys_id_set (some table) ≡ primary_ids table [])
unfolding primary_totals visible primary_sys_id_set
primary_totals-visible act table =
    (sum_up-sum_of act (visible primary table) _, add_tables-primary_ids table [])
