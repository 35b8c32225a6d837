-- ===== src/Notify.antt =====
-- frontend/src/hooks/useNotifications.js: browser alerts from the changes between two polls.
-- ADM values are tenths.
mod Tests
pub mod Store
pub mod Snapshots
pub mod Polls
pub mod Silence
use lawn_eve_intel_dashboard.Common.{
  ℕ, ◌+◌, ◌/◌, ◌%◌, String, Bool, true, false, ◌&&◌, Option, none, some, List, [], ◌∷◌, ◌++◌, map,
  ltb, leb, ◌==◌, if◌then◌else◌, or_else, first_some, any,
}
use lawn_eve_intel_dashboard.Common.Text.{Text, codes, text_eq, show, upper}
use lawn_eve_intel_dashboard.Common.Int.{ℤ, pos, negsuc, pos_part, sub_ℕ, leb_ℤ}
use lawn_eve_intel_dashboard.Common.Assoc.{lookup, insert}
use lawn_eve_intel_dashboard.Campaign.{Campaign, Phase, reinforced, nodes, get_campaign_phase}

pub record Settings : Type 0 where
  pub enabled : Bool
  pub campaigns : Bool
  pub pvp : Bool
  pub pvp_threshold : ℕ
  pub adm_critical : Bool

-- `DEFAULTS`.
abbrev pub defaults : Settings
defaults = record {
  enabled = false;
  campaigns = true;
  pvp = true;
  pvp_threshold = 3;
  adm_critical = true;
}

-- `Notification.permission`, or that there are no notifications in this browser.
pub data Permission : Type 0 where
  granted denied undecided unsupported : Permission

pub record Sov : Type 0 where
  pub is_friendly : Bool
  pub adm : ℕ

-- Kills that are missing count as 0.
pub record Activity : Type 0 where
  pub ship_kills : ℕ
  pub pod_kills : ℕ

-- The arguments of `checkAndNotify`.
pub record Poll : Type 0 where
  pub campaigns : List Campaign
  pub sovereignty : List (ℕ × Sov)
  pub activity : List (ℕ × Activity)
  pub primary_ids : List ℕ
  pub names : List (ℕ × String)
  pub alliance_short : String
  pub holds_sov : Bool

-- What `prevRef` keeps.
pub record Snapshot : Type 0 where
  pub campaign_ids : List ℕ
  pub campaign_phases : List (ℕ × Phase)
  pub adm_by_system : List (ℕ × ℕ)
  pub primary_pvp : ℕ

pub record Notice : Type 0 where
  pub title : Text
  pub body : Text
  pub tag : Text

pub phases_loop : ℕ → List Campaign → List (ℕ × Phase) → List (ℕ × Phase)
phases_loop now [] m = m
phases_loop now (c ∷ cs) m =
    phases_loop now cs (insert c.campaign_id (get_campaign_phase now c).phase m)

pub record_adm : ℕ → Option Sov → List (ℕ × ℕ) → List (ℕ × ℕ)
record_adm id none m = m
record_adm id (some s) m = if s.is_friendly then insert id s.adm m else m

pub adm_loop : List (ℕ × Sov) → List ℕ → List (ℕ × ℕ) → List (ℕ × ℕ)
unfolding record_adm
adm_loop sov [] m = m
adm_loop sov (id ∷ ids) m = adm_loop sov ids (record_adm id (lookup id sov) m)

unfoldable pub kills_of : Option Activity → ℕ
kills_of none = 0
kills_of (some a) = a.ship_kills + a.pod_kills

pub pvp_loop : List (ℕ × Activity) → List ℕ → ℕ → ℕ
unfolding kills_of
pvp_loop act [] total = total
pvp_loop act (id ∷ ids) total = pvp_loop act ids (total + kills_of (lookup id act))

-- The snapshot of a poll.
unfoldable pub snapshot : ℕ → Poll → Snapshot
unfolding phases_loop adm_loop pvp_loop
snapshot now p = record {
  campaign_ids = map (λ c. c.campaign_id) p.campaigns;
  campaign_phases = phases_loop now p.campaigns [];
  adm_by_system = if p.holds_sov then adm_loop p.sovereignty p.primary_ids [] else [];
  primary_pvp = pvp_loop p.activity p.primary_ids 0;
}

-- The label of a new campaign's structure.
unfoldable pub structure_label : Option Text → Text
unfolding text_eq
structure_label none = codes "STRUCTURE"
structure_label (some t) =
    if text_eq t (codes "ihub_defense")
    then codes "IHUB"
    else if text_eq t (codes "tcu_defense")
    then codes "TCU"
    else if text_eq t (codes "station_defense")
    then codes "STATION"
    else map upper (if text_eq t [] then codes "STRUCTURE" else t)

unfoldable pub campaign_notice : String → Campaign → Notice
unfolding structure_label show
campaign_notice short c = record {
  title = codes "⚠ SOV CAMPAIGN — " ++ codes c.system_name;
  body =
      structure_label c.event_type
      ++ (codes " contested"
          ++ (if or_else (first_some c.is_primary c.is_lawn) false
              then codes " — " ++ (codes short ++ codes " SPACE")
              else []));
  tag = codes "campaign-" ++ show c.campaign_id;
}

unfoldable pub nodes_notice : Campaign → Notice
unfolding show
nodes_notice c = record {
  title = codes "⚔ NODES SPAWNED — " ++ codes c.system_name;
  body = codes "Command nodes are out — entosis contest live";
  tag = codes "nodes-" ++ show c.campaign_id;
}

unfoldable pub pvp_notice : String → ℤ → ℕ → Notice
unfolding show
pvp_notice short delta total = record {
  title =
      codes "💀 PVP IN "
      ++ (codes short ++ (codes " SPACE — " ++ (show (pos_part delta) ++ codes " kills")));
  body = show total ++ (codes " total ship kills this hour in " ++ (codes short ++ codes " sov"));
  tag = codes "primary-pvp-spike";
}

unfoldable pub adm_notice : List (ℕ × String) → ℕ → ℕ → Notice
unfolding show
adm_notice names id adm = record {
  title = codes "🚨 ADM CRITICAL — " ++ system_title (lookup id names);
  body =
      codes "ADM dropped to "
      ++ (show (adm / 10) ++ (b'.' ∷ (show (adm % 10) ++ codes " — priority grinding needed")));
  tag = codes "adm-critical-" ++ show id;
}
  where
    system_title : Option String → Text
    system_title none = show id
    system_title (some s) = codes s

-- 1. New campaigns.
pub new_campaigns : String → List ℕ → List Campaign → List Notice
new_campaigns short prev [] = []
new_campaigns short prev (c ∷ cs) =
    if any (λ i. i == c.campaign_id) prev
    then new_campaigns short prev cs
    else campaign_notice short c ∷ new_campaigns short prev cs

abbrev pub is_reinforced : Option Phase → Bool
is_reinforced (some reinforced) = true
is_reinforced (some nodes) = false
is_reinforced none = false

abbrev pub is_nodes : Option Phase → Bool
is_nodes (some nodes) = true
is_nodes (some reinforced) = false
is_nodes none = false

-- 1b. A reinforced campaign whose nodes are out now.
pub spawned : List (ℕ × Phase) → List (ℕ × Phase) → List Campaign → List Notice
spawned prev cur [] = []
spawned prev cur (c ∷ cs) =
    if is_reinforced (lookup c.campaign_id prev) && is_nodes (lookup c.campaign_id cur)
    then nodes_notice c ∷ spawned prev cur cs
    else spawned prev cur cs

-- 2. A spike of kills.
pub pvp_spike : String → ℕ → ℕ → ℕ → List Notice
pvp_spike short threshold prev cur =
    let delta = sub_ℕ cur prev in
    if leb_ℤ (pos threshold) delta then pvp_notice short delta cur ∷ [] else []

-- `prevAdm !== undefined && prevAdm >= 2.0 && newAdm !== undefined && newAdm < 2.0`.
unfoldable pub crossed : Option ℕ → Option ℕ → Bool
crossed (some before) (some after) = leb 20 before && ltb after 20
crossed none after = false
crossed (some before) none = false

-- 3. Systems whose ADM fell below 2.0.
pub adm_drops : List (ℕ × String) → List (ℕ × ℕ) → List (ℕ × ℕ) → List ℕ → List Notice
unfolding crossed
adm_drops names prev cur [] = []
adm_drops names prev cur (id ∷ ids) =
    if crossed (lookup id prev) (lookup id cur)
    then adm_notice names id (or_else (lookup id cur) 0) ∷ adm_drops names prev cur ids
    else adm_drops names prev cur ids

abbrev pub is_granted : Permission → Bool
is_granted granted = true
is_granted denied = false
is_granted undecided = false
is_granted unsupported = false

-- The alerts against an earlier snapshot.
pub alerts : Settings → Snapshot → Snapshot → Poll → List Notice
unfolding new_campaigns spawned pvp_spike adm_drops
alerts st prev cur p =
    (if st.campaigns
      then new_campaigns p.alliance_short prev.campaign_ids p.campaigns
        ++ spawned prev.campaign_phases cur.campaign_phases p.campaigns
      else [])
    ++ ((if st.pvp
          then pvp_spike p.alliance_short st.pvp_threshold prev.primary_pvp cur.primary_pvp
          else [])
        ++ (if st.adm_critical
            then adm_drops p.names prev.adm_by_system cur.adm_by_system p.primary_ids
            else []))

pub alerts_after : Settings → Permission → Option Snapshot → Snapshot → Poll → List Notice
unfolding alerts
alerts_after st perm none cur p = []
alerts_after st perm (some prev) cur p =
    if st.enabled && is_granted perm then alerts st prev cur p else []

-- `checkAndNotify`: the new snapshot, and the notifications that are sent.
unfoldable pub check_and_notify :
    ℕ → Settings → Permission → Option Snapshot → Poll → Snapshot × List Notice
unfolding alerts_after
check_and_notify now st perm prev p =
    let cur = snapshot now p in (cur, alerts_after st perm prev cur p)
