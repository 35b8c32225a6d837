-- ===== src/Results/Fleet.antt =====
-- FleetCompResult.jsx: the composition of a fleet. The summary is that of Parsers.Fleet; an average
-- is a whole number here.
use lawn_eve_intel_dashboard.Common.{
  ℕ, ◌+◌, Bool, true, false, not, Option, none, some, List, [], ◌∷◌, ◌++◌, map, ltb, leb, ◌==◌,
  if◌then◌else◌, any, filter, length,
}
use lawn_eve_intel_dashboard.Common.Text.{Text, codes, text_eq, show}
use lawn_eve_intel_dashboard.Parsers.Fleet.{Summary}
use lawn_eve_intel_dashboard.Results.{dot, shown_if, counted, affiliation, format_kills}

-- `RoleBadge`: the role, and its count if it is more than 1.
pub record RoleBadge : Type 0 where
  pub role : Text
  pub times : Option ℕ

abbrev pub role_badge : Text × ℕ → RoleBadge
role_badge r = record { role = r.0; times = if ltb 1 r.1 then some r.1 else none }

-- `CAPITAL_ROLES`.
abbrev pub capital_roles : List Text
capital_roles = codes "TITAN" ∷ codes "SUPER" ∷ codes "DREAD" ∷ codes "CARRIER" ∷ codes "FAX" ∷ []

unfoldable pub is_capital : Text × ℕ → Bool
unfolding text_eq
is_capital r = any (λ c. text_eq c r.0) capital_roles

-- The numbers of `risk_distribution` in the order of `RISK_ORDER`; `nodata` is its last one.
abbrev pub tiers : ℕ → Summary → List (Text × ℕ)
tiers nodata s =
    (codes "very_dangerous", s.very_dangerous)
    ∷ (codes "dangerous", s.dangerous)
    ∷ (codes "moderate", s.moderate)
    ∷ (codes "snuggly", s.snuggly)
    ∷ (codes "newbie", s.newbie)
    ∷ (codes "nodata", nodata)
    ∷ []

abbrev pub present_tiers : ℕ → Summary → List (Text × ℕ)
present_tiers nodata s = filter (λ t. ltb 0 t.1) (tiers nodata s)

-- `ThreatBar`: what each part is of the total, which is not 0.
abbrev pub threat_bar : ℕ → ℕ → Summary → List (Text × ℕ × ℕ)
threat_bar nodata total s =
    if total == 0 then [] else map (λ t. (t.0, t.1, total)) (present_tiers nodata s)

-- `tier.replace('_', ' ')`, which replaces the first one.
abbrev pub spaced : Text → Text
spaced [] = []
spaced (c ∷ s) = if c == b'_' then b' ' ∷ s else c ∷ spaced s

-- `FleetCounts`.
unfoldable pub fleet_counts : Summary → Text
unfolding show
fleet_counts s =
    counted s.unknown "hostile"
    ++ (shown_if (ltb 0 s.friendly) (dot ++ counted s.friendly "friendly")
        ++ (shown_if (ltb 0 s.lawn) (dot ++ counted s.lawn "lawn")
            ++ shown_if (ltb 0 s.capitals) (dot ++ counted s.capitals "caps")))

pub data ThreatColor : Type 0 where
  red amber cyan : ThreatColor

-- `threatColor`.
unfoldable pub threat_color : ℕ → ThreatColor
threat_color danger = if leb 70 danger then red else if leb 45 danger then amber else cyan

pub record FleetPilot : Type 0 where
  pub name : Text
  pub character_id : Option ℕ
  pub corporation_name : Option Text
  pub alliance_name : Option Text
  pub risk_tier : Text
  pub risk_label : Text
  pub kills : ℕ
  pub danger : ℕ
  pub roles : List Text
  pub fleet_roles : List Text

-- A row of the table of pilots.
pub record FleetRow : Type 0 where
  pub name : Text
  pub linked : Option ℕ
  pub affiliated : Text
  pub risk_label : Text
  pub stats : Option Text
  pub badges : List RoleBadge

abbrev pub plain_badge : Text → RoleBadge
plain_badge r = role_badge (r, 0)

unfoldable pub fleet_row : (ℕ → Text) → FleetPilot → FleetRow
unfolding text_eq show
fleet_row thousands p = record {
  name = p.name;
  linked = p.character_id;
  affiliated = affiliation p.corporation_name p.alliance_name;
  risk_label = p.risk_label;
  stats =
      if text_eq p.risk_tier (codes "nodata")
      then none
      else if text_eq p.risk_tier (codes "newbie")
      then none
      else some (
          format_kills thousands p.kills
          ++ (codes " kills · " ++ (show p.danger ++ codes "% danger")));
  badges = map plain_badge p.roles ++ map plain_badge p.fleet_roles;
}

-- What `FleetCompResult` draws.
pub record FleetView : Type 0 where
  pub color : ThreatColor
  pub danger : ℕ
  pub average_kills : Text
  pub capitals : Option ℕ
  pub bar : List (Text × ℕ × ℕ)
  pub legend : List (Text × ℕ)
  pub capital_badges : List RoleBadge
  pub special_badges : List RoleBadge
  pub alliances : List (Text × ℕ)
  pub pilot_count : ℕ
  pub rows : List FleetRow

abbrev pub legend_entry : Text × ℕ → Text × ℕ
legend_entry t = (spaced t.0, t.1)

abbrev pub rows_if : Bool → (ℕ → Text) → List FleetPilot → List FleetRow
rows_if true thousands ps = map (fleet_row thousands) ps
rows_if false thousands ps = []

-- `average` is `avg_kills`, `opened` is `showPilots`.
unfoldable pub fleet_comp_result :
    (ℕ → Text) → ℕ → ℕ → Bool → List FleetPilot → Option Summary → Option FleetView
unfolding threat_color is_capital fleet_row
fleet_comp_result thousands average nodata opened ps none = none
fleet_comp_result thousands average nodata opened ps (some s) = some (record {
  color = threat_color s.avg_danger;
  danger = s.avg_danger;
  average_kills = format_kills thousands average;
  capitals = if ltb 0 s.capitals then some s.capitals else none;
  bar = threat_bar nodata (s.unknown + s.friendly + s.lawn) s;
  legend = map legend_entry (present_tiers nodata s);
  capital_badges = map role_badge (filter is_capital s.role_counts);
  special_badges =
      map role_badge (filter (λ r. not (is_capital r)) s.role_counts)
      ++ map role_badge s.fleet_role_counts;
  alliances = s.top_alliances;
  pilot_count = length ps;
  rows = rows_if opened thousands ps;
})
