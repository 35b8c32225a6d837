-- ===== src/Results.antt =====
-- frontend/src/components/parsers: the results of the parsers as they are shown, live or from a
-- share. This module has LocalScanResult.jsx; colours are left out where they only follow a label.
mod Tests
pub mod Counts
pub mod Fleet
pub mod Scans
use lawn_eve_intel_dashboard.Common.{
  ℕ, String, Bool, true, false, not, ◌&&◌, ◌||◌, Option, none, some, List, [], ◌∷◌, ◌++◌, map, ltb,
  if◌then◌else◌, length, filter,
}
use lawn_eve_intel_dashboard.Common.Text.{Text, codes, text_eq, show, join}
use lawn_eve_intel_dashboard.Common.Assoc.{lookup}
use lawn_eve_intel_dashboard.Parsers.{Pilot}

pub record StandingCount : Type 0 where
  pub unknown : ℕ
  pub friendly : ℕ
  pub lawn : ℕ
  pub unresolved : ℕ

abbrev pub with_standing : String → List Pilot → ℕ
with_standing standing ps = length (filter (λ p. text_eq p.standing (codes standing)) ps)

-- `localCounts`.
unfoldable pub local_counts : Option (List Pilot) → Option StandingCount
unfolding text_eq
local_counts none = none
local_counts (some ps) = some (record {
  unknown = with_standing "unknown" ps;
  friendly = with_standing "friendly" ps;
  lawn = with_standing "lawn" ps;
  unresolved = with_standing "unresolved" ps;
})

abbrev pub dot : Text
dot = codes " · "

-- `{condition && text}`.
abbrev pub shown_if : Bool → Text → Text
shown_if true t = t
shown_if false t = []

abbrev pub counted : ℕ → String → Text
counted n label = show n ++ (b' ' ∷ codes label)

-- What `StandingCounts` reads.
unfoldable pub standing_counts : StandingCount → Text
unfolding show
standing_counts c =
    shown_if (ltb 0 c.unknown) (counted c.unknown "unknown")
    ++ (shown_if (ltb 0 c.unknown && (ltb 0 c.friendly || ltb 0 c.lawn)) dot
        ++ (shown_if (ltb 0 c.friendly) (counted c.friendly "friendly")
            ++ (shown_if (ltb 0 c.friendly && ltb 0 c.lawn) dot
                ++ (shown_if (ltb 0 c.lawn) (counted c.lawn "lawn")
                    ++ (shown_if (ltb 0 c.unresolved) dot
                        ++ shown_if (ltb 0 c.unresolved) (counted c.unresolved "unresolved"))))))

-- `STANDING_CONFIG[standing] || STANDING_CONFIG.unknown`, its label.
unfoldable pub standing_label : Text → String
unfolding text_eq
standing_label s =
    if text_eq s (codes "friendly")
    then "FRIENDLY"
    else if text_eq s (codes "lawn")
    then "LAWN"
    else if text_eq s (codes "unresolved")
    then "?"
    else "UNKNOWN"

-- `risk` of a pilot as it is shown.
pub record RiskEntry : Type 0 where
  pub tier : Text
  pub label : Text
  pub roles : List Text
  pub kills : ℕ
  pub isk_eff : ℕ
  pub danger : ℕ

-- `RiskCell`: a dash, or the label with its roles and the line below them, where there is one.
pub data RiskCell : Type 0 where
  dash : RiskCell
  rated : Text → List Text → Option Text → RiskCell

-- `formatKills`, given how a thousand and more are printed.
abbrev pub format_kills : (ℕ → Text) → ℕ → Text
format_kills thousands n = if ltb n 1000 then show n else thousands n

abbrev pub stat_line : (ℕ → Text) → RiskEntry → Option Text
stat_line thousands r =
    if text_eq r.tier (codes "nodata")
    then none
    else if text_eq r.tier (codes "newbie")
    then some (format_kills thousands r.kills ++ codes " kills")
    else some (
        format_kills thousands r.kills
        ++ (codes " kills · "
            ++ (show r.isk_eff ++ (codes "% eff · " ++ (show r.danger ++ codes "% danger")))))

unfoldable pub risk_cell : (ℕ → Text) → Option RiskEntry → RiskCell
unfolding show text_eq
risk_cell thousands none = dash
risk_cell thousands (some r) = rated r.label r.roles (stat_line thousands r)

-- The corporation and the alliance of a pilot, or a dash.
abbrev pub affiliation : Option Text → Option Text → Text
affiliation none none = codes "—"
affiliation (some corp) none = corp
affiliation none (some alliance) = alliance
affiliation (some corp) (some alliance) = corp ++ (dot ++ alliance)

-- A row of the table; `linked` is the id that the link to zKillboard has.
pub record PilotRow : Type 0 where
  pub name : Text
  pub linked : Option ℕ
  pub affiliated : Text
  pub standing : String
  pub risk : RiskCell

abbrev pub risk_for : List (ℕ × RiskEntry) → Option ℕ → Option RiskEntry
risk_for risks none = none
risk_for risks (some id) = lookup id risks

unfoldable pub pilot_row : (ℕ → Text) → List (ℕ × RiskEntry) → Pilot → PilotRow
unfolding standing_label risk_cell lookup
pilot_row thousands risks p = record {
  name = p.name;
  linked = p.character_id;
  affiliated = affiliation p.corporation_name p.alliance_name;
  standing = standing_label p.standing;
  risk = risk_cell thousands (risk_for risks p.character_id);
}

pub data LocalView : Type 0 where
  nothing no_pilots : LocalView
  table : List PilotRow → LocalView

-- `LocalScanResult`.
unfoldable pub local_scan_result :
    (ℕ → Text) → Option (List Pilot) → List (ℕ × RiskEntry) → LocalView
unfolding pilot_row
local_scan_result thousands none risks = nothing
local_scan_result thousands (some []) risks = no_pilots
local_scan_result thousands (some (p ∷ ps)) risks = table (map (pilot_row thousands risks) (p ∷ ps))
