-- ===== src/Parsers/Fleet.antt =====
-- frontend/src/utils/parserCopy.js: the texts of a local scan and of a fleet.
use lawn_eve_intel_dashboard.Common.{
  ℕ, ◌+◌, String, Option, none, some, List, [], ◌∷◌, ◌++◌, map, ltb, ◌==◌, if◌then◌else◌, or_else,
  length, filter, take,
}
use lawn_eve_intel_dashboard.Common.Text.{Text, codes, text_eq, show, upper, join}
use lawn_eve_intel_dashboard.Common.Assoc.{lookup}
use lawn_eve_intel_dashboard.Dscan.{Scan}
use lawn_eve_intel_dashboard.Parsers.{Pilot}
use lawn_eve_intel_dashboard.Parsers.Texts.{build_dscan_copy_text}

pub record Risk : Type 0 where
  pub label : Text
  pub roles : List Text

abbrev pub alliance_text : Option Text → Text
alliance_text none = []
alliance_text (some name) = codes " / " ++ name

abbrev pub roles_text : List Text → Text
roles_text [] = []
roles_text (r ∷ rs) = codes " [" ++ (join (codes ", ") (r ∷ rs) ++ codes "]")

abbrev pub label_text : Text → Text
label_text [] = []
label_text (c ∷ s) = b' ' ∷ c ∷ s

abbrev pub risk_text : Option Risk → Text
risk_text none = []
risk_text (some r) = label_text r.label ++ roles_text r.roles

-- `r.character_id ? riskMap[r.character_id] : null`.
unfoldable pub risk_of : List (ℕ × Risk) → Option ℕ → Option Risk
unfolding lookup
risk_of risks none = none
risk_of risks (some id) = lookup id risks

unfoldable pub pilot_line : List (ℕ × Risk) → Pilot → Text
unfolding risk_of
pilot_line risks p =
    p.name
    ++ (codes " ("
        ++ (or_else p.corporation_name (codes "Unknown Corp")
            ++ (alliance_text p.alliance_name
                ++ (codes ") ["
                    ++ (map upper p.standing
                        ++ (codes "]" ++ risk_text (risk_of risks p.character_id)))))))

-- `buildLocalCopyText`.
unfoldable pub build_local_copy_text : Option (List Pilot) → List (ℕ × Risk) → Text
unfolding pilot_line show text_eq
build_local_copy_text none risks = []
build_local_copy_text (some ps) risks = join (codes "\n") (
    (codes "LOCAL SCAN — "
      ++ (show (length ps)
          ++ (codes " pilots, "
              ++ (show (length (filter (λ p. text_eq p.standing (codes "unknown")) ps))
                  ++ codes " unknown"))))
    ∷ []
    ∷ map (pilot_line risks) ps)

-- `result.summary` of a fleet. A missing number is 0, and a missing list is empty.
pub record Summary : Type 0 where
  pub unknown : ℕ
  pub friendly : ℕ
  pub lawn : ℕ
  pub unresolved : ℕ
  pub avg_danger : ℕ
  pub capitals : ℕ
  pub very_dangerous : ℕ
  pub dangerous : ℕ
  pub moderate : ℕ
  pub snuggly : ℕ
  pub newbie : ℕ
  pub role_counts : List (Text × ℕ)
  pub fleet_role_counts : List (Text × ℕ)
  pub top_alliances : List (Text × ℕ)

abbrev pub part : ℕ → String → List Text
part n label = if n == 0 then [] else (show n ++ (b' ' ∷ codes label)) ∷ []

abbrev pub dist_parts : Summary → List Text
dist_parts s =
    part s.very_dangerous "VERY DANGEROUS"
    ++ (part s.dangerous "DANGEROUS"
        ++ (part s.moderate "MODERATE" ++ (part s.snuggly "SNUGGLY" ++ part s.newbie "NEWBIE")))

abbrev pub listed : String → List Text → List Text
listed title [] = []
listed title (t ∷ ts) = (codes title ++ join (codes ", ") (t ∷ ts)) ∷ []

-- With a multiplication sign.
abbrev pub role_text : Text × ℕ → Text
role_text r = if ltb 1 r.1 then r.0 ++ (codes " ×" ++ show r.1) else r.0

abbrev pub alliance_count : Text × ℕ → Text
alliance_count a = a.0 ++ (codes " (" ++ (show a.1 ++ codes ")"))

-- `buildFleetCopyText`.
unfoldable pub build_fleet_copy_text : Option Summary → Text
unfolding show
build_fleet_copy_text none = []
build_fleet_copy_text (some s) = join (codes "\n") (
    (codes "FLEET ANALYSIS — "
      ++ (show (s.unknown + s.friendly + s.lawn + s.unresolved) ++ codes " pilots"))
    ∷ (codes "Threat: "
        ++ (show s.avg_danger ++ (codes "% avg danger | Caps: " ++ show s.capitals)))
    ∷ (listed "Risk: " (dist_parts s)
        ++ (listed "Roles: " (map role_text s.role_counts)
            ++ (listed "Fleet roles: " (map role_text s.fleet_role_counts)
                ++ listed "Top alliances: " (map alliance_count (take 5 s.top_alliances))))))

-- What is shared, by its kind.
pub data Payload : Type 0 where
  dscan : Option Scan → Payload
  local : Option (List Pilot) → List (ℕ × Risk) → Payload
  fleet : Option Summary → Payload
  other : Payload

-- `buildShareCopyText`.
unfoldable pub build_share_copy_text : Payload → Text
unfolding build_dscan_copy_text build_local_copy_text build_fleet_copy_text
build_share_copy_text (dscan result) = build_dscan_copy_text result
build_share_copy_text (local results risks) = build_local_copy_text results risks
build_share_copy_text (fleet summary) = build_fleet_copy_text summary
build_share_copy_text other = []
