-- ===== src/Grinding.antt =====
-- frontend/src/utils/admHelpers.js and frontend/src/components/GrindingPlan.jsx: the thresholds of an
-- ADM, its change in a day, and the systems that are to be ground. ADM values are tenths and scores
-- exact. Whether a change is below -0.1 is a parameter, `fell` of the old and the new ADM: of a drop
-- by exactly one tenth it depends on the rounding of the two numbers.
mod Tests
use lawn_eve_intel_dashboard.Common.{
  ℕ, ◌-◌, ◌*◌, String, Bool, false, ◌&&◌, ◌||◌, Option, none, some, List, [], ◌∷◌, ◌++◌, ltb, leb,
  ◌==◌, str_eq, if◌then◌else◌, or_else, filter, any, take,
}
use lawn_eve_intel_dashboard.Common.Assoc.{lookup, insert}
use lawn_eve_intel_dashboard.Common.Int.{ℤ, pos, negsuc, ◌+ℤ◌, ◌-ℤ◌, leb_ℤ, sub_ℕ}
use lawn_eve_intel_dashboard.Common.Sort.{sort}
use lawn_eve_intel_dashboard.Config.{System, Constellation, or_nil}
use lawn_eve_intel_dashboard.MapStyle.{SovView, no_sov_view}

pub data AdmColor : Type 0 where
  green cyan amber red : AdmColor

-- `getAdmColor`.
unfoldable pub get_adm_color : ℕ → AdmColor
get_adm_color adm =
    if leb 60 adm then green else if leb 40 adm then cyan else if leb 20 adm then amber else red

-- A snapshot of the history.
pub record Point : Type 0 where
  pub timestamp : ℕ
  pub adm : ℕ

-- The loop over the history: the point before the first one that is not older than the cutoff. If
-- that is the first one, or if there is none, it is the first of all.
unfoldable pub point_before : ℕ → Point → Point → List Point → Point
point_before cutoff first before [] = first
point_before cutoff first before (p ∷ ps) =
    let rest = point_before cutoff first p ps in if leb cutoff p.timestamp then before else rest

unfoldable pub old_point : ℕ → List Point → Option Point
unfolding point_before
old_point cutoff [] = none
old_point cutoff (p ∷ []) = none
old_point cutoff (p ∷ q ∷ ps) = some (point_before cutoff p p (p ∷ q ∷ ps))

-- `compute24hChange`: none is a change of 0.
unfoldable pub compute_24h_change : ℕ → List Point → ℕ → ℤ
unfolding old_point
compute_24h_change now history adm = elim (old_point (now - 86400000) history) [
  | none ↦ pos 0
  | some p ↦ sub_ℕ adm p.adm
]

pub data Place : Type 0 where
  border cross hub dead_end plain : Place

abbrev pub is_one : List String → String → Bool
is_one names name = any (λ n. str_eq n name) names

-- `SYSTEM_TIERS`.
unfoldable pub place_of : String → Place
place_of name =
    if is_one ("UDVW-O" ∷ "N-JK02" ∷ []) name
    then border
    else if is_one ("F48K-D" ∷ "FB5U-I" ∷ []) name
    then cross
    else if is_one ("1-KCSA" ∷ "BZ-BCK" ∷ "O5-YNW" ∷ "IUU3-L" ∷ []) name
    then hub
    else if is_one ("JT2I-7" ∷ "J-OAH2" ∷ "86L-9F" ∷ "5-VFC6" ∷ "S-LHPJ" ∷ []) name
    then dead_end
    else plain

-- `getTierBonus`.
abbrev pub bonus_of : Place → ℤ
bonus_of border = pos 500
bonus_of cross = pos 300
bonus_of hub = pos 100
bonus_of dead_end = negsuc 49
bonus_of plain = pos 0

-- `lawnSystems`. A constellation that lists no systems stops the panel, and has none here.
unfoldable pub lawn_systems : List ℕ → List (ℕ × Constellation) → List System
lawn_systems lawn_ids [] = []
lawn_systems lawn_ids (c ∷ cs) =
    let rest = lawn_systems lawn_ids cs in
    if or_else c.1.is_lawn false || any (λ i. i == c.0) lawn_ids
    then or_nil c.1.systems ++ rest
    else rest

pub record Planned : Type 0 where
  pub system : System
  pub adm : ℕ
  pub change : ℤ
  pub score : ℤ
  pub place : Place
  pub is_friendly : Bool

abbrev pub need : ℕ → ℤ
need adm =
    if ltb 0 adm && ltb adm 20
    then pos 1000
    else if leb 20 adm && ltb adm 40
    then pos 200
    else pos 0

abbrev pub missing_adm : ℕ → ℤ
missing_adm adm = if ltb 0 adm then pos 300 -ℤ pos (adm * 5) else pos 0

module _ (fell : ℕ → ℕ → Bool) where
  abbrev pub falling : Option Point → ℕ → ℤ
  falling none adm = pos 0
  falling (some p) adm = if fell p.adm adm then pos 100 else pos 0

  -- The score, and the entry of `plannedSystems`.
  unfoldable pub plan_system : ℕ → List (ℕ × SovView) → List (ℕ × List Point) → System → Planned
  unfolding lookup compute_24h_change place_of
  plan_system now sov histories s =
      let v = or_else (lookup s.system_id sov) no_sov_view in
      let history = or_nil (lookup s.system_id histories) in
      let place = place_of s.name in
      record {
        system = s;
        adm = v.adm;
        change = compute_24h_change now history v.adm;
        score =
            need v.adm
            +ℤ bonus_of place
            +ℤ missing_adm v.adm
            +ℤ falling (old_point (now - 86400000) history) v.adm;
        place = place;
        is_friendly = v.is_friendly;
      }

abbrev pub by_score : List Planned → List Planned
by_score = sort (λ a b. leb_ℤ b.score a.score)

-- `targets` and `allSorted`.
unfoldable pub targets : List Planned → List Planned
unfolding sort
targets ps = take 6 (by_score (filter (λ p. p.is_friendly && ltb 0 p.adm && ltb p.adm 45) ps))

unfoldable pub all_sorted : List Planned → List Planned
unfolding sort
all_sorted ps = by_score (filter (λ p. p.is_friendly) ps)

-- `handleSetTarget`, of the number that was typed: none where the prompt was left, and a text that
-- is no number, or 0, is `some none`; a negative number is clamped to 1.0 and left out here.
abbrev pub clamp : ℕ → ℕ
clamp n = if ltb n 10 then 10 else if ltb 60 n then 60 else n

unfoldable pub set_target : ℕ → Option (Option ℕ) → List (ℕ × ℕ) → List (ℕ × ℕ)
unfolding insert
set_target id none adms = adms
set_target id (some n) adms = insert id (clamp (or_else n 45)) adms
