-- ===== src/KillFeed.antt =====
-- frontend/src/components/KillFeed.jsx: the kills that are listed, and the figures above them. ISK
-- amounts are whole numbers.
mod Tests
pub mod Pilots
pub mod Regions
use lawn_eve_intel_dashboard.Common.{
  ℕ, ◌+◌, String, Bool, true, false, not, ◌&&◌, Option, none, some, List, [], ◌∷◌, ◌++◌, ltb, leb,
  str_eq, if◌then◌else◌, or_else, first_some, length, filter, take,
}
use lawn_eve_intel_dashboard.Common.Sort.{sort}
use lawn_eve_intel_dashboard.Common.Named.{named, put_named}

pub data ShipClass : Type 0 where
  subcap capital super other : ShipClass

-- A missing name is `none`, and so is an empty one.
pub record Blow : Type 0 where
  pub character_name : Option String
  pub corporation_name : Option String
  pub alliance_name : Option String

-- A victim that is missing has no alliance and the class `other`. A missing value is 0.
pub record Kill : Type 0 where
  pub is_npc : Bool
  pub total_value : ℕ
  pub in_primary : Option Bool
  pub in_lawn : Option Bool
  pub victim_alliance : Option String
  pub ship_class : ShipClass
  pub final_blow : Option Blow

pub data Filter : Type 0 where
  all primary pvp : Filter

-- `inPrimary`.
abbrev pub is_in_primary : Kill → Bool
is_in_primary k = or_else (first_some k.in_primary k.in_lawn) false

abbrev pub passes : Filter → Kill → Bool
passes all k = true
passes primary k = is_in_primary k && not k.is_npc
passes pvp k = not k.is_npc

-- `visible`.
unfoldable pub visible_kills : ℕ → Filter → Option (List Kill) → List Kill
visible_kills min_isk f kills =
    filter (λ k. not (ltb 0 min_isk && ltb k.total_value min_isk) && passes f k) (or_else kills [])

pub record Stats : Type 0 where
  pub primary_pvp_kills : List Kill
  pub isk_killed : ℕ
  pub our_losses : List Kill
  pub isk_lost : ℕ

-- `allianceName && k.victim?.alliance_name === allianceName`.
abbrev pub is_name : Option String → String → Bool
is_name none name = false
is_name (some n) name = str_eq n name

abbrev pub is_ours : String → Kill → Bool
is_ours name k = not (str_eq name "") && is_name k.victim_alliance name

abbrev pub count_primary : Kill → Stats → Stats
count_primary k acc =
    if is_in_primary k
    then record acc {
      primary_pvp_kills = acc.primary_pvp_kills ++ (k ∷ []);
      isk_killed = acc.isk_killed + k.total_value;
    }
    else acc

abbrev pub count_loss : String → Kill → Stats → Stats
count_loss name k acc =
    if is_ours name k
    then record acc {
      our_losses = acc.our_losses ++ (k ∷ []);
      isk_lost = acc.isk_lost + k.total_value;
    }
    else acc

abbrev pub count_kill : String → Kill → Stats → Stats
count_kill name k acc = if k.is_npc then acc else count_loss name k (count_primary k acc)

unfoldable pub stats_loop : String → List Kill → Stats → Stats
stats_loop name [] acc = acc
stats_loop name (k ∷ ks) acc = stats_loop name ks (count_kill name k acc)

-- The `reduce` over all kills.
unfoldable pub stats_of : String → Option (List Kill) → Stats
unfolding stats_loop
stats_of name kills =
    stats_loop name (or_else kills [])
      (record { primary_pvp_kills = []; isk_killed = 0; our_losses = []; isk_lost = 0 })

-- `counts[name] = (counts[name] || 0) + 1`.
abbrev pub bump_name : String → List (String × ℕ) → List (String × ℕ)
bump_name name counts = put_named name (or_else (named name counts) 0 + 1) counts

-- `fb.alliance_name || fb.corporation_name`.
abbrev pub group_name : Blow → Option String
group_name b = first_some b.alliance_name b.corporation_name

abbrev pub bump_other : String → Option String → List (String × ℕ) → List (String × ℕ)
bump_other ours none counts = counts
bump_other ours (some a) counts = if str_eq a ours then counts else bump_name a counts

abbrev pub roamer_of : String → Option Blow → List (String × ℕ) → List (String × ℕ)
roamer_of ours none counts = counts
roamer_of ours (some b) counts = bump_other ours (group_name b) counts

-- `roamers`.
unfoldable pub roamers_loop : String → List Kill → List (String × ℕ) → List (String × ℕ)
unfolding named put_named
roamers_loop ours [] counts = counts
roamers_loop ours (k ∷ ks) counts = roamers_loop ours ks (roamer_of ours k.final_blow counts)

abbrev pub bump_pilot : Option String → List (String × ℕ) → List (String × ℕ)
bump_pilot none counts = counts
bump_pilot (some name) counts = bump_name name counts

abbrev pub pilot_of : String → Option Blow → List (String × ℕ) → List (String × ℕ)
pilot_of ours none counts = counts
pilot_of ours (some b) counts =
    if is_name (group_name b) ours then counts else bump_pilot b.character_name counts

-- `repeatPilots`.
unfoldable pub pilots_loop : String → List Kill → List (String × ℕ) → List (String × ℕ)
unfolding named put_named
pilots_loop ours [] counts = counts
pilots_loop ours (k ∷ ks) counts =
    pilots_loop ours ks (if k.is_npc then counts else pilot_of ours k.final_blow counts)

-- `topRoamers`.
unfoldable pub top_roamers : List (String × ℕ) → List (String × ℕ)
unfolding sort
top_roamers counts = take 3 (sort (λ a b. leb b.1 a.1) counts)

-- `primaryKillsCount`.
unfoldable pub primary_kills_count : List Kill → ℕ
primary_kills_count ks = length (filter is_in_primary ks)

-- `regionIskDestroyed`.
unfoldable pub region_isk_destroyed : List Kill → ℕ → ℕ
region_isk_destroyed [] sum = sum
region_isk_destroyed (k ∷ ks) sum =
    region_isk_destroyed ks (sum + (if k.is_npc then 0 else k.total_value))

pub record Classes : Type 0 where
  pub subcap_count : ℕ
  pub cap_count : ℕ
  pub super_count : ℕ

abbrev pub class_step : ShipClass → Classes → Classes
class_step subcap n = record n { subcap_count = n.subcap_count + 1 }
class_step capital n = record n { cap_count = n.cap_count + 1 }
class_step super n = record n { super_count = n.super_count + 1 }
class_step other n = n

-- The loop over the visible kills.
unfoldable pub count_classes : List Kill → Classes → Classes
count_classes [] n = n
count_classes (k ∷ ks) n = count_classes ks (if k.is_npc then n else class_step k.ship_class n)
