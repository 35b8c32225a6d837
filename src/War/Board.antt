-- ===== src/War/Board.antt =====
-- WarPage.jsx and warHelpers.js: what the page says of a war, and the text that it copies. `locale`
-- is `toLocaleString`, `round` the rounding of `toFixed`. An efficiency is the text of the number.
use lawn_eve_intel_dashboard.Common.{
  ℕ, String, Bool, true, false, not, Option, none, some, List, [], ◌∷◌, ◌++◌, map, ◌==◌,
  if◌then◌else◌, or_else, first_some, take,
}
use lawn_eve_intel_dashboard.Common.Named.{named}
use lawn_eve_intel_dashboard.Common.Text.{Text, codes, text_eq, show, upper, join}
use lawn_eve_intel_dashboard.War.{
  SideKey, Side, side_meta, a, b, Losses, ShipClasses, hull_totals, ordered_hull_classes,
}
use lawn_eve_intel_dashboard.War.Amounts.{
  Amount, format_isk, amount_text, Fraction, share, war_duration, staleness_minutes,
}

pub record War : Type 0 where
  pub name : Text
  pub short_name : Option Text
  pub start_date : Option ℕ
  pub sides : SideKey → Option Side

pub record Coverage : Type 0 where
  pub rows : ℕ
  pub last_kill : Option ℕ

abbrev pub bit_if : Bool → Text → List Text
bit_if true t = t ∷ []
bit_if false t = []

abbrev pub updated : Option ℕ → List Text
updated none = []
updated (some m) = (codes "UPDATED " ++ (show m ++ codes "M AGO")) ∷ []

-- `subtitle`, given the present.
unfoldable pub subtitle : (ℕ → Text) → ℕ → Bool → Option War → Coverage → Bool → Text
unfolding show war_duration staleness_minutes
subtitle locale now true war coverage any_gaps = codes "LOADING..."
subtitle locale now false none coverage any_gaps = codes "NO WAR CONFIGURED"
subtitle locale now false (some war) coverage any_gaps = join (codes " · ") (
    (codes "DAY " ++ show (war_duration now war.start_date))
    ∷ (bit_if (not (coverage.rows == 0)) (locale coverage.rows ++ codes " KILLS LOGGED")
        ++ (updated (staleness_minutes now coverage.last_kill)
            ++ bit_if any_gaps (codes "⚠ GAPS"))))

-- A contested system. A number that is missing is 0, but for `war_kills`.
pub record Contested : Type 0 where
  pub system_id : ℕ
  pub system_name : Option Text
  pub kills : ℕ
  pub war_kills : Option ℕ
  pub isk : ℕ
  pub a_losses : ℕ
  pub b_losses : ℕ

abbrev pub system_label : Contested → Text
system_label s = or_else s.system_name (show s.system_id)

pub record ContestedRow : Type 0 where
  pub label : Text
  pub war_kills : ℕ
  pub kills : ℕ
  pub isk : Amount
  pub a_losses : ℕ
  pub b_losses : ℕ
  pub balance : Fraction

abbrev pub contested_row : (ℕ → ℕ → ℕ) → Contested → ContestedRow
contested_row round s = record {
  label = system_label s;
  war_kills = or_else s.war_kills s.kills;
  kills = s.kills;
  isk = format_isk round s.isk;
  a_losses = s.a_losses;
  b_losses = s.b_losses;
  balance = share s.a_losses s.b_losses;
}

-- The table of contested systems.
unfoldable pub contested_rows : (ℕ → ℕ → ℕ) → List Contested → List ContestedRow
unfolding show format_isk share
contested_rows round ss = map (contested_row round) (take 15 ss)

-- A row of the table of hulls: what each side lost of a class, where it lost any.
pub record HullRow : Type 0 where
  pub label : String
  pub a : Option Losses
  pub b : Option Losses

abbrev pub hull_row : ShipClasses → String → HullRow
hull_row classes c = record { label = c; a = named c (classes a); b = named c (classes b) }

-- The table of hulls, with its row of totals.
pub record HullTable : Type 0 where
  pub rows : List HullRow
  pub a_total : Losses
  pub b_total : Losses

unfoldable pub hull_table : ShipClasses → HullTable
unfolding named ordered_hull_classes hull_totals
hull_table classes = record {
  rows = map (hull_row classes) (ordered_hull_classes classes);
  a_total = hull_totals classes a;
  b_total = hull_totals classes b;
}

pub record Participant : Type 0 where
  pub kills : ℕ
  pub losses : ℕ
  pub isk_killed : ℕ
  pub isk_lost : ℕ

-- "Our War Record".
pub data WarRecord : Type 0 where
  not_a_belligerent nothing_yet : WarRecord
  stats : ℕ → ℕ → Amount → Amount → WarRecord

unfoldable pub war_record : (ℕ → ℕ → ℕ) → Option Participant → WarRecord
unfolding format_isk
war_record round none = not_a_belligerent
war_record round (some p) =
    if (if p.kills == 0 then p.losses else p.kills) == 0
    then nothing_yet
    else stats p.kills p.losses (format_isk round p.isk_killed) (format_isk round p.isk_lost)

pub record WarKill : Type 0 where
  pub victim_side : Option SideKey
  pub ship_name : Option Text
  pub ship_class : Text
  pub victim_char_name : Option Text
  pub victim_alliance_name : Option Text
  pub victim_corp_name : Option Text

-- An entry of the feed: a class is marked unless it is `subcap`, and a side is named only if the
-- victim is on one.
pub record WarEntry : Type 0 where
  pub ship : Text
  pub mark : Option Text
  pub victim : Text
  pub loss_of : Option String

abbrev pub loss_of : (SideKey → Option Side) → Option SideKey → Option String
loss_of sides none = none
loss_of sides (some k) = some (side_meta sides (some k)).short

unfoldable pub war_entry : (SideKey → Option Side) → WarKill → WarEntry
unfolding side_meta text_eq
war_entry sides k = record {
  ship = or_else k.ship_name (codes "Unknown");
  mark = if text_eq k.ship_class (codes "subcap") then none else some (map upper k.ship_class);
  victim =
      or_else k.victim_char_name (codes "Unknown")
      ++ (codes " · "
          ++ or_else (first_some k.victim_alliance_name k.victim_corp_name) (codes "Unaffiliated"));
  loss_of = loss_of sides k.victim_side;
}

pub record Override : Type 0 where
  pub entity_id : ℕ
  pub name : Option Text
  pub side : Option SideKey

-- The name and the side of a roster edit, and of an alliance that is on no roster.
abbrev pub entity_name : Option Text → ℕ → Text
entity_name name id = or_else name (b'#' ∷ show id)

abbrev pub assigned : (SideKey → Option Side) → Option SideKey → String
assigned sides none = "NOT A BELLIGERENT"
assigned sides (some k) = (side_meta sides (some k)).short

abbrev pub suggested : (SideKey → Option Side) → Option SideKey → String
suggested sides none = "—"
suggested sides (some k) = (side_meta sides (some k)).short

-- What the text of a war counts of a side.
pub record SideTotals : Type 0 where
  pub kills : ℕ
  pub isk : ℕ
  pub efficiency : Option Text

abbrev pub side_line : (ℕ → ℕ → ℕ) → Text → SideTotals → Text
side_line round short t =
    short
    ++ (codes ": "
        ++ (show t.kills
            ++ (codes " kills / "
                ++ (amount_text (format_isk round t.isk)
                    ++ (codes " destroyed ("
                        ++ (or_else t.efficiency (codes "0") ++ codes "%)"))))))

abbrev pub hot_line : (ℕ → ℕ → ℕ) → Text → Text → Contested → Text
hot_line round a_short b_short s =
    codes "  "
    ++ (system_label s
        ++ (codes " — "
            ++ (show s.kills
                ++ (codes " kills, "
                    ++ (amount_text (format_isk round s.isk)
                        ++ (codes " ("
                            ++ (a_short
                                ++ (codes " -"
                                    ++ (show s.a_losses
                                        ++ (codes " / "
                                            ++ (b_short
                                                ++ (codes " -"
                                                    ++ (show s.b_losses ++ codes ")")))))))))))))

abbrev pub hot_lines : (ℕ → ℕ → ℕ) → Text → Text → List Contested → List Text
hot_lines round a_short b_short [] = []
hot_lines round a_short b_short (s ∷ ss) =
    [] ∷ codes "MOST CONTESTED:" ∷ map (hot_line round a_short b_short) (s ∷ ss)

abbrev pub short_of : War → SideKey → Text
short_of war k = codes (side_meta war.sides (some k)).short

-- `buildWarCopyText`, on the totals of both sides; `none` where the war or its summary is missing.
unfoldable pub build_war_copy_text :
    (ℕ → ℕ → ℕ) → ℕ → Option War → SideTotals → SideTotals → List Contested → Text
unfolding show side_meta format_isk amount_text war_duration
build_war_copy_text round now none ta tb ss = []
build_war_copy_text round now (some war) ta tb ss = join (codes "\n") (
    (map upper war.name ++ (codes " — day " ++ show (war_duration now war.start_date)))
    ∷ side_line round (short_of war a) ta
    ∷ side_line round (short_of war b) tb
    ∷ hot_lines round (short_of war a) (short_of war b) (take 3 ss))
