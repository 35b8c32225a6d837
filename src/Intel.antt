-- ===== src/Intel.antt =====
-- frontend/src/components/IntelChannelParser.jsx: the board of reports that are pasted from an
-- intel channel, and the alerts that they fire. Times are milliseconds since the start of March of
-- the year 0.
mod Tests
pub mod Lookup
pub mod Words
pub mod Links
pub mod Messages
pub mod Chars
pub mod Asked
pub mod Copy
pub mod Latest
pub mod Once
pub mod Known
pub mod Rows
use lawn_eve_intel_dashboard.Common.{
  ℕ, compare, Ordering, String, Bool, true, false, not, ◌&&◌, ◌||◌, Option, none, some, List, [],
  ◌∷◌, map, ltb, leb, ◌==◌, str_eq, if◌then◌else◌, or_else, length, filter,
}
use lawn_eve_intel_dashboard.Common.Text.{Text, codes, lower, text_eq}
use lawn_eve_intel_dashboard.Common.Named.{named, put_named}
use lawn_eve_intel_dashboard.Common.Int.{ℤ, pos, sub_ℕ, leb_ℤ}
use lawn_eve_intel_dashboard.Common.Sort.{sort}
use lawn_eve_intel_dashboard.Config.Sets.{has}

pub record Char : Type 0 where
  pub name : Text
  pub char_id : Text

pub record Report : Type 0 where
  pub system : String
  pub system_id : Option ℕ
  pub is_primary : Bool
  pub count : Option ℕ
  pub is_clear : Bool
  pub ships : List String
  pub chars : List Char
  pub reporter : Text
  pub timestamp : ℕ
  pub raw : Text

-- The board, the keys of the alerts that were fired, and the alerts fired since the last clearing.
pub record Board : Type 0 where
  pub board : List (String × Report)
  pub notified : List (String × ℕ)
  pub fired : List Report

abbrev pub no_board : Board
no_board = record { board = []; notified = []; fired = [] }

-- `system + timestamp.toISOString()`. The second part has a fixed length.
abbrev pub key_of : Report → String × ℕ
key_of e = (e.system, e.timestamp)

abbrev pub same_alert : String × ℕ → String × ℕ → Bool
same_alert k j = str_eq k.0 j.0 && k.1 == j.1

-- `borderSet.has(system.toLowerCase())`.
abbrev pub is_border : List Text → String → Bool
is_border borders system = has text_eq (map lower (codes system)) borders

-- `!existing || e.timestamp >= existing.timestamp`.
unfoldable pub supersedes : Report → Option Report → Bool
supersedes e none = true
supersedes e (some existing) = leb existing.timestamp e.timestamp

-- Hostile intel in primary or border space.
unfoldable pub is_alarming : List Text → Report → Bool
is_alarming borders e =
    (e.is_primary || is_border borders e.system) && not e.is_clear && ltb 0 (or_else e.count 0)

-- `next.set(e.system, e)`, and the notification.
unfoldable pub fire : List Text → Report → Board → Board
unfolding is_alarming
fire borders e b =
    if is_alarming borders e && not (has same_alert (key_of e) b.notified)
    then record b { notified = key_of e ∷ b.notified; fired = e ∷ b.fired }
    else b

unfoldable pub apply_entry : List Text → Report → Board → Board
unfolding fire supersedes named put_named
apply_entry borders e b =
    if supersedes e (named e.system b.board)
    then fire borders e (record b { board = put_named e.system e b.board })
    else b

-- `applyEntries`.
unfoldable pub apply_entries : List Text → List Report → Board → Board
unfolding apply_entry
apply_entries borders [] b = b
apply_entries borders (e ∷ es) b = apply_entries borders es (apply_entry borders e b)

-- `removeRow`.
unfoldable pub remove_row : String → Board → Board
remove_row system b = record b { board = filter (λ r. not (str_eq r.0 system)) b.board }

-- `clearAll`, of the board and its alerts.
unfoldable pub clear_board : Board → Board
clear_board b = no_board

-- A row of the table.
pub record Row : Type 0 where
  pub report : Report
  pub age : ℤ
  pub expired : Bool
  pub border : Bool

-- `rows`, before they are sorted.
unfoldable pub row_of : ℕ → ℕ → List Text → String × Report → Row
row_of now expire_ms borders r = record {
  report = r.1;
  age = sub_ℕ now r.1.timestamp;
  expired = not (leb_ℤ (sub_ℕ now r.1.timestamp) (pos expire_ms));
  border = is_border borders r.1.system;
}

-- Border and primary first, then other primaries, then the rest.
abbrev pub rank_of : Row → ℕ
rank_of r = if r.report.is_primary then (if r.border then 2 else 1) else 0

abbrev pub bool_rank : Bool → ℕ
bool_rank false = 0
bool_rank true = 1

abbrev pub then_by : Ordering → Ordering → Ordering
then_by Ordering.lt o = Ordering.lt
then_by Ordering.eq o = o
then_by Ordering.gt o = Ordering.gt

-- The comparator of the rows.
unfoldable pub compare_rows : Row → Row → Ordering
compare_rows a b = then_by (compare (rank_of b) (rank_of a)) (
    then_by (compare (bool_rank a.expired) (bool_rank b.expired))
      (compare b.report.timestamp a.report.timestamp))

abbrev pub not_after : Ordering → Bool
not_after Ordering.gt = false
not_after Ordering.lt = true
not_after Ordering.eq = true

-- `rows`.
unfoldable pub rows_of : ℕ → ℕ → List Text → List (String × Report) → List Row
unfolding row_of compare_rows
rows_of now expire_ms borders board =
    sort (λ a b. not_after (compare_rows a b)) (map (row_of now expire_ms borders) board)

-- `primaryAlerts` and `activeCount`.
unfoldable pub primary_alerts : List Row → ℕ
primary_alerts rows = length (
    filter
      (λ r.
        not r.expired
        && r.report.is_primary
        && not r.report.is_clear
        && ltb 0 (or_else r.report.count 0))
      rows)

unfoldable pub active_count : List Row → ℕ
active_count rows = length (filter (λ r. not r.expired && not r.report.is_clear) rows)
