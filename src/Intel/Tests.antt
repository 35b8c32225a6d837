-- ===== src/Intel/Tests.antt =====
-- IntelChannelParser.jsx: pasted lines.
use lawn_eve_intel_dashboard.Common.{
  ℕ, ◌*◌, String, ◌≡◌, refl, true, false, Option, none, some, List, [], ◌∷◌, map, flat_map, Perm,
  ◌++◌, filter,
}
use lawn_eve_intel_dashboard.Common.Text.{Text, codes, text_eq}
use lawn_eve_intel_dashboard.Intel.Known.{IsAbout, handle_paste-IsAbout}
use lawn_eve_intel_dashboard.Intel.Copy.{Panel, handle_paste}
use lawn_eve_intel_dashboard.Intel.{Char, Board, row_of, rows_of}
use lawn_eve_intel_dashboard.Intel.Latest.{on, NewestOf, shown_before, apply_entries-NewestOf}
use lawn_eve_intel_dashboard.Intel.Once.{Step, Session, IsOnce, Session-IsOnce}
use lawn_eve_intel_dashboard.Intel.Rows.{InOrder, rows_of-InOrder}
use lawn_eve_intel_dashboard.Common.Named.{named}
use lawn_eve_intel_dashboard.Intel.Chars.{to_fetch, lookup_chars, LookupReply}
use lawn_eve_intel_dashboard.Intel.Asked.{to_fetch-lookup_chars}
use lawn_eve_intel_dashboard.Intel.{Report, no_board, apply_entries}
use lawn_eve_intel_dashboard.Intel.Lookup.{Info, SystemMap}
use lawn_eve_intel_dashboard.Intel.Words.{extract_count, extract_ships, is_clear_message}
use lawn_eve_intel_dashboard.Intel.Messages.{parse_intel_text, utc}
use lawn_eve_intel_dashboard.Intel.Links.{strip_eve_links, extract_linked_chars}

abbrev home : Info
home = record { name = "J9A-BH"; is_primary = true; system_id = some 30 }

abbrev other : Info
other = record { name = "6-8QLA"; is_primary = false; system_id = none }

abbrev systems : SystemMap
systems = (codes "j9a-bh", home) ∷ (codes "6-8qla", other) ∷ []

counts :
    map
      (λ t. extract_count (codes t))
      ("5 Neuts in J9A" ∷ "reds  12" ∷ "+3" ∷ "10+ here" ∷ "6-1T6Z camped" ∷ "hostile" ∷ [])
    ≡ some 5 ∷ some 12 ∷ some 3 ∷ some 10 ∷ none ∷ none ∷ []
unfolding extract_count
counts = refl

clears :
    map (λ t. is_clear_message (codes t)) ("J9A clr" ∷ "Clear." ∷ "unclear" ∷ "clears" ∷ [])
    ≡ true ∷ true ∷ false ∷ false ∷ []
unfolding is_clear_message
clears = refl

ships : extract_ships (codes "Sabre, ONYX and an Ishtar + loki") ≡ "HIC" ∷ "Sabre" ∷ "HAC" ∷ []
unfolding extract_ships
ships = refl

epoch : utc 1970 1 1 0 0 0 ≡ 719468 * 86400000
unfolding utc
epoch = refl

links : strip_eve_links (codes "at <url=showinfo:5//30>J9A-BH</URL> now") ≡ codes "at J9A-BH now"
unfolding strip_eve_links
links = refl

linked :
    map
      (λ c. c.char_id)
      (extract_linked_chars
        (codes "<url=showinfo:5//30>J9A</url> <url=showinfo:1373//90> Bo </url>"))
    ≡ codes "90" ∷ []
unfolding extract_linked_chars
linked = refl

abbrev pasted : List Report
pasted =
    parse_intel_text (codes "[ 2024.02.29 18:00:01 ] Scout > j9a 3 neuts sabre\n6-8QLA clr\n hi ")
      systems 7

pasted_systems :
    map {B = String × Option ℕ} (λ e. (e.system, e.count)) pasted
    ≡ ("J9A-BH", some 3) ∷ ("6-8QLA", none) ∷ []
unfolding parse_intel_text mathlib.Core.List.flat_map text_eq
pasted_systems = refl

pasted_times :
    map {B = ℕ × Text} (λ e. (e.timestamp, e.reporter)) pasted
    ≡ (utc 2024 2 29 18 0 1, codes "Scout") ∷ (7, []) ∷ []
unfolding parse_intel_text utc mathlib.Core.List.flat_map text_eq
pasted_times = refl

abbrev borders : List Text
borders = codes "j9a-bh" ∷ []

abbrev three_reds : String → ℕ → Report
three_reds system timestamp = record {
  system = system;
  system_id = some 30;
  is_primary = true;
  count = some 3;
  is_clear = false;
  ships = [];
  chars = (record { name = codes "Bo"; char_id = codes "90" }) ∷ [];
  reporter = [];
  timestamp = timestamp;
  raw = [];
}

abbrev paste : List Report
paste = three_reds "J9A-BH" 5 ∷ three_reds "J9A-BH" 3 ∷ three_reds "J9A-BH" 5 ∷ []

abbrev after : Board
after = apply_entries borders paste no_board

alerts_once : map (λ e. e.timestamp) after.fired ≡ 5 ∷ []
unfolding apply_entries text_eq
alerts_once = refl

apply_entries-NewestOf_example :
    NewestOf
      (shown_before (named "J9A-BH" no_board.board) ++ filter (on "J9A-BH") paste)
      (named "J9A-BH" after.board)
apply_entries-NewestOf_example = apply_entries-NewestOf borders "J9A-BH" paste no_board

Session-IsOnce_example : IsOnce borders after
Session-IsOnce_example =
    Session-IsOnce borders after (Session.then Session.opened (Step.paste paste no_board))

rows_of-InOrder_example :
    Perm (rows_of 9 2 borders after.board) (map (row_of 9 2 borders) after.board)
    × InOrder (rows_of 9 2 borders after.board)
rows_of-InOrder_example = rows_of-InOrder 9 2 borders after.board

abbrev pilots : List Char
pilots = (three_reds "J9A-BH" 5).chars

to_fetch-lookup_chars_example : to_fetch (lookup_chars pilots LookupReply.failed []) pilots ≡ []
to_fetch-lookup_chars_example = to_fetch-lookup_chars [] pilots LookupReply.failed

abbrev panel : Panel
panel = record { state = no_board; last_pasted = []; asked = [] }

handle_paste-IsAbout_example :
    IsAbout systems (handle_paste borders systems 7 (codes "j9a 3 neuts") panel).state
handle_paste-IsAbout_example =
    handle_paste-IsAbout systems borders 7 (codes "j9a 3 neuts") panel
      (record { shown = tt; alerted = tt })
