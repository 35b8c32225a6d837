-- ===== src/Intel/Copy.antt =====
-- IntelChannelParser.jsx: the text of a browser notification, the board as it is copied, and a
-- paste as a whole.
use lawn_eve_intel_dashboard.Common.{
  ℕ, ◌+◌, ◌/◌, ◌%◌, not, Option, none, some, List, [], ◌∷◌, ◌++◌, map, flat_map, ltb, ◌==◌,
  if◌then◌else◌, or_else, filter,
}
use lawn_eve_intel_dashboard.Common.Text.{Text, codes, show, is_nil, trim, join}
use lawn_eve_intel_dashboard.Common.Int.{ℤ, pos, negsuc}
use lawn_eve_intel_dashboard.Intel.{Char, Report, Row, Board, clear_board, apply_entries}
use lawn_eve_intel_dashboard.Intel.Lookup.{SystemMap}
use lawn_eve_intel_dashboard.Intel.Messages.{parse_intel_text}
use lawn_eve_intel_dashboard.Notify.{Notice, Permission, is_granted}

-- `ships.length ? ships.join(', ') : chars.map(c => c.name).join(', ')`.
unfoldable pub detail_of : Report → Text
detail_of e = elim e.ships [
  | [] ↦ join (codes ", ") (map (λ c. c.name) e.chars)
  | s ∷ ss ↦ join (codes ", ") (map codes (s ∷ ss))
]

abbrev pub in_front : Text → Text → Text → Text
in_front opening [] closing = []
in_front opening (c ∷ s) closing = opening ++ ((c ∷ s) ++ closing)

-- `doFire`. A report that fires has a count.
unfoldable pub intel_notice : Report → Notice
unfolding detail_of show
intel_notice e =
    let n = or_else e.count 0 in
    record {
      title =
          codes "⚠ INTEL ["
          ++ ((if e.is_primary then codes "PRIMARY" else codes "GATE")
              ++ (codes "]: " ++ codes e.system));
      body =
          show n
          ++ (codes " neut"
              ++ ((if n == 1 then [] else codes "s") ++ in_front (codes " — ") (detail_of e) []));
      tag = codes "intel-" ++ codes e.system;
    }

-- `fireIntelNotification`; `answer` is what the user says when asked for the permission.
unfoldable pub fire_intel_notification : Permission → Permission → Report → List Notice
unfolding intel_notice
fire_intel_notification Permission.unsupported answer e = []
fire_intel_notification Permission.granted answer e = intel_notice e ∷ []
fire_intel_notification Permission.denied answer e = []
fire_intel_notification Permission.undecided answer e =
    if is_granted answer then intel_notice e ∷ [] else []

-- `formatAge`. A report may be later than the clock of the panel, which ticks every 30 seconds.
unfoldable pub format_age : ℤ → Text
unfolding show
format_age (negsuc n) = codes "-" ++ (show (n / 1000 + 1) ++ codes "s")
format_age (pos ms) =
    if ltb (ms / 1000) 60
    then show (ms / 1000) ++ codes "s"
    else if ltb (ms / 60000) 60
    then show (ms / 60000) ++ codes "m"
    else show (ms / 3600000) ++ (codes "h" ++ (show ((ms / 60000) % 60) ++ codes "m"))

abbrev pub tag_of : Row → Text
tag_of r = if r.border then codes "GATE" else if r.report.is_primary then codes "PRIMARY" else []

abbrev pub sighting : Option ℕ → Text
sighting none = codes "sighted"
sighting (some n) = show n ++ codes " neuts"

unfoldable pub copy_line : Row → Text
unfolding detail_of format_age show
copy_line r =
    in_front (codes "[") (tag_of r) (codes "] ")
    ++ (codes r.report.system
        ++ (codes ": "
            ++ ((if r.report.is_clear then codes "CLEAR" else sighting r.report.count)
                ++ (in_front (codes " (") (detail_of r.report) (codes ")")
                    ++ (codes " — " ++ (format_age r.age ++ codes " ago"))))))

-- `copyBoard`.
unfoldable pub copy_board : List Row → Text
unfolding copy_line
copy_board rows = join (codes "\n") (map copy_line (filter (λ r. not r.expired) rows))

-- The panel: the board, the text that was pasted last, and the pilots to ask about.
pub record Panel : Type 0 where
  pub state : Board
  pub last_pasted : Text
  pub asked : List Char

-- `handlePaste`: what comes of a text, which the panel shows too, and the pilots of its reports.
unfoldable pub handle_paste : List Text → SystemMap → ℕ → Text → Panel → Panel
unfolding trim parse_intel_text apply_entries
handle_paste borders m now text p =
    if is_nil (trim text)
    then p
    else let entries = parse_intel_text text m now in
      record {
        state = apply_entries borders entries p.state;
        last_pasted = text;
        asked = flat_map (λ e. e.chars) entries;
      }

-- `clearAll`, without the pilots that are known.
unfoldable pub clear_all : Panel → Panel
unfolding clear_board
clear_all p = record { state = clear_board p.state; last_pasted = []; asked = [] }
