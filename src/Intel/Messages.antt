-- ===== src/Intel/Messages.antt =====
-- IntelChannelParser.jsx, parseIntelText: the reports of a pasted text. The line and paragraph
-- separators U+2028 and U+2029, which `.` does not match, are taken for other characters here.
use lawn_eve_intel_dashboard.Common.{
  ℕ, zero, suc, ◌+◌, ◌-◌, ◌*◌, ◌/◌, ◌%◌, Bool, not, ◌&&◌, Option, none, some, List, [], ◌∷◌, map,
  flat_map, ltb, ◌==◌, if◌then◌else◌, or_else, first_some, filter,
}
use lawn_eve_intel_dashboard.Common.Text.{Text, is_digit, is_space, is_nil, trim_start, trim, split}
use lawn_eve_intel_dashboard.Intel.{Char, Report}
use lawn_eve_intel_dashboard.Intel.Lookup.{Info, SystemMap, find_system}
use lawn_eve_intel_dashboard.Intel.Links.{longer, strip_eve_links, extract_linked_chars}
use lawn_eve_intel_dashboard.Intel.Words.{extract_count, extract_ships, is_clear_message, number_of}

-- A number of exactly `n` digits, and what stands behind it.
unfoldable pub fixed : ℕ → Text → Option (Text × Text)
fixed zero s = some ([], s)
fixed (suc n) [] = none
fixed (suc n) (c ∷ s) = let rest = longer c (fixed n s) in if is_digit c then rest else none

-- A part of a pattern: digits of that number, one character, spaces that may be missing or not.
pub data Part : Type 0 where
  number one : ℕ → Part
  blank gap : Part

abbrev pub keep_number : ℕ → Option (List ℕ × Text) → Option (List ℕ × Text)
keep_number n none = none
keep_number n (some r) = some (n ∷ r.0, r.1)

abbrev pub go_on : Option (Text × Text) → (Text → Option (List ℕ × Text)) → Option (List ℕ × Text)
go_on none next = none
go_on (some r) next = keep_number (number_of 0 r.0) (next r.1)

abbrev pub behind_code :
    (ℕ → Bool) → Text → (Text → Option (List ℕ × Text)) → Option (List ℕ × Text)
behind_code test [] next = none
behind_code test (c ∷ s) next = let rest = next s in if test c then rest else none

-- The numbers of a text that starts as the pattern says, and what stands behind.
pub read : List Part → Text → Option (List ℕ × Text)
unfolding fixed number_of trim_start
read [] s = some ([], s)
read (number n ∷ ps) s = go_on (fixed n s) (λ rest. read ps rest)
read (one d ∷ ps) s = behind_code (λ c. c == d) s (λ rest. read ps rest)
read (blank ∷ ps) s = read ps (trim_start s)
read (gap ∷ ps) s = behind_code is_space s (λ rest. read ps (trim_start rest))

-- /^\[\s*(\d{4}\.\d{2}\.\d{2}\s+\d{2}:\d{2}:\d{2})\s*\]/
abbrev pub stamp_parts : List Part
stamp_parts =
    one b'['
    ∷ blank
    ∷ number 4
    ∷ one b'.'
    ∷ number 2
    ∷ one b'.'
    ∷ number 2
    ∷ gap
    ∷ number 2
    ∷ one b':'
    ∷ number 2
    ∷ one b':'
    ∷ number 2
    ∷ blank
    ∷ one b']'
    ∷ []

-- `Date.UTC` reads a year below 100 as one of the last century.
abbrev pub full_year : ℕ → ℕ
full_year y = if ltb y 100 then 1900 + y else y

-- The day of a month that is counted from March of the year 0.
abbrev pub day_of : ℕ → ℕ → ℕ
day_of months day =
    let y = months / 12 in
    365 * y + y / 4 - y / 100 + y / 400 + (153 * (months % 12) + 2) / 5 + day - 1

-- `parseEveTimestamp`. As in `Date.UTC`, what is too large goes over into the next larger unit.
unfoldable pub utc : ℕ → ℕ → ℕ → ℕ → ℕ → ℕ → ℕ
utc year month day hour minute second =
    (((day_of (full_year year * 12 + month - 3) day * 24 + hour) * 60 + minute) * 60 + second)
    * 1000

-- The first `>` that something stands behind.
unfoldable pub cut : Text → Option (Text × Text)
cut [] = none
cut (c ∷ s) =
    let rest = longer c (cut s) in if c == b'>' && not (is_nil s) then some ([], s) else rest

-- /^(.+?)\s*>\s*(.+)$/ on a text that does not end in spaces, up to spaces around the parts.
unfoldable pub speaks : Text → Option (Text × Text)
unfolding cut
speaks [] = none
speaks (c ∷ s) = longer c (cut s)

-- The same behind `\]\s*`: where the spaces are needed for the first part, one of them is it.
unfoldable pub speaks_behind : Text → Option (Text × Text)
unfolding speaks trim_start
speaks_behind [] = none
speaks_behind (c ∷ s) =
    if is_space c
    then first_some (speaks (trim_start s)) (speaks (32 ∷ trim_start s))
    else speaks (c ∷ s)

-- `ts`, `reporter` and `msg`.
pub record Line : Type 0 where
  pub timestamp : ℕ
  pub reporter : Text
  pub message : Text

abbrev pub said : ℕ → Text × Text → Line
said timestamp r = record { timestamp = timestamp; reporter = trim r.0; message = trim r.1 }

abbrev pub stamped : List ℕ → Option (Text × Text) → Option Line
stamped numbers none = none
stamped (y ∷ mo ∷ d ∷ h ∷ mi ∷ s ∷ []) (some r) = some (said (utc y mo d h mi s) r)
stamped numbers (some r) = none

abbrev pub stamped_line : Option (List ℕ × Text) → Option Line
stamped_line none = none
stamped_line (some r) = stamped r.0 (speaks_behind r.1)

abbrev pub plain_line : ℕ → Text → Option (Text × Text) → Line
plain_line now line none = record { timestamp = now; reporter = []; message = line }
plain_line now line (some r) = said now r

unfoldable pub line_of : ℕ → Text → Line
unfolding trim utc read speaks_behind speaks
line_of now line =
    or_else (stamped_line (read stamp_parts line)) (plain_line now line (speaks line))

abbrev pub report_of : List Char → Line → Option Info → List Report
report_of chars line none = []
report_of chars line (some sys) =
    (record {
      system = sys.name;
      system_id = sys.system_id;
      is_primary = sys.is_primary;
      count = extract_count line.message;
      is_clear = is_clear_message line.message;
      ships = extract_ships line.message;
      chars = chars;
      reporter = line.reporter;
      timestamp = line.timestamp;
      raw = line.message;
    })
    ∷ []

-- The body of the loop, behind `continue` where nothing is left without the links.
abbrev pub report_line : SystemMap → ℕ → List Char → Text → List Report
report_line m now chars [] = []
report_line m now chars (c ∷ s) =
    let line = line_of now (c ∷ s) in report_of chars line (find_system m line.message)

abbrev pub parse_line : SystemMap → ℕ → Text → List Report
parse_line m now raw = report_line m now (extract_linked_chars raw) (trim (strip_eve_links raw))

-- `parseIntelText`.
unfoldable pub parse_intel_text : Text → SystemMap → ℕ → List Report
unfolding trim split find_system strip_eve_links extract_linked_chars extract_count extract_ships
    is_clear_message line_of
parse_intel_text text m now =
    flat_map (parse_line m now)
      (filter (λ l. not (is_nil l)) (map trim (split 10 (filter (λ c. not (c == 13)) text))))
