-- ===== src/Intel/Links.antt =====
-- IntelChannelParser.jsx, stripEveLinks and extractLinkedChars. A global match goes on behind what
-- it has found: `skip` counts the characters of a link that are still to be link_length over.
use lawn_eve_intel_dashboard.Common.{
  ℕ, zero, suc, ◌-◌, Bool, false, not, ◌&&◌, Option, none, some, List, [], ◌∷◌, ◌++◌, leb, ◌==◌,
  if◌then◌else◌, length,
}
use lawn_eve_intel_dashboard.Common.Text.{Text, codes, is_digit, lower, is_nil, trim}
use lawn_eve_intel_dashboard.Intel.{Char}
use lawn_eve_intel_dashboard.Intel.Words.{digits_of, after_digits, number_of, skip_code}

-- What stands behind `t`, which is in lower case, where the text starts with it in any case.
unfoldable pub strip_any_case : Text → Text → Option Text
strip_any_case s [] = some s
strip_any_case [] (d ∷ t) = none
strip_any_case (c ∷ s) (d ∷ t) =
    let rest = strip_any_case s t in if lower c == d then rest else none

abbrev pub longer : ℕ → Option (Text × Text) → Option (Text × Text)
longer c none = none
longer c (some r) = some (c ∷ r.0, r.1)

-- What stands before the first `d`, and behind it.
unfoldable pub until : ℕ → Text → Option (Text × Text)
until d [] = none
until d (c ∷ s) = let rest = longer c (until d s) in if c == d then some ([], s) else rest

-- A link at the start of a text: its target, what it shows, and the text behind it.
pub record Link : Type 0 where
  pub target : Text
  pub shown : Text
  pub behind : Text

abbrev pub closed : Text → Text → Option Text → Option Link
closed target shown none = none
closed target shown (some rest) = some (record { target = target; shown = shown; behind = rest })

-- `([^<]*)<\/url>` behind the target.
abbrev pub with_text : Text → Option (Text × Text) → Option Link
with_text target none = none
with_text target (some r) = closed target r.0 (strip_any_case r.1 (codes "/url>"))

-- `[^>]*>` behind `<url=`.
abbrev pub with_target : Option (Text × Text) → Option Link
with_target none = none
with_target (some r) = with_text r.0 (until b'<' r.1)

abbrev pub with_open_tag : Option Text → Option Link
with_open_tag none = none
with_open_tag (some rest) = with_target (until b'>' rest)

-- /<url=[^>]*>([^<]*)<\/url>/i at the start.
unfoldable pub link_at : Text → Option Link
unfolding strip_any_case until
link_at s = with_open_tag (strip_any_case s (codes "<url="))

-- How many characters the text has more than the rest.
abbrev pub link_length : Text → Text → ℕ
link_length s rest = length s - length rest

-- `stripEveLinks`.
pub strip_links : ℕ → Text → Text
unfolding link_at
strip_links skip [] = []
strip_links (suc skip) (c ∷ s) = strip_links skip s
strip_links zero (c ∷ s) = elim (link_at (c ∷ s)) [
  | none ↦ c ∷ strip_links zero s
  | some l ↦ l.shown ++ strip_links (link_length s l.behind) s
]

unfoldable pub strip_eve_links : Text → Text
unfolding strip_links
strip_eve_links s = strip_links 0 s

-- The ids in `showinfo:(\d+)\/[/]?(\d+)`: type and item.
abbrev pub item_id : ℕ → Text → Option (ℕ × Text)
item_id kind [] = none
item_id kind (c ∷ s) = if is_digit c && is_nil (after_digits s) then some (kind, c ∷ s) else none

abbrev pub item_behind : ℕ → Text → Option (ℕ × Text)
item_behind kind [] = none
item_behind kind (c ∷ s) = if c == b'/' then item_id kind (skip_code b'/' s) else none

abbrev pub type_id : Option Text → Option (ℕ × Text)
type_id none = none
type_id (some []) = none
type_id (some (c ∷ s)) =
    if is_digit c then item_behind (number_of 0 (c ∷ digits_of s)) (after_digits s) else none

unfoldable pub info_of : Text → Option (ℕ × Text)
unfolding strip_any_case digits_of after_digits number_of
info_of target = type_id (strip_any_case target (codes "showinfo:"))

-- `NON_CHAR_TYPES`.
abbrev pub is_char_type : ℕ → Bool
is_char_type kind = not (leb 2 kind && leb kind 5)

abbrev pub char_of : Text → Option (ℕ × Text) → List Char
char_of shown none = []
char_of shown (some i) =
    if is_char_type i.0 && not (is_nil shown)
    then (record { name = trim shown; char_id = i.1 }) ∷ []
    else []

-- `[^<]+`: a link that shows nothing is none.
abbrev pub is_info : Link → Bool
is_info l = elim (info_of l.target) [ none ↦ false | some _ ↦ not (is_nil l.shown) ]

-- `extractLinkedChars`.
pub chars_from : ℕ → Text → List Char
unfolding link_at info_of trim
chars_from skip [] = []
chars_from (suc skip) (c ∷ s) = chars_from skip s
chars_from zero (c ∷ s) = elim (link_at (c ∷ s)) [
  | none ↦ chars_from zero s
  | some l ↦
      char_of l.shown (info_of l.target)
      ++ chars_from (if is_info l then link_length s l.behind else 0) s
]

unfoldable pub extract_linked_chars : Text → List Char
unfolding chars_from
extract_linked_chars s = chars_from 0 s
