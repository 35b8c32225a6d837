-- ===== src/Intel/Words.antt =====
-- IntelChannelParser.jsx: what a message says of numbers, ships and clears. Each regular expression
-- is a scanner: a run of digits or spaces is taken whole, as what follows it matches neither.
use lawn_eve_intel_dashboard.Common.{
  ℕ, ◌+◌, ◌-◌, ◌*◌, String, Bool, true, false, not, ◌&&◌, ◌||◌, Option, none, some, List, [], ◌∷◌,
  ◌++◌, map, leb, ◌==◌, str_eq, if◌then◌else◌, first_some, any, take,
}
use lawn_eve_intel_dashboard.Common.Text.{
  Text, codes, is_digit, is_space, lower, starts_with, trim_start, includes,
}
use lawn_eve_intel_dashboard.Config.Sets.{add}

-- `SHIP_HINTS`.
abbrev pub ship_hints : List (String × String)
ship_hints =
    ("gate camp", "Gate Camp")
    ∷ ("bubble", "Bubble")
    ∷ ("hic", "HIC")
    ∷ ("devoter", "HIC")
    ∷ ("onyx", "HIC")
    ∷ ("phobos", "HIC")
    ∷ ("broadsword", "HIC")
    ∷ ("dictor", "Dictor")
    ∷ ("sabre", "Sabre")
    ∷ ("interdictor", "Dictor")
    ∷ ("fax", "FAX")
    ∷ ("titan", "Titan")
    ∷ ("super", "Super")
    ∷ ("dread", "Dread")
    ∷ ("naglfar", "Dread")
    ∷ ("moros", "Dread")
    ∷ ("revelation", "Dread")
    ∷ ("phoenix", "Dread")
    ∷ ("carrier", "Carrier")
    ∷ ("logi", "Logi")
    ∷ ("scimi", "Scimitar")
    ∷ ("scimitar", "Scimitar")
    ∷ ("recon", "Recon")
    ∷ ("arazu", "Recon")
    ∷ ("huginn", "Recon")
    ∷ ("rapier", "Recon")
    ∷ ("hac", "HAC")
    ∷ ("muninn", "HAC")
    ∷ ("cerb", "HAC")
    ∷ ("ishtar", "HAC")
    ∷ ("vagabond", "HAC")
    ∷ ("t3", "T3")
    ∷ ("tengu", "T3")
    ∷ ("loki", "T3")
    ∷ ("legion", "T3")
    ∷ ("proteus", "T3")
    ∷ ("bomber", "Bomber")
    ∷ ("covops", "CovOps")
    ∷ ("cov ops", "CovOps")
    ∷ ("inty", "Interceptor")
    ∷ ("interceptor", "Interceptor")
    ∷ ("stiletto", "Interceptor")
    ∷ ("bc", "BC")
    ∷ ("bs", "BS")
    ∷ []

-- `found.add(label)` for the hints that the message has.
unfoldable pub find_hints : Text → List (String × String) → List String → List String
unfolding includes add
find_hints message [] found = found
find_hints message (h ∷ hs) found =
    find_hints message hs (if includes message (codes h.0) then add str_eq h.1 found else found)

-- `extractShips`.
unfoldable pub extract_ships : Text → List String
unfolding find_hints
extract_ships message = take 3 (find_hints (map lower message) ship_hints [])

unfoldable pub digits_of : Text → Text
digits_of [] = []
digits_of (c ∷ s) = let rest = digits_of s in if is_digit c then c ∷ rest else []

unfoldable pub after_digits : Text → Text
after_digits [] = []
after_digits (c ∷ s) = let rest = after_digits s in if is_digit c then rest else c ∷ s

-- `parseInt` of digits.
unfoldable pub number_of : ℕ → Text → ℕ
number_of n [] = n
number_of n (c ∷ s) = number_of (n * 10 + (c - b'0')) s

-- What stands behind `t` where the text starts with it.
unfoldable pub strip_prefix : Text → Text → Option Text
strip_prefix s [] = some s
strip_prefix [] (d ∷ t) = none
strip_prefix (c ∷ s) (d ∷ t) = let rest = strip_prefix s t in if c == d then rest else none

abbrev pub neutral_words : List String
neutral_words = "neut" ∷ "neutral" ∷ "red" ∷ "hostile" ∷ []

-- /[+]?(\d+)\s*(?:neut|neutral|red|hostile|unk)\w*/i, on a message in lower case.
unfoldable pub count_before : Text → Option ℕ
unfolding after_digits digits_of number_of trim_start starts_with
count_before [] = none
count_before (c ∷ s) =
    let rest = count_before s in
    if is_digit c
      && any (λ w. starts_with (trim_start (after_digits s)) (codes w))
          (neutral_words ++ ("unk" ∷ []))
    then some (number_of 0 (c ∷ digits_of s))
    else rest

abbrev pub skip_code : ℕ → Text → Text
skip_code d [] = []
skip_code d (c ∷ s) = if c == d then s else c ∷ s

-- `(\d+)` at the start.
unfoldable pub leading_number : Text → Option ℕ
unfolding digits_of number_of
leading_number [] = none
leading_number (c ∷ s) = if is_digit c then some (number_of 0 (c ∷ digits_of s)) else none

-- `\s+(\d+)` at the start.
unfoldable pub spaced_number : Text → Option ℕ
unfolding leading_number trim_start
spaced_number [] = none
spaced_number (c ∷ s) = if is_space c then leading_number (trim_start s) else none

unfoldable pub behind_word : Option Text → Option ℕ
unfolding spaced_number
behind_word none = none
behind_word (some rest) = spaced_number (skip_code b's' rest)

unfoldable pub behind_words : List String → Text → Option ℕ
unfolding behind_word strip_prefix
behind_words [] s = none
behind_words (w ∷ ws) s = first_some (behind_word (strip_prefix s (codes w))) (behind_words ws s)

-- /(?:neut|neutral|red|hostile)s?\s+(\d+)/i, on a message in lower case.
unfoldable pub count_after : Text → Option ℕ
unfolding behind_words
count_after [] = none
count_after (c ∷ s) = first_some (behind_words neutral_words (c ∷ s)) (count_after s)

abbrev pub ends_here : Text → Bool
ends_here [] = true
ends_here (c ∷ s) = is_space c

abbrev pub skip_mark : Text → Text
skip_mark [] = []
skip_mark (c ∷ s) = if c == b'+' || c == b'?' then s else c ∷ s

unfoldable pub count_at : Text → Option ℕ
unfolding leading_number after_digits
count_at s = if ends_here (skip_mark (after_digits s)) then leading_number s else none

-- `extractCount`. The last test is /^[+]?(\d+)[+?]?(?=\s|$)/.
unfoldable pub extract_count : Text → Option ℕ
unfolding count_before count_after count_at
extract_count message =
    first_some (count_before (map lower message))
      (first_some (count_after (map lower message)) (count_at (skip_code b'+' message)))

-- `\w`.
abbrev pub is_word_code : ℕ → Bool
is_word_code c = is_digit c || c == b'_' || (leb b'a' c && leb c b'z') || (leb b'A' c && leb c b'Z')

abbrev pub starts_word : Text → Bool
starts_word [] = false
starts_word (c ∷ s) = is_word_code c

abbrev pub whole_rest : Option Text → Bool
whole_rest none = false
whole_rest (some rest) = not (starts_word rest)

abbrev pub clear_words : List String
clear_words = "clear" ∷ "clr" ∷ "cleared" ∷ "safe" ∷ []

-- From a place on, where the character before it is one of a word or not.
unfoldable pub clear_from : Bool → Text → Bool
unfolding strip_prefix
clear_from inside [] = false
clear_from inside (c ∷ s) =
    (not inside && any (λ w. whole_rest (strip_prefix (c ∷ s) (codes w))) clear_words)
    || clear_from (is_word_code c) s

-- `CLEAR_RE.test(msg)`.
unfoldable pub is_clear_message : Text → Bool
unfolding clear_from
is_clear_message message = clear_from false (map lower message)
