-- ===== src/Parsers.antt =====
-- frontend/src/components/LocalScanner.jsx and FleetCompAnalyzer.jsx: the names that are pasted and
-- the scan of them.
mod Tests
pub mod Names
pub mod Texts
pub mod Rows
pub mod Fleet
use lawn_eve_intel_dashboard.Common.{
  ℕ, Bool, true, false, not, ◌||◌, Option, none, some, List, [], ◌∷◌, map, leb, ◌==◌, if◌then◌else◌,
  filter, any, somes,
}
use lawn_eve_intel_dashboard.Common.Text.{
  Text, codes, is_space, text_eq, is_nil, trim, cons_first, split,
}
use lawn_eve_intel_dashboard.Common.Sort.{sort}
use lawn_eve_intel_dashboard.Config.Sets.{add}

-- `raw.split(/[\s,]+/)`.
abbrev pub is_separator : ℕ → Bool
is_separator c = is_space c || c == b','

unfoldable pub split_words : Text → List Text
split_words [] = [] ∷ []
split_words (c ∷ s) =
    let rest = split_words s in if is_separator c then [] ∷ rest else cons_first c rest

-- `map(trim).filter(Boolean)`. Between two separators `split_words` has an empty word that the
-- regular expression has not, and that goes here.
abbrev pub tidy : List Text → List Text
tidy ws = filter (λ w. not (is_nil w)) (map trim ws)

-- `new Set(names)`.
unfoldable pub distinct_from : List Text → List Text → List Text
unfolding add text_eq
distinct_from seen [] = seen
distinct_from seen (n ∷ ns) = distinct_from (add text_eq n seen) ns

-- `parseNames`, the same in both components.
unfoldable pub parse_names : Text → List Text
unfolding trim split split_words distinct_from
parse_names raw =
    if is_nil (trim raw)
    then []
    else if any (λ c. c == 10) raw
    then distinct_from [] (tidy (split 10 raw))
    else distinct_from [] (tidy (split_words raw))

-- A row of the response of /api/local/scan.
pub record Pilot : Type 0 where
  pub name : Text
  pub character_id : Option ℕ
  pub corporation_name : Option Text
  pub alliance_name : Option Text
  pub standing : Text

-- `STANDING_ORDER[standing] ?? 99`.
unfoldable pub standing_order : Text → ℕ
unfolding text_eq
standing_order s =
    if text_eq s (codes "unknown")
    then 0
    else if text_eq s (codes "friendly")
    then 1
    else if text_eq s (codes "lawn")
    then 2
    else if text_eq s (codes "unresolved")
    then 3
    else 99

-- How a request ends: with an error, whose message is shown, or with a body.
pub data Result {ℓ} (A : Type ℓ) : Type ℓ where
  errored : Text → Result A
  arrived : A → Result A

-- The state of a scanner that keeps an `A`, and the names of its requests in flight.
pub record Scanner {ℓ} (A : Type ℓ) : Type ℓ where
  pub raw_input : Text
  pub results : Option A
  pub scanning : Bool
  pub error : Option Text
  pub requests : List (List Text)

abbrev pub start_scan {ℓ} : {A : Type ℓ} → List Text → Scanner A → Scanner A
start_scan [] s = s
start_scan (n ∷ ns) s = record s { scanning = true; error = none; requests = (n ∷ ns) ∷ s.requests }

-- `handleScan` and `handleAnalyze`, up to the request.
unfoldable pub handle_scan {ℓ} : {A : Type ℓ} → Scanner A → Scanner A
unfolding parse_names
handle_scan s = start_scan (parse_names s.raw_input) s

-- The rest of `handleAnalyze`.
unfoldable pub settle_scan {ℓ} : {A : Type ℓ} → Result A → Scanner A → Scanner A
settle_scan (errored e) s = record s { scanning = false; error = some e }
settle_scan (arrived r) s = record s { scanning = false; results = some r }

-- The rest of `handleScan` of LocalScanner: the pilots in order of standing.
unfoldable pub by_standing : List Pilot → List Pilot
unfolding sort standing_order
by_standing = sort (λ a b. leb (standing_order a.standing) (standing_order b.standing))

abbrev pub in_order : Result (List Pilot) → Result (List Pilot)
in_order (errored e) = errored e
in_order (arrived ps) = arrived (by_standing ps)

unfoldable pub settle_local_scan : Result (List Pilot) → Scanner (List Pilot) → Scanner (List Pilot)
unfolding by_standing settle_scan
settle_local_scan r s = settle_scan (in_order r) s

-- `charIds`: whose risk is asked for.
abbrev pub char_ids : List Pilot → List ℕ
char_ids ps = somes (map (λ p. p.character_id) ps)

-- `handleClear`. The requests in flight go on.
unfoldable pub handle_clear {ℓ} : {A : Type ℓ} → Scanner A → Scanner A
handle_clear s = record s { raw_input = []; results = none; error = none }
