-- ===== src/War/Amounts.antt =====
-- frontend/src/utils/formatters.js and warHelpers.js: amounts of ISK, shares and durations. `round n d`
-- is the whole number that `toFixed` finds for n / d, and the minutes of a battle, which the server
-- rounds, are tenths.
use lawn_eve_intel_dashboard.Common.{
  ℕ, ◌+◌, ◌-◌, ◌*◌, ◌/◌, ◌%◌, ◌≤◌, ◌<◌, ◌≡◌, Option, none, some, ◌∷◌, ◌++◌, ltb, leb, ◌==◌,
  if◌then◌else◌, arith,
}
use lawn_eve_intel_dashboard.Common.Text.{Text, codes, show}

pub data Amount : Type 0 where
  no_amount : Amount
  billions millions : ℕ → Amount
  thousands units : ℕ → Amount

-- `formatIsk` on a whole number: tenths of billions and of millions, else thousands and units.
unfoldable pub format_isk : (ℕ → ℕ → ℕ) → ℕ → Amount
format_isk round value =
    if value == 0
    then no_amount
    else if leb 1000000000 value
    then billions (round (10 * value) 1000000000)
    else if leb 1000000 value
    then millions (round (10 * value) 1000000)
    else if leb 1000 value
    then thousands (round value 1000)
    else units (round value 1)

abbrev pub tenths_text : ℕ → Text
tenths_text n = show (n / 10) ++ (b'.' ∷ show (n % 10))

-- The text of an amount.
unfoldable pub amount_text : Amount → Text
unfolding show
amount_text no_amount = codes "0"
amount_text (billions n) = tenths_text n ++ codes "B"
amount_text (millions n) = tenths_text n ++ codes "M"
amount_text (thousands n) = show n ++ codes "K"
amount_text (units n) = show n

-- What the text stands for, and half of its last digit.
abbrev pub value_of : Amount → ℕ
value_of no_amount = 0
value_of (billions n) = n * 100000000
value_of (millions n) = n * 100000
value_of (thousands n) = n * 1000
value_of (units n) = n

abbrev pub half_digit : Amount → ℕ
half_digit no_amount = 0
half_digit (billions n) = 50000000
half_digit (millions n) = 50000
half_digit (thousands n) = 500
half_digit (units n) = 0

abbrev pub unit_of : Amount → ℕ
unit_of no_amount = 0
unit_of (billions n) = 1000000000
unit_of (millions n) = 1000000
unit_of (thousands n) = 1000
unit_of (units n) = 1

-- `toFixed` gives a nearest number, either one if two are as near.
pub record IsNearest (round : ℕ → ℕ → ℕ) : Type 0 where
  pub above : (n d : ℕ) → 0 < d → 2 * n ≤ 2 * (d * round n d) + d
  pub below : (n d : ℕ) → 0 < d → 2 * (d * round n d) ≤ 2 * n + d

-- With a rounding that gives a nearest number, the amount that is printed is at most half of its last
-- digit away from the value, and its unit is not larger than the value.
pub format_isk_bounds :
    (round : ℕ → ℕ → ℕ) (value : ℕ)
    → IsNearest round
    → (value ≤ value_of (format_isk round value) + half_digit (format_isk round value))
      × (value_of (format_isk round value) ≤ value + half_digit (format_isk round value))
      × (unit_of (format_isk round value) ≤ value)
unfolding format_isk
format_isk_bounds round value r = ground (
  arith,
  r.above (10 * value) 1000000000 (omega arith),
  r.below (10 * value) 1000000000 (omega arith),
  r.above (10 * value) 1000000 (omega arith),
  r.below (10 * value) 1000000 (omega arith),
  r.above value 1000 (omega arith),
  r.below value 1000 (omega arith),
  r.above value 1 (omega arith),
  r.below value 1 (omega arith),
)

-- `share`: a part in a hundred, as a fraction.
pub record Fraction : Type 0 where
  pub num : ℕ
  pub den : ℕ

unfoldable pub share : ℕ → ℕ → Fraction
share a b =
    if a + b == 0 then record { num = 50; den = 1 } else record { num = 100 * a; den = a + b }

-- `warDuration`, given the present and the start, which is `none` where it is missing or no date.
unfoldable pub war_duration : ℕ → Option ℕ → ℕ
war_duration now none = 0
war_duration now (some start) = (now - start) / 86400000

-- `stalenessMinutes`.
unfoldable pub staleness_minutes : ℕ → Option ℕ → Option ℕ
staleness_minutes now none = none
staleness_minutes now (some t) = some ((2 * (now - t) + 60000) / 120000)

-- `formatDuration`, by its parts.
pub data Lasting : Type 0 where
  short : Lasting
  minutes hours : ℕ → Lasting
  hours_minutes : ℕ → ℕ → Lasting

-- `Math.round` on tenths.
abbrev pub rounded : ℕ → ℕ
rounded t = (t + 5) / 10

unfoldable pub format_duration : ℕ → Lasting
format_duration t =
    if ltb t 10
    then short
    else if ltb t 600
    then minutes (rounded t)
    else if rounded (t % 600) == 0
    then hours (t / 600)
    else hours_minutes (t / 600) (rounded (t % 600))

unfoldable pub lasting_text : Lasting → Text
unfolding show
lasting_text short = codes "<1m"
lasting_text (minutes m) = show m ++ codes "m"
lasting_text (hours h) = show h ++ codes "h"
lasting_text (hours_minutes h m) = show h ++ (codes "h " ++ (show m ++ codes "m"))

-- The tenths of a minute that a text stands for.
abbrev pub lasts : Lasting → ℕ
lasts short = 0
lasts (minutes m) = 10 * m
lasts (hours h) = 600 * h
lasts (hours_minutes h m) = 600 * h + 10 * m

abbrev pub error_of : Lasting → ℕ
error_of short = 9
error_of _ = 5

abbrev pub minute_hand : Lasting → ℕ
minute_hand (minutes m) = m
minute_hand (hours_minutes h m) = m
minute_hand _ = 0

-- The duration that is printed is at most half a minute away from the real one, or is less than a
-- minute. It is printed with 60 minutes exactly if the last half a minute of an hour has begun.
pub format_duration_bounds :
    (t : ℕ)
    → (t ≤ lasts (format_duration t) + error_of (format_duration t))
      × (lasts (format_duration t) ≤ t + 5)
      × (minute_hand (format_duration t) ≤ 60)
      × ((minute_hand (format_duration t) == 60) ≡ leb 595 (t % 600))
unfolding format_duration
format_duration_bounds t = ground arith
