-- ===== src/Timer.antt =====
-- frontend/src/components/TimerBoard.jsx: durations that are typed into the timer form.
pub mod Duration
use lawn_eve_intel_dashboard.Common.{
  ℕ, ◌+◌, ◌-◌, ◌*◌, Option, none, some, [], ◌∷◌, ltb, ◌==◌, if◌then◌else◌,
}
use lawn_eve_intel_dashboard.Common.Text.{Text, is_digit, is_space}

-- Where the global match of /(\d+)\s*([dhms])/g stands: no number, in a number, or behind one.
pub data Scan : Type 0 where
  idle : Scan
  num gap : ℕ → Scan

abbrev pub value_of : Scan → ℕ
value_of idle = 0
value_of (num v) = v
value_of (gap v) = v

-- A digit goes on with the number in hand, and starts a new one behind spaces.
abbrev pub with_digit : Scan → ℕ → Scan
with_digit (num v) d = num (v * 10 + d)
with_digit _ d = num d

abbrev pub with_space : Scan → Scan
with_space idle = idle
with_space (num v) = gap v
with_space (gap v) = gap v

abbrev pub unit_ms : ℕ → ℕ
unit_ms c =
    if c == b'd'
    then 86400000
    else if c == b'h'
    then 3600000
    else if c == b'm'
    then 60000
    else if c == b's'
    then 1000
    else 0

unfoldable pub scan_step : Scan → ℕ → Scan
scan_step st c =
    if is_digit c then with_digit st (c - b'0') else if is_space c then with_space st else idle

-- The `while` loop over the matches; the total goes along.
unfoldable pub scan_units : Text → Scan → ℕ → ℕ
scan_units [] st total = total
scan_units (c ∷ s) st total = scan_units s (scan_step st c) (total + value_of st * unit_ms c)

-- `parseDuration`, in milliseconds.
unfoldable pub parse_duration : Text → Option ℕ
parse_duration [] = none
parse_duration (c ∷ s) =
    let total = scan_units (c ∷ s) idle 0 in if ltb 0 total then some total else none
