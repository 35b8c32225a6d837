-- ===== src/Campaign/Tests.antt =====
-- Countdowns at concrete times, and the theorems at concrete inputs.
use lawn_eve_intel_dashboard.Common.{◌-◌, ◌≡◌, refl, none, some, arith}
use lawn_eve_intel_dashboard.Common.Text.{codes, digits, show}
use lawn_eve_intel_dashboard.Timer.{parse_duration, scan_units, scan_step}
use lawn_eve_intel_dashboard.Campaign.{at, format_countdown}
use lawn_eve_intel_dashboard.Campaign.Countdown.{ReadsBack, format_countdown-parse_duration}

days_and_hours : format_countdown 0 (some (at 183600000)) ≡ codes "2d 3h"
unfolding format_countdown show digits
days_and_hours = refl

hours_and_minutes : format_countdown 500 (some (at 5400500)) ≡ codes "1h 30m"
unfolding format_countdown show digits
hours_and_minutes = refl

passed : format_countdown 7 (some (at 7)) ≡ codes "ACTIVE NOW"
unfolding format_countdown
passed = refl

durations : parse_duration (codes "1d 4h 30m") ≡ some 102600000
unfolding parse_duration scan_units scan_step
durations = refl

no_unit : parse_duration (codes "4 5") ≡ none
unfolding parse_duration scan_units scan_step
no_unit = refl

format_countdown-parse_duration_example :
    ReadsBack (102600000 - 1000) (format_countdown 1000 (some (at 102600000)))
format_countdown-parse_duration_example =
    format_countdown-parse_duration 1000 102600000 (omega arith)
