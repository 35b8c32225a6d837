-- ===== src/Campaign/Countdown.antt =====
-- campaignHelpers.js: the countdown that the boards show, read back as TimerBoard.jsx reads durations.
use lawn_eve_intel_dashboard.Common.{
  ℕ, ◌+◌, ◌-◌, ◌*◌, ◌/◌, ◌%◌, ◌≤◌, ◌<◌, ◌≡◌, refl, inl, inr, true, false, some, arith, ltb, leb,
}
use lawn_eve_intel_dashboard.Common.Text.{Text}
use native.Mathlib.Decide.{dec_le}
use lawn_eve_intel_dashboard.Campaign.{
  at, format_countdown, countdown_of, day_ms, hour_ms, minute_ms,
}
use lawn_eve_intel_dashboard.Timer.{parse_duration}
use lawn_eve_intel_dashboard.Timer.Duration.{scan_pair, scan_last, parse_duration_of_scan}

abbrev pub ReadsBack : ℕ → Text → Type 0
ReadsBack diff s = (d : ℕ) × (parse_duration s ≡ some d) × (d ≤ diff) × (diff < d + hour_ms)

countdown_days : (diff : ℕ) → day_ms ≤ diff → ReadsBack diff (countdown_of diff)
unfolding countdown_of
countdown_days diff h = rw (days_pos) (
  diff / day_ms * day_ms + diff % day_ms / hour_ms * hour_ms,
  parse_duration_of_scan _ _
      (scan_pair (diff / day_ms) (diff % day_ms / hour_ms) b'd' b'h' (inl refl)) (omega arith),
  omega arith,
  omega arith,
)
  where
    days_pos : ltb 0 (diff / day_ms) ≡ true
    days_pos = ground arith

countdown_hours : (diff : ℕ) → hour_ms ≤ diff → diff < day_ms → ReadsBack diff (countdown_of diff)
unfolding countdown_of
countdown_hours diff h k =
    rw (days_zero, hours_pos)
      (
        diff % day_ms / hour_ms * hour_ms + diff % hour_ms / minute_ms * minute_ms,
        parse_duration_of_scan _ _
            (scan_pair (diff % day_ms / hour_ms) (diff % hour_ms / minute_ms) b'h' b'm' (inr refl))
            (omega arith),
        omega arith,
        omega arith,
      )
  where
    days_zero : ltb 0 (diff / day_ms) ≡ false
    days_zero = ground arith

    hours_pos : ltb 0 (diff % day_ms / hour_ms) ≡ true
    hours_pos = ground arith

countdown_minutes :
    (diff : ℕ) → minute_ms ≤ diff → diff < hour_ms → ReadsBack diff (countdown_of diff)
unfolding countdown_of
countdown_minutes diff h k =
    rw (days_zero, hours_zero)
      (
        0 + diff % hour_ms / minute_ms * minute_ms,
        parse_duration_of_scan _ _ (scan_last (diff % hour_ms / minute_ms) b'm' 0) (omega arith),
        omega arith,
        omega arith,
      )
  where
    days_zero : ltb 0 (diff / day_ms) ≡ false
    days_zero = ground arith

    hours_zero : ltb 0 (diff % day_ms / hour_ms) ≡ false
    hours_zero = ground arith

-- As long as at least one minute is left before the target, the countdown that is shown for it,
-- typed into the timer form, is a duration that does not pass the target and falls short of it by
-- less than an hour.
pub format_countdown-parse_duration :
    (now t : ℕ) → now + minute_ms ≤ t → ReadsBack (t - now) (format_countdown now (some (at t)))
unfolding format_countdown
format_countdown-parse_duration now t h = rw late (by_size (t - now) (omega arith))
  where
    late : leb t now ≡ false
    late = ground arith

    by_size : (diff : ℕ) → minute_ms ≤ diff → ReadsBack diff (countdown_of diff)
    by_size diff k = elim (dec_le day_ms diff) [
      | yes p ↦ countdown_days diff p
      | no p ↦ elim (dec_le hour_ms diff) [
        | yes q ↦ countdown_hours diff q (omega arith)
        | no q ↦ countdown_minutes diff k (omega arith)
      ]
    ]
