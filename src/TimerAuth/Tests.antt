-- ===== src/TimerAuth/Tests.antt =====
-- Logins with a remembered password, and the theorems at them.
use lawn_eve_intel_dashboard.Common.{◌≡◌, refl, true, none, some}
use lawn_eve_intel_dashboard.TimerAuth.{
  responded, check_timer_password, message_of, Board, mounted, can_write, write_headers, check_auth,
  check_remembered, handle_login, handle_logout, check_done, apply_check,
}
use lawn_eve_intel_dashboard.TimerAuth.Runs.{
  opens, logs_in, check_ends, elsewhere_removes, Reach, start, after, LoggedIn, Reach-LoggedIn,
}
use lawn_eve_intel_dashboard.TimerAuth.Logout.{StaysIn, stays, goes_on, undone, logout_undone}

abbrev remembered : Board
remembered = check_remembered (mounted (some "swordfish"))

abbrev logged_in : Board
logged_in = check_done "swordfish" (responded 200) remembered

locked_message :
    message_of (check_timer_password (responded 429)) ≡ "Too many attempts — wait a minute"
unfolding message_of check_timer_password
locked_message = refl

logged_in-Reach : Reach true logged_in
unfolding check_remembered mounted check_auth check_timer_password
logged_in-Reach = after (start (some "swordfish")) (check_ends "swordfish" (responded 200) refl)

Reach-LoggedIn_example : LoggedIn true logged_in
unfolding check_remembered mounted check_auth check_done check_timer_password apply_check can_write
Reach-LoggedIn_example = Reach-LoggedIn true logged_in logged_in-Reach refl refl

-- The user logs in by hand while the remembered password is still being checked.
abbrev impatient : Board
impatient =
    check_done "swordfish" (responded 200) (handle_login (record remembered { show_form = true }))

impatient-Reach : Reach true impatient
unfolding check_remembered mounted check_auth check_timer_password can_write handle_login
impatient-Reach =
    after (after (after (start (some "swordfish")) (opens refl refl)) (logs_in refl))
      (check_ends "swordfish" (responded 200) refl)

-- Another panel logs out, too, before the next write.
abbrev later : Board
later = record (undone "swordfish" 200 impatient) { stored = none }

later-StaysIn : StaysIn (undone "swordfish" 200 impatient) later
unfolding check_done check_timer_password apply_check
later-StaysIn = goes_on stays elsewhere_removes refl

logout_undone_example :
    Reach true (undone "swordfish" 200 impatient)
    × (can_write (undone "swordfish" 200 impatient) ≡ true)
    × ((undone "swordfish" 200 impatient).stored ≡ some "swordfish")
    × (can_write later ≡ true)
    × (write_headers later ≡ some "")
unfolding check_remembered mounted check_auth check_done check_timer_password apply_check
    handle_login handle_logout
logout_undone_example =
    logout_undone true impatient later "swordfish" 200 impatient-Reach refl refl refl refl
      later-StaysIn refl
