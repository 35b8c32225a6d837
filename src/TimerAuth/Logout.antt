-- ===== src/TimerAuth/Logout.antt =====
-- TimerBoard.jsx: a logout while a password is still being checked.
use lawn_eve_intel_dashboard.Common.{
  ℕ, String, ◌≡◌, refl, Bool, true, false, ◌||◌, ◌∙◌, some, arith, str_eq,
}
use lawn_eve_intel_dashboard.Config.Sets.{has}
use lawn_eve_intel_dashboard.TimerAuth.{
  Response, responded, rejected, is_ok, Check, ok, invalid, locked, error, check_timer_password,
  Write, add_timer, delete_timer, Board, can_write, write_headers, check_auth, handle_login,
  handle_logout, apply_check, check_done, handle_add, handle_delete, write_done, refresh_done,
}
use lawn_eve_intel_dashboard.TimerAuth.Runs.{
  Step, types, logs_in, logs_out, toggles, opens, adds, deletes, check_ends, write_ends,
  refresh_ends, elsewhere_accepts, elsewhere_removes, elsewhere_keeps, is_accepted, Reach, after,
}

-- Any steps through boards that are logged in.
pub data StaysIn (b : Board) : Board → Type 0 where
  stays : StaysIn b b
  goes_on : {c d : Board} → StaysIn b c → Step c d → d.is_authenticated ≡ true → StaysIn b d

-- Logged in, with a password of the board that is empty.
record Blank (b : Board) : Type 0 where
  logged_in : b.is_authenticated ≡ true
  blank : b.password ≡ ""

apply_check-password :
    (pw : String) (r : Check) (b : Board) → (apply_check pw r b).password ≡ b.password
unfolding apply_check
apply_check-password pw ok b = refl
apply_check-password pw invalid b = refl
apply_check-password pw locked b = refl
apply_check-password pw error b = refl

write_done-password :
    (w : Write) (r : Response) (b : Board) → (write_done w r b).password ≡ b.password
unfolding write_done
write_done-password w rejected b = refl
write_done-password add_timer (responded status) b = ground arith
write_done-password delete_timer (responded status) b = ground arith

-- The login form is not drawn while the board is logged in, so only a logout sets the password.
Step-password :
    {b d : Board}
    → Step b d
    → b.is_authenticated ≡ true
    → d.is_authenticated ≡ true
    → d.password ≡ b.password
unfolding handle_login check_auth handle_logout check_done refresh_done handle_add handle_delete
Step-password (types pw g) h k = absurd (ground arith)
Step-password (logs_in g) h k = absurd (ground arith)
Step-password (logs_out g e) h k = cc
Step-password (toggles g) h k = refl
Step-password (opens g e) h k = refl
Step-password (adds s t g) h k = ground arith
Step-password (deletes c g) h k = ground arith
Step-password {b} (check_ends pw r g) h k = apply_check-password pw (check_timer_password r) _
Step-password {b} (write_ends w r) h k = write_done-password w r b
Step-password (refresh_ends m g) h k = refl
Step-password (elsewhere_accepts pw) h k = refl
Step-password elsewhere_removes h k = refl
Step-password (elsewhere_keeps pw) h k = refl

StaysIn-Blank : {b d : Board} → StaysIn b d → Blank b → Blank d
StaysIn-Blank stays v = v
StaysIn-Blank (goes_on r s h) v =
    let w = StaysIn-Blank r v in
    record { logged_in = h; blank = Step-password s w.logged_in h ∙ w.blank }

-- The board after a logout during a check of `pw` that then succeeds.
abbrev pub undone : String → ℕ → Board → Board
undone pw status b = check_done pw (responded status) (handle_logout b)

accepts :
    (status : ℕ)
    → is_ok status ≡ true
    → is_accepted (check_timer_password (responded status)) ≡ true
unfolding check_timer_password
accepts status fine = rw fine refl

Reach-undone :
    (u : Bool) (b : Board) (pw : String) (status : ℕ)
    → Reach u b
    → b.auth.sso_enabled ≡ false
    → b.is_authenticated ≡ true
    → has str_eq pw b.checks ≡ true
    → is_ok status ≡ true
    → Reach true (undone pw status b)
unfolding handle_logout
Reach-undone u b pw status r off in_ pending fine =
    let h : Reach (is_accepted (check_timer_password (responded status)) || u)
        (undone pw status b) =
      after (after r (logs_out off in_)) (check_ends pw (responded status) pending) in
    rw (accepts status fine) at h

-- If the user logs out without SSO while a password is being checked, and the check then succeeds,
-- then that is a run of the board after which it may write again and has that password in the
-- storage; and as long as it stays logged in without SSO, whatever else happens, its writes carry an
-- empty password.
pub logout_undone :
    (u : Bool) (b d : Board) (pw : String) (status : ℕ)
    → Reach u b
    → b.auth.sso_enabled ≡ false
    → b.is_authenticated ≡ true
    → has str_eq pw b.checks ≡ true
    → is_ok status ≡ true
    → StaysIn (undone pw status b) d
    → d.auth.sso_enabled ≡ false
    → Reach true (undone pw status b)
      × (can_write (undone pw status b) ≡ true)
      × ((undone pw status b).stored ≡ some pw)
      × (can_write d ≡ true)
      × (write_headers d ≡ some "")
unfolding check_done apply_check check_timer_password can_write write_headers handle_logout
logout_undone u b d pw status r off in_ pending fine run later =
    let v = StaysIn-Blank run (record { logged_in = rw fine refl; blank = rw fine refl }) in
    (
      Reach-undone u b pw status r off in_ pending fine,
      rw (fine, off) refl,
      rw fine refl,
      rw later v.logged_in,
      rw (later, v.blank) refl,
    )
