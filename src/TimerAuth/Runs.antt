-- ===== src/TimerAuth/Runs.antt =====
-- TimerBoard.jsx: every run of the board, from its mounting on.
use lawn_eve_intel_dashboard.Common.{
  ◌≤◌, String, ◌≡◌, refl, ◌∙◌, ◌⊎◌, inl, inr, Bool, true, false, not, ◌&&◌, ◌||◌, Option, none,
  some, ◌∷◌, eq_refl, ◌==◌, str_eq, Bool-cases, or_else,
}
use lawn_eve_intel_dashboard.Config.Sets.{has}
use lawn_eve_intel_dashboard.TimerAuth.{
  Response, responded, rejected, is_ok, Check, ok, invalid, locked, error, check_timer_password,
  MeResult, Write, add_timer, delete_timer, Board, mounted, can_write, check_auth, check_remembered,
  handle_login, handle_logout, apply_check, check_done, handle_add, handle_delete, close_form,
  write_done, refresh_done,
}

-- The login form is drawn.
abbrev pub shows_login : Board → Bool
shows_login b = not b.auth.sso_enabled && not b.is_authenticated && b.show_form

-- What can happen next: each handler where its control is drawn, the ends of requests, and what other
-- panels, of this page or of another one that is open, do to `timer_auth`. JumpBridgeManager.jsx,
-- EntosisPage.jsx and another board store a password that the server has accepted,
-- JumpBridgeManager.jsx and another board remove what is stored at their logout, and WarPage.jsx
-- stores what is typed there once a write has succeeded.
pub data Step (b : Board) : Board → Type 0 where
  types : (pw : String) → shows_login b ≡ true → Step b (record b { password = pw })
  logs_in : shows_login b ≡ true → Step b (handle_login b)
  logs_out : b.auth.sso_enabled ≡ false → b.is_authenticated ≡ true → Step b (handle_logout b)
  toggles : can_write b ≡ true → Step b (record b { show_form = not b.show_form })
  opens : can_write b ≡ false → b.auth.sso_enabled ≡ false → Step b (record b { show_form = true })
  adds :
      (system_name timestamp : String)
      → can_write b && b.show_form ≡ true
      → Step b (handle_add system_name timestamp b)
  deletes : (confirmed : Bool) → can_write b ≡ true → Step b (handle_delete confirmed b)
  check_ends :
      (pw : String) (r : Response) → has str_eq pw b.checks ≡ true → Step b (check_done pw r b)
  write_ends : (w : Write) (r : Response) → Step b (write_done w r b)
  refresh_ends : (m : MeResult) → 1 ≤ b.refreshes → Step b (refresh_done m b)
  elsewhere_accepts :
      (pw : String) → Step b (record b { stored = some pw; accepted = pw ∷ b.accepted })
  elsewhere_removes : Step b (record b { stored = none })
  elsewhere_keeps : (pw : String) → Step b (record b { stored = some pw })

abbrev pub is_accepted : Check → Bool
is_accepted ok = true
is_accepted invalid = false
is_accepted locked = false
is_accepted error = false

-- Whether, since an accepted password was last stored, no other panel has removed or replaced it:
-- before a step, and after it.
abbrev pub undisturbed : {b d : Board} → Step b d → Bool → Bool
undisturbed (types pw g) u = u
undisturbed (logs_in g) u = u
undisturbed (logs_out g k) u = u
undisturbed (toggles g) u = u
undisturbed (opens g k) u = u
undisturbed (adds s t g) u = u
undisturbed (deletes c g) u = u
undisturbed (check_ends pw r g) u = is_accepted (check_timer_password r) || u
undisturbed (write_ends w r) u = u
undisturbed (refresh_ends m g) u = u
undisturbed (elsewhere_accepts pw) u = true
undisturbed elsewhere_removes u = false
undisturbed (elsewhere_keeps pw) u = false

-- A board that can be reached, and whether its stored password is undisturbed.
pub data Reach : Bool → Board → Type 0 where
  start : (stored : Option String) → Reach false (check_remembered (mounted stored))
  after : {u : Bool} {b d : Board} → Reach u b → (step : Step b d) → Reach (undisturbed step u) d

abbrev pub IsAccepted : Board → String → Type 0
IsAccepted b pw = has str_eq pw b.accepted ≡ true

-- The server has accepted a password, and if the storage is undisturbed, one is in the storage.
pub record LoggedIn (u : Bool) (b : Board) : Type 0 where
  pub password : String
  pub accepted : IsAccepted b password
  pub stored : (u ≡ false) ⊎ (b.stored ≡ some password)

abbrev Sound : Bool → Board → Type 0
Sound u b = (b.is_authenticated ≡ false) ⊎ LoggedIn u b

-- A step that leaves the login, the storage and the accepted passwords as they are.
Sound-same :
    (u : Bool) (b d : Board)
    → d.is_authenticated ≡ b.is_authenticated
    → d.stored ≡ b.stored
    → d.accepted ≡ b.accepted
    → Sound u b
    → Sound u d
Sound-same u b d a s t (inl out) = inl (a ∙ out)
Sound-same u b d a s t (inr h) = inr (record {
  password = h.password;
  accepted = rw t h.accepted;
  stored = elim h.stored [ inl e ↦ inl e | inr e ↦ inr (s ∙ e) ];
})

check_auth-Sound : (u : Bool) (pw : String) (b : Board) → Sound u b → Sound u (check_auth pw b)
unfolding check_auth
check_auth-Sound u pw b h = elim (Bool-cases (str_eq pw "")) [
  | inl blank ↦ rw blank h
  | inr given ↦ rw given (Sound-same u b (record b { checks = pw ∷ b.checks }) refl refl refl h)
]

apply_check-Sound :
    (u : Bool) (pw : String) (r : Check) (b : Board)
    → Sound (is_accepted r || u) (apply_check pw r b)
unfolding apply_check
apply_check-Sound u pw ok b =
    inr (record { password = pw; accepted = rw (eq_refl pw) refl; stored = inr refl })
apply_check-Sound u pw invalid b = inl refl
apply_check-Sound u pw locked b = inl refl
apply_check-Sound u pw error b = inl refl

handle_add-Sound : (u : Bool) (s t : String) (b : Board) → Sound u b → Sound u (handle_add s t b)
unfolding handle_add
handle_add-Sound u s t b h = elim (Bool-cases (str_eq s "" || str_eq t "")) [
  | inl lacking ↦ rw lacking h
  | inr full ↦
      rw full (Sound-same u b (record b { writes = add_timer ∷ b.writes }) refl refl refl h)
]

handle_delete-Sound : (u : Bool) (c : Bool) (b : Board) → Sound u b → Sound u (handle_delete c b)
unfolding handle_delete
handle_delete-Sound u true b h =
    Sound-same u b (record b { writes = delete_timer ∷ b.writes }) refl refl refl h
handle_delete-Sound u false b h = h

close_form-Sound : (u : Bool) (w : Write) (b : Board) → Sound u b → Sound u (close_form w b)
close_form-Sound u add_timer b h = Sound-same u b (record b { show_form = false }) refl refl refl h
close_form-Sound u delete_timer b h = h

write_done-Sound :
    (u : Bool) (w : Write) (r : Response) (b : Board) → Sound u b → Sound u (write_done w r b)
unfolding write_done
write_done-Sound u w rejected b h = h
write_done-Sound u w (responded status) b h = elim (Bool-cases (is_ok status)) [
  | inl fine ↦ rw fine (close_form-Sound u w b h)
  | inr bad ↦ rw bad (elim (Bool-cases (status == 401)) [
    | inl denied ↦ rw denied (inl refl)
    | inr other ↦ rw other h
  ])
]

Step-Sound : (u : Bool) {b d : Board} (step : Step b d) → Sound u b → Sound (undisturbed step u) d
unfolding handle_login handle_logout check_done refresh_done
Step-Sound u {b} (types pw g) h = Sound-same u b (record b { password = pw }) refl refl refl h
Step-Sound u {b} (logs_in g) h = check_auth-Sound u b.password b h
Step-Sound u {b} (logs_out g k) h = inl refl
Step-Sound u {b} (toggles g) h =
    Sound-same u b (record b { show_form = not b.show_form }) refl refl refl h
Step-Sound u {b} (opens g k) h = Sound-same u b (record b { show_form = true }) refl refl refl h
Step-Sound u {b} (adds s t g) h = handle_add-Sound u s t b h
Step-Sound u {b} (deletes c g) h = handle_delete-Sound u c b h
Step-Sound u {b} (check_ends pw r g) h = apply_check-Sound u pw (check_timer_password r) _
Step-Sound u {b} (write_ends w r) h = write_done-Sound u w r b h
Step-Sound u {b} (refresh_ends m g) h = Sound-same u b (refresh_done m b) refl refl refl h
Step-Sound u {b} (elsewhere_accepts pw) (inl out) = inl out
Step-Sound u {b} (elsewhere_accepts pw) (inr h) =
    inr (record { password = pw; accepted = rw (eq_refl pw) refl; stored = inr refl })
Step-Sound u {b} elsewhere_removes (inl out) = inl out
Step-Sound u {b} elsewhere_removes (inr h) =
    inr (record { password = h.password; accepted = h.accepted; stored = inl refl })
Step-Sound u {b} (elsewhere_keeps pw) (inl out) = inl out
Step-Sound u {b} (elsewhere_keeps pw) (inr h) =
    inr (record { password = h.password; accepted = h.accepted; stored = inl refl })

start-Sound : (stored : Option String) → Sound false (check_remembered (mounted stored))
unfolding check_remembered mounted
start-Sound stored = check_auth-Sound false (or_else stored "") _ (inl refl)

Reach-Sound : {u : Bool} {b : Board} → Reach u b → Sound u b
Reach-Sound (start stored) = start-Sound stored
Reach-Sound (after {u} r s) = Step-Sound u s (Reach-Sound r)

-- In every state that the board can reach without SSO, whatever other panels do to the storage, who
-- may write has had a password accepted by the server; and such a password is in the storage, unless
-- another panel has removed or replaced what was stored since an accepted password was last stored.
pub Reach-LoggedIn :
    (u : Bool) (b : Board)
    → Reach u b
    → b.auth.sso_enabled ≡ false
    → can_write b ≡ true
    → LoggedIn u b
unfolding can_write
Reach-LoggedIn u b r off may = elim (Reach-Sound r) [
  | inl out ↦ absurd (cc (rw off at may, out))
  | inr h ↦ h
]
