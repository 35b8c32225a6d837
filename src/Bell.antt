-- ===== src/Bell.antt =====
-- frontend/src/components/NotificationBell.jsx: the dropdown with the settings of the alerts, over
-- the store of Notify.Store. A number field holds a text; what the browser lets one type there never
-- starts with `0x`.
mod Tests
pub mod Runs
use lawn_eve_intel_dashboard.Common.{
  ℕ, zero, suc, ◌+◌, ◌-◌, ◌*◌, String, Bool, true, false, not, ◌&&◌, Option, none, some, List, [],
  ◌∷◌, ◌++◌, ltb, ◌==◌, if◌then◌else◌,
}
use lawn_eve_intel_dashboard.Common.Text.{Text, is_digit, trim_start}
use lawn_eve_intel_dashboard.Common.Int.{ℤ, pos, negsuc, pos_part, leb_ℤ}
use lawn_eve_intel_dashboard.Notify.{
  Settings, Permission, granted, denied, undecided, unsupported, is_granted,
}
use lawn_eve_intel_dashboard.Notify.Store.{Store, save_settings, request_permission}

-- The digits at the front of a text, after some that were read, as a number.
abbrev pub more_digits : ℕ → Text → ℕ
more_digits n [] = n
more_digits n (c ∷ s) =
    let rest = more_digits (n * 10 + (c - b'0')) s in if is_digit c then rest else n

-- A text that starts with no digit is NaN.
abbrev pub digits_of : Text → Option ℕ
digits_of [] = none
digits_of (c ∷ s) = if is_digit c then some (more_digits 0 (c ∷ s)) else none

abbrev pub minus : ℕ → ℤ
minus zero = pos 0
minus (suc n) = negsuc n

abbrev pub negated : Option ℕ → Option ℤ
negated none = none
negated (some n) = some (minus n)

abbrev pub as_pos : Option ℕ → Option ℤ
as_pos none = none
as_pos (some n) = some (pos n)

abbrev pub signed : Text → Option ℤ
signed [] = none
signed (c ∷ s) =
    if c == b'-'
    then negated (digits_of s)
    else if c == b'+'
    then as_pos (digits_of s)
    else as_pos (digits_of (c ∷ s))

-- `parseInt(text)`; `none` is NaN.
unfoldable pub parse_int : Text → Option ℤ
unfolding trim_start
parse_int s = signed (trim_start s)

-- `n || 1`.
abbrev pub or_one : Option ℤ → ℤ
or_one none = pos 1
or_one (some (pos zero)) = pos 1
or_one (some z) = z

abbrev pub min_ℤ : ℤ → ℤ → ℤ
min_ℤ a b = if leb_ℤ a b then a else b

abbrev pub max_ℤ : ℤ → ℤ → ℤ
max_ℤ a b = if leb_ℤ a b then b else a

-- The threshold that is kept for what is typed. It is positive.
unfoldable pub threshold_of : Text → ℕ
unfolding parse_int
threshold_of s = pos_part (max_ℤ (pos 1) (min_ℤ (pos 50) (or_one (parse_int s))))

pub data PermLabel : Type 0 where
  label_granted label_denied label_unsupported label_not_set : PermLabel

-- `permLabel`.
abbrev pub perm_label : Permission → PermLabel
perm_label granted = label_granted
perm_label denied = label_denied
perm_label unsupported = label_unsupported
perm_label undecided = label_not_set

abbrev pub needs_request : Permission → Bool
needs_request undecided = true
needs_request _ = false

-- What the user can reach on the bell: the button itself, and in the dropdown the button for the
-- permission, the switches, and the field of the threshold.
pub data Control : Type 0 where
  bell grant_permission enable_alerts campaigns pvp threshold adm_critical : Control

abbrev pub only_if : Bool → Control → List Control
only_if true c = c ∷ []
only_if false c = []

-- The dropdown, given whether the alliance holds sovereignty and has a home.
abbrev pub dropdown : Bool → Bool → Store → List Control
dropdown holds_sov has_ao s =
    only_if (needs_request s.permission) grant_permission
    ++ (enable_alerts
        ∷ (if has_ao
            then campaigns
              ∷ pvp
              ∷ (only_if s.settings.pvp threshold ++ only_if holds_sov adm_critical)
            else []))

unfoldable pub controls : Bool → Bool → Bool → Store → List Control
controls holds_sov has_ao is_open s = bell ∷ (if is_open then dropdown holds_sov has_ao s else [])

-- Whether the switch for all alerts is drawn on, and whether the bell is drawn as active.
abbrev pub enable_is_on : Store → Bool
enable_is_on s = s.settings.enabled && is_granted s.permission

abbrev pub bell_is_active : Store → Bool
bell_is_active s = s.settings.enabled

-- The handlers. `writable` says whether the browser lets the settings be stored.
unfoldable pub change_enabled : Bool → Bool → Store → Store
unfolding save_settings
change_enabled writable v s =
    if is_granted s.permission
    then save_settings writable (λ st. record st { enabled = v }) s
    else s

unfoldable pub change_campaigns : Bool → Bool → Store → Store
unfolding save_settings
change_campaigns writable v = save_settings writable (λ st. record st { campaigns = v })

unfoldable pub change_pvp : Bool → Bool → Store → Store
unfolding save_settings
change_pvp writable v = save_settings writable (λ st. record st { pvp = v })

unfoldable pub change_adm_critical : Bool → Bool → Store → Store
unfolding save_settings
change_adm_critical writable v = save_settings writable (λ st. record st { adm_critical = v })

unfoldable pub change_threshold : Bool → Text → Store → Store
unfolding save_settings threshold_of
change_threshold writable typed =
    save_settings writable (λ st. record st { pvp_threshold = threshold_of typed })

-- `onClick` of a `Toggle` that is drawn on or off.
abbrev pub flip : (Bool → Store → Store) → Bool → Store → Store
flip on_change on = on_change (not on)

-- What happens to the bell: a click on the button or outside, one on a control of the dropdown, or a
-- text typed into the field.
pub data Act : Type 0 where
  click_bell click_outside : Act
  click_grant : Permission → Act
  click_enable click_campaigns click_pvp click_adm : Act
  type_threshold : Text → Act

pub record Bell : Type 0 where
  pub store : Store
  pub is_open : Bool

unfoldable pub act : Bool → Act → Bell → Bell
unfolding change_enabled change_campaigns change_pvp change_adm_critical change_threshold
    request_permission
act writable click_bell b = record b { is_open = not b.is_open }
act writable click_outside b = record b { is_open = false }
act writable (click_grant answer) b = record b {
  store = request_permission writable answer b.store;
}
act writable click_enable b = record b {
  store = flip (change_enabled writable) (enable_is_on b.store) b.store;
}
act writable click_campaigns b = record b {
  store = flip (change_campaigns writable) b.store.settings.campaigns b.store;
}
act writable click_pvp b = record b {
  store = flip (change_pvp writable) b.store.settings.pvp b.store;
}
act writable click_adm b = record b {
  store = flip (change_adm_critical writable) b.store.settings.adm_critical b.store;
}
act writable (type_threshold typed) b = record b { store = change_threshold writable typed b.store }

-- The control that an act needs.
abbrev pub control_of : Act → Option Control
control_of click_bell = some bell
control_of click_outside = none
control_of (click_grant answer) = some grant_permission
control_of click_enable = some enable_alerts
control_of click_campaigns = some campaigns
control_of click_pvp = some pvp
control_of click_adm = some adm_critical
control_of (type_threshold typed) = some threshold
