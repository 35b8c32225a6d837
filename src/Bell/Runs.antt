-- ===== src/Bell/Runs.antt =====
-- NotificationBell.jsx and useNotifications.js: what is reached by clicks, over page loads.
use lawn_eve_intel_dashboard.Common.{
  ℕ, ◌≤◌, ◌≡◌, refl, Bool, true, false, not, Option, none, some, List, [], ◌∷◌, Bool-cases, inl,
  inr, arith, or_else,
}
use lawn_eve_intel_dashboard.Common.Text.{Text}
use lawn_eve_intel_dashboard.Common.Int.{ℤ, pos, negsuc, pos_part}
use lawn_eve_intel_dashboard.Notify.{Settings, Permission, Poll, check_and_notify, is_granted}
use lawn_eve_intel_dashboard.Notify.Store.{
  Store, Stored, nothing, broken, fields, open_store, save_settings, request_permission,
  is_supported,
}
use lawn_eve_intel_dashboard.Notify.Silence.{check_and_notify_unchanged}
use lawn_eve_intel_dashboard.Bell.{
  Bell, Act, Control, click_bell, click_outside, click_grant, click_enable, click_campaigns,
  click_pvp, click_adm, type_threshold, act, control_of, controls, change_enabled, change_campaigns,
  change_pvp, change_adm_critical, change_threshold, threshold_of, parse_int, or_one, min_ℤ, max_ℤ,
}

pub data Offered : Option Control → List Control → Type 0 where
  anywhere : {cs : List Control} → Offered none cs
  first : {c : Control} {cs : List Control} → Offered (some c) (c ∷ cs)
  later : {c d : Control} {cs : List Control} → Offered (some c) cs → Offered (some c) (d ∷ cs)

-- The page with its bell as it is after a load.
abbrev pub loaded : Stored → Permission → Bell
loaded stored permission = record { store = open_store stored permission; is_open = false }

-- A visit with nothing stored, or with what is no JSON; then acts on what the bell offers, with the
-- storage writable or not, the permission changed in the browser, and loads of the page.
pub data Reach (holds_sov has_ao : Bool) : Bell → Type 0 where
  visit : (permission : Permission) → Reach holds_sov has_ao (loaded nothing permission)
  spoilt : (permission : Permission) → Reach holds_sov has_ao (loaded broken permission)
  acted :
      {b : Bell} (a : Act) (writable : Bool)
      → Reach holds_sov has_ao b
      → Offered (control_of a) (controls holds_sov has_ao b.is_open b.store)
      → Reach holds_sov has_ao (act writable a b)
  reload :
      {b : Bell} (permission : Permission)
      → Reach holds_sov has_ao b
      → Reach holds_sov has_ao (loaded b.store.stored permission)

abbrev pub InRange : ℕ → Type 0
InRange n = (1 ≤ n) × (n ≤ 50)

abbrev FieldInRange : Option ℕ → Type 0
FieldInRange none = Unit
FieldInRange (some n) = InRange n

abbrev StoredInRange : Stored → Type 0
StoredInRange nothing = Unit
StoredInRange broken = Unit
StoredInRange (fields f) = FieldInRange f.pvp_threshold

record Inv (s : Store) : Type 0 where
  set : InRange s.settings.pvp_threshold
  kept : StoredInRange s.stored

clamped-InRange : (z : ℤ) → InRange (pos_part (max_ℤ (pos 1) (min_ℤ (pos 50) z)))
clamped-InRange (pos n) = ground arith
clamped-InRange (negsuc n) = ground arith

threshold_of-InRange : (typed : Text) → InRange (threshold_of typed)
unfolding threshold_of
threshold_of-InRange typed = clamped-InRange (or_one (parse_int typed))

save_settings-Inv :
    (writable : Bool) (update : Settings → Settings) (s : Store)
    → InRange (update s.settings).pvp_threshold
    → Inv s
    → Inv (save_settings writable update s)
unfolding save_settings
save_settings-Inv true update s h v = record { set = h; kept = h }
save_settings-Inv false update s h v = record { set = h; kept = v.kept }

change_enabled-Inv : (w v : Bool) (s : Store) → Inv s → Inv (change_enabled w v s)
unfolding change_enabled
change_enabled-Inv w v s i = elim (Bool-cases (is_granted s.permission)) [
  | inl able ↦ rw able (save_settings-Inv w (λ st. record st { enabled = v }) s i.set i)
  | inr unable ↦ rw unable i
]

request_permission-Inv :
    (w : Bool) (answer : Permission) (s : Store) → Inv s → Inv (request_permission w answer s)
unfolding request_permission
request_permission-Inv w answer s i = elim (Bool-cases (is_supported s.permission)) [
  | inl able ↦ elim (Bool-cases (is_granted answer)) [
    | inl given ↦
        rw (able, given)
          (save_settings-Inv w (λ st. record st { enabled = true })
            (record s { permission = answer }) i.set (record { set = i.set; kept = i.kept }))
    | inr refused ↦ rw (able, refused) (record { set = i.set; kept = i.kept })
  ]
  | inr unable ↦ rw unable i
]

act-Inv : (w : Bool) (a : Act) (b : Bell) → Inv b.store → Inv (act w a b).store
unfolding act change_campaigns change_pvp change_adm_critical change_threshold
act-Inv w click_bell b i = i
act-Inv w click_outside b i = i
act-Inv w (click_grant answer) b i = request_permission-Inv w answer b.store i
act-Inv w click_enable b i = change_enabled-Inv w _ b.store i
act-Inv w click_campaigns b i =
    save_settings-Inv w (λ st. record st { campaigns = not b.store.settings.campaigns }) b.store
      i.set i
act-Inv w click_pvp b i =
    save_settings-Inv w (λ st. record st { pvp = not b.store.settings.pvp }) b.store i.set i
act-Inv w click_adm b i =
    save_settings-Inv w (λ st. record st { adm_critical = not b.store.settings.adm_critical })
      b.store i.set i
act-Inv w (type_threshold typed) b i =
    save_settings-Inv w (λ st. record st { pvp_threshold = threshold_of typed }) b.store
      (threshold_of-InRange typed) i

or_else-InRange : (o : Option ℕ) → FieldInRange o → InRange (or_else o 3)
or_else-InRange none h = omega arith
or_else-InRange (some n) h = h

open_store-Inv :
    (stored : Stored) (p : Permission) → StoredInRange stored → Inv (open_store stored p)
unfolding open_store
open_store-Inv nothing p h = ground arith
open_store-Inv broken p h = ground arith
open_store-Inv (fields f) p h = record { set = or_else-InRange f.pvp_threshold h; kept = h }

Reach-Inv : {holds_sov has_ao : Bool} {b : Bell} → Reach holds_sov has_ao b → Inv b.store
Reach-Inv (visit p) = open_store-Inv nothing p tt
Reach-Inv (spoilt p) = open_store-Inv broken p tt
Reach-Inv (acted {b} a w r o) = act-Inv w a b (Reach-Inv r)
Reach-Inv (reload {b} p r) = open_store-Inv b.store.stored p (Reach-Inv r).kept

-- Whatever is clicked and typed on the bell, with the storage writable or not, over loads of the page
-- and with the permission changed in between: the threshold is between 1 and 50, and a poll whose
-- snapshot is the earlier one sends nothing, whatever the permission.
pub Reach-IsQuiet :
    {holds_sov has_ao : Bool} {b : Bell} (perm : Permission) (now : ℕ) (p : Poll)
    → Reach holds_sov has_ao b
    → InRange b.store.settings.pvp_threshold
      × ((check_and_notify now b.store.settings perm
            (some (check_and_notify now b.store.settings perm none p).0)
            p).1
          ≡ [])
Reach-IsQuiet {b = b} perm now p r =
    let i = Reach-Inv r in
    (
      i.set,
      check_and_notify_unchanged b.store.settings perm now p
          (check_and_notify now b.store.settings perm none p).0 i.set.0 refl,
    )
