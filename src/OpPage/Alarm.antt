-- ===== src/OpPage/Alarm.antt =====
-- EntosisPage.jsx, fetchIntel: the poll after one that got no activity.
use lawn_eve_intel_dashboard.Common.{
  ℕ, ◌≤◌, String, ◌≡◌, refl, ap, ◌∙◌, Bool, true, some, List, [], ◌∷◌, ◌++◌, arith, any,
}
use lawn_eve_intel_dashboard.Common.Text.{codes, text_eq, text_eq_refl}
use lawn_eve_intel_dashboard.Common.Int.{ℤ, sub_ℕ}
use lawn_eve_intel_dashboard.Common.Assoc.{lookup}
use lawn_eve_intel_dashboard.Campaign.{Campaign}
use lawn_eve_intel_dashboard.Config.{Config, Constellation}
use lawn_eve_intel_dashboard.Notify.{
  kills_of, Settings, granted, Sov, Activity, Poll, Notice, pvp_notice, check_and_notify,
}
use lawn_eve_intel_dashboard.Notify.Snapshots.{primary_kills}
use lawn_eve_intel_dashboard.Notify.Polls.{kills, spike, wanted, check_and_notify-wanted}
use lawn_eve_intel_dashboard.OpPage.{
  missing, good, Intel, Setting, op_poll, read_activity, read_sovereignty, fetch_intel,
}

abbrev pub is_spike : Notice → Bool
is_spike n = text_eq n.tag (codes "primary-pvp-spike")

any-middle {ℓ} :
    {A : Type ℓ} (p : A → Bool) (xs : List A) (x : A) (ys : List A)
    → p x ≡ true
    → any p (xs ++ (x ∷ ys)) ≡ true
any-middle p [] x ys h = rw h refl
any-middle p (z ∷ xs) x ys h = ground (arith, any-middle p xs x ys h)

no_kills : (ids : List ℕ) → primary_kills [] ids ≡ 0
unfolding kills_of lookup
no_kills [] = refl
no_kills (id ∷ ids) = omega (arith, no_kills ids)

is_spike-pvp_notice : (short : String) (d : ℤ) (n : ℕ) → is_spike (pvp_notice short d n) ≡ true
unfolding pvp_notice
is_spike-pvp_notice short d n = text_eq_refl (codes "primary-pvp-spike")

-- A spike is among the alerts that should be sent.
wanted-spike :
    (now0 : ℕ) (p0 : Poll) (now : ℕ) (p : Poll) (st : Settings)
    → st.pvp ≡ true
    → kills p0 ≡ 0
    → st.pvp_threshold ≤ kills p
    → any is_spike (wanted now0 p0 now p st) ≡ true
wanted-spike now0 p0 now p st on none_yet many =
    let high : spike st.pvp_threshold p0 p ≡ true = ground (arith, none_yet, many) in
    rw (on, high)
      (any-middle is_spike _ _ _
        (is_spike-pvp_notice p.alliance_short (sub_ℕ (kills p) (kills p0)) (kills p)))

-- The configuration of the page, with the constellations of `table`.
abbrev pub with_config : Intel → Config → List (ℕ × Constellation) → Intel
with_config i cfg table = record i { config = some (record cfg { constellations = some table }) }

-- After a poll that got no activity, the next one alerts of a spike as soon as the kills of the
-- whole hour reach the threshold, whatever the activity was before: the alert is on and permitted,
-- and the polls get campaigns and sovereignty.
pub fetch_intel-spike :
    (w0 w : Setting) (cs0 cs : List Campaign) (sov0 sov : List (ℕ × Sov))
    (act : List (ℕ × Activity)) (i : Intel) (cfg : Config) (table : List (ℕ × Constellation))
    → w.settings.enabled ≡ true
    → w.settings.pvp ≡ true
    → w.permission ≡ granted
    → w.settings.pvp_threshold ≤ kills (op_poll cfg table cs sov act)
    → any is_spike
        (fetch_intel w
          (good cs)
          (good sov)
          (good act)
          (fetch_intel w0 (good cs0) (good sov0) missing (with_config i cfg table)).0).1
      ≡ true
unfolding fetch_intel read_sovereignty read_activity check_and_notify op_poll
fetch_intel-spike w0 w cs0 cs sov0 sov act i cfg table on pvp may many =
    let p0 = op_poll cfg table cs0 sov0 [] in
    let p = op_poll cfg table cs sov act in
    ap (any is_spike)
      (check_and_notify-wanted w0.now p0 w.now p w.settings w.permission ∙ rw (on, may) refl)
    ∙ wanted-spike w0.now p0 w.now p w.settings pvp (no_kills p0.primary_ids) many
