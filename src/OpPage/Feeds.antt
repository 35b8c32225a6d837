-- ===== src/OpPage/Feeds.antt =====
-- EntosisPage.jsx, fetchIntel: what one poll leaves on the page.
use lawn_eve_intel_dashboard.Common.{
  ℕ, suc, ◌≡◌, refl, if◌then◌else◌, Bool, true, false, Option, none, some, List, [],
}
use lawn_eve_intel_dashboard.Campaign.{Campaign}
use lawn_eve_intel_dashboard.Config.{Config, Constellation}
use lawn_eve_intel_dashboard.Notify.{Sov, Activity}
use lawn_eve_intel_dashboard.OpPage.{
  Feed, missing, malformed, odd, good, Intel, OpKill, ask_kill_feed, Setting, notify, notify_config,
  alert, read_activity, read_sovereignty, fetch_intel,
}

abbrev pub is_malformed {ℓ} : {A : Type ℓ} → Feed A → Bool
is_malformed missing = false
is_malformed malformed = true
is_malformed odd = false
is_malformed (good a) = false

-- What is shown afterwards: what has arrived, or else what was shown before.
abbrev pub latest {ℓ} : {A : Type ℓ} → Feed A → A → A
latest missing old = old
latest malformed old = old
latest odd old = old
latest (good a) old = a

-- What is shown of campaigns, sovereignty, activity, configuration and kills, and how many requests
-- of the kill feed are in flight.
abbrev pub Shows :
    Intel
    → List Campaign
    → List (ℕ × Sov)
    → List (ℕ × Activity)
    → Option Config
    → List OpKill
    → ℕ
    → Type 0
Shows i camp sov act cfg kills requests =
    (i.campaigns ≡ camp)
    × (i.sovereignty ≡ sov)
    × (i.activity ≡ act)
    × (i.config ≡ cfg)
    × (i.kill_feed ≡ kills)
    × (i.kill_requests ≡ requests)

-- It shows the same as another page.
abbrev Same : Intel → Intel → Type 0
Same i j = Shows i j.campaigns j.sovereignty j.activity j.config j.kill_feed j.kill_requests

notify-Same :
    (w : Setting) (cfg : Config) (t : Option (List (ℕ × Constellation))) (camp : List Campaign)
    (sov : List (ℕ × Sov)) (act : List (ℕ × Activity)) (i : Intel)
    → Same (notify w cfg t camp sov act i).0 i
notify-Same w cfg none camp sov act i = (refl, refl, refl, refl, refl, refl)
notify-Same w cfg (some t) camp sov act i = (refl, refl, refl, refl, refl, refl)

notify_config-Same :
    (w : Setting) (o : Option Config) (camp : List Campaign) (sov : List (ℕ × Sov))
    (act : List (ℕ × Activity)) (i : Intel)
    → Same (notify_config w o camp sov act i).0 i
notify_config-Same w none camp sov act i = (refl, refl, refl, refl, refl, refl)
notify_config-Same w (some cfg) camp sov act i = notify-Same w cfg cfg.constellations camp sov act i

alert-Same :
    (w : Setting) (camp : Option (List Campaign)) (sov : Option (List (ℕ × Sov)))
    (act : List (ℕ × Activity)) (i : Intel)
    → Same (alert w camp sov act i).0 i
alert-Same w none sov act i = (refl, refl, refl, refl, refl, refl)
alert-Same w (some camp) none act i = (refl, refl, refl, refl, refl, refl)
alert-Same w (some camp) (some sov) act i = notify_config-Same w i.config camp sov act i

-- The requests of the kill feed after a poll that has come to the activity.
abbrev pub asked_after {ℓ} : {A : Type ℓ} → Feed A → ℕ → ℕ
asked_after fa before = if is_malformed fa then before else suc before

read_activity-Shows :
    (w : Setting) (camp : Option (List Campaign)) (sov : Option (List (ℕ × Sov)))
    (fa : Feed (List (ℕ × Activity))) (i : Intel)
    → Shows
        (read_activity w camp sov fa i).0
        i.campaigns
        i.sovereignty
        (latest fa i.activity)
        i.config
        i.kill_feed
        (asked_after fa i.kill_requests)
unfolding read_activity ask_kill_feed
read_activity-Shows w camp sov missing i = alert-Same w camp sov [] (ask_kill_feed i)
read_activity-Shows w camp sov malformed i = (refl, refl, refl, refl, refl, refl)
read_activity-Shows w camp sov odd i = alert-Same w camp sov [] (ask_kill_feed i)
read_activity-Shows w camp sov (good a) i =
    alert-Same w camp sov a (ask_kill_feed (record i { activity = a }))

read_sovereignty-Shows :
    (w : Setting) (camp : Option (List Campaign)) (fs : Feed (List (ℕ × Sov)))
    (fa : Feed (List (ℕ × Activity))) (i : Intel)
    → is_malformed fs ≡ false
    → Shows
        (read_sovereignty w camp fs fa i).0
        i.campaigns
        (latest fs i.sovereignty)
        (latest fa i.activity)
        i.config
        i.kill_feed
        (asked_after fa i.kill_requests)
unfolding read_sovereignty
read_sovereignty-Shows w camp missing fa i h = read_activity-Shows w camp none fa i
read_sovereignty-Shows w camp malformed fa i h = cc
read_sovereignty-Shows w camp odd fa i h = read_activity-Shows w camp none fa i
read_sovereignty-Shows w camp (good s) fa i h =
    read_activity-Shows w camp (some s) fa (record i { sovereignty = s })

-- As long as the bodies of the campaigns and of the sovereignty are no broken JSON, each of campaigns,
-- sovereignty and activity shows after the poll what its own endpoint has sent, or what it showed
-- before, whatever becomes of the other two; the configuration and the kills are shown as before, and
-- the kill feed is asked for, once, exactly if the body of the activity is no broken JSON either.
pub fetch_intel-Shows :
    (w : Setting) (fc : Feed (List Campaign)) (fs : Feed (List (ℕ × Sov)))
    (fa : Feed (List (ℕ × Activity))) (i : Intel)
    → is_malformed fc ≡ false
    → is_malformed fs ≡ false
    → Shows
        (fetch_intel w fc fs fa i).0
        (latest fc i.campaigns)
        (latest fs i.sovereignty)
        (latest fa i.activity)
        i.config
        i.kill_feed
        (asked_after fa i.kill_requests)
unfolding fetch_intel
fetch_intel-Shows w missing fs fa i h k = read_sovereignty-Shows w none fs fa i k
fetch_intel-Shows w malformed fs fa i h k = cc
fetch_intel-Shows w odd fs fa i h k = read_sovereignty-Shows w none fs fa i k
fetch_intel-Shows w (good c) fs fa i h k =
    read_sovereignty-Shows w (some c) fs fa (record i { campaigns = c }) k
