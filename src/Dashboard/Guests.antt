-- ===== src/Dashboard/Guests.antt =====
-- App.jsx: the alerts of a deployment that is a guest in its space.
use lawn_eve_intel_dashboard.Common.{
  ℕ, String, ◌≡◌, refl, inl, inr, false, Option, none, some, List, Bool-cases,
}
use lawn_eve_intel_dashboard.Dashboard.{is_missing}
use lawn_eve_intel_dashboard.Campaign.{Campaign}
use lawn_eve_intel_dashboard.Config.{Config, Constellation}
use lawn_eve_intel_dashboard.MapStyle.{SovView}
use lawn_eve_intel_dashboard.Notify.{Poll, Snapshot, check_and_notify}
use lawn_eve_intel_dashboard.Notify.Silence.{check_and_notify_guest}
use lawn_eve_intel_dashboard.OpPage.{Setting}
use lawn_eve_intel_dashboard.Dashboard.{
  App, Site, Traffic, Fetched, threw, body, Responses, Batch, three, promise_all, settle_batch,
  notify_table, notify_site, settled, fetch_data, lists_systems, app_poll,
}

-- The same setting with the ADM alerts switched off.
abbrev pub without_adm : Setting → Setting
without_adm w = record w { settings = record w.settings { adm_critical = false } }

-- What the alerts remember of an earlier poll.
abbrev pub after_poll : Setting → ℕ → Poll → Option Snapshot
after_poll w now0 p0 = some (check_and_notify now0 w.settings w.permission none p0).0

notify_table_guest :
    (w : Setting) (now0 : ℕ) (p0 : Poll) (cfg : Config) (o : Option (List (ℕ × Constellation)))
    (b : Batch) (a : App)
    → cfg.holds_sov ≡ some false
    → a.previous ≡ after_poll w now0 p0
    → (notify_table false w cfg o b a).1 ≡ (notify_table false (without_adm w) cfg o b a).1
unfolding notify_table app_poll
notify_table_guest w now0 p0 cfg none b a guest prev = refl
notify_table_guest w now0 p0 cfg (some table) b a guest prev =
    elim (Bool-cases (lists_systems table)) [
      | inl whole ↦
          rw (whole, prev)
            (check_and_notify_guest now0 p0 w.now (app_poll cfg table b) w.settings w.permission
              (inr (rw guest refl)))
      | inr broken ↦ rw broken refl
    ]

notify_site_guest :
    (w : Setting) (now0 : ℕ) (p0 : Poll) (site : Site) (b : Batch) (a : App)
    → site.config.holds_sov ≡ some false
    → a.previous ≡ after_poll w now0 p0
    → (notify_site false w (some site) b a).1
      ≡ (notify_site false (without_adm w) (some site) b a).1
notify_site_guest w now0 p0 site b a guest prev =
    notify_table_guest w now0 p0 site.config site.config.constellations b a guest prev

guest_batch :
    (w : Setting) (now0 : ℕ) (p0 : Poll) (site : Site) (message : String) (a : App)
    (s : Fetched (List (ℕ × SovView))) (t : Fetched (List (ℕ × Traffic)))
    (c : Fetched (List Campaign))
    → a.config ≡ some site
    → site.config.holds_sov ≡ some false
    → a.previous ≡ after_poll w now0 p0
    → (settled (settle_batch false w message (three none s t c) a)).1
      ≡ (settled (settle_batch false (without_adm w) message (three none s t c) a)).1
guest_batch w now0 p0 site message a (body s) (body t) (body c) has guest prev =
    rw has (notify_site_guest w now0 p0 site _ _ guest prev)
guest_batch w now0 p0 site message a (body s) (body t) (threw e) has guest prev = refl
guest_batch w now0 p0 site message a (body s) (threw e) c has guest prev = refl
guest_batch w now0 p0 site message a (threw e) t c has guest prev = refl

-- A deployment whose configuration says that it holds no sovereignty gets the alerts it would get
-- with the ADM alerts switched off, at any poll after the first, whatever its requests give.
pub fetch_data_guest :
    (w : Setting) (now0 : ℕ) (p0 : Poll) (site : Site) (message : String) (r : Responses) (a : App)
    → a.config ≡ some site
    → site.config.holds_sov ≡ some false
    → a.previous ≡ after_poll w now0 p0
    → (fetch_data false w message r a).1 ≡ (fetch_data false (without_adm w) message r a).1
unfolding fetch_data promise_all
fetch_data_guest w now0 p0 site message r a has guest prev =
    let kept : is_missing a.config ≡ false = rw has refl in
    rw kept (guest_batch w now0 p0 site message a r.sov r.act r.camp has guest prev)
