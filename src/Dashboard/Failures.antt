-- ===== src/Dashboard/Failures.antt =====
-- App.jsx, fetchData: polls that fail.
use lawn_eve_intel_dashboard.Common.{
  ℕ, String, ◌≡◌, refl, ap, ◌∙◌, Bool, true, false, ◌&&◌, ◌||◌, Option, none, some, List, [],
  if◌then◌else◌,
}
use lawn_eve_intel_dashboard.Campaign.{Campaign}
use lawn_eve_intel_dashboard.MapStyle.{SovView}
use lawn_eve_intel_dashboard.Dashboard.{Traffic}
use lawn_eve_intel_dashboard.OpPage.{Setting}
use lawn_eve_intel_dashboard.Dashboard.{
  App, Site, Fetched, threw, body, Responses, asked_site, three, with_site, promise_all,
  needs_config, request, settle_batch, settled, fetch_data,
}

abbrev pub did_throw {ℓ} : {A : Type ℓ} → Fetched A → Bool
did_throw (threw e) = true
did_throw (body a) = false

-- One of the requests that the poll makes fails.
abbrev pub fails : Bool → Responses → Bool
fails need r = (need && did_throw r.site) || did_throw r.sov || did_throw r.act || did_throw r.camp

three-none :
    (fresh : Option Site) (s : Fetched (List (ℕ × SovView))) (t : Fetched (List (ℕ × Traffic)))
    (c : Fetched (List Campaign))
    → (did_throw s || did_throw t || did_throw c) ≡ true
    → three fresh s t c ≡ none
three-none fresh (body s) (body t) (body c) h = cc
three-none fresh (body s) (body t) (threw e) h = refl
three-none fresh (body s) (threw e) c h = refl
three-none fresh (threw e) t c h = refl

with_site-none :
    (need : Bool) (site : Fetched Site) (r : Responses)
    → ((need && did_throw site) || did_throw r.sov || did_throw r.act || did_throw r.camp) ≡ true
    → with_site (asked_site need site) r ≡ none
with_site-none false site r h = three-none none r.sov r.act r.camp h
with_site-none true (threw e) r h = refl
with_site-none true (body s) r h = three-none (some s) r.sov r.act r.camp h

promise_all-none : (need : Bool) (r : Responses) → fails need r ≡ true → promise_all need r ≡ none
unfolding promise_all
promise_all-none need r h = with_site-none need r.site r h

failed_run :
    (init : Bool) (w : Setting) (message : String) (a : App)
    → settled (settle_batch init w message none a) ≡ (
      record a {
        loading = false;
        refreshing = false;
        error = if init then some (request message) else a.error;
      },
      [],
    )
failed_run true w message a = refl
failed_run false w message a = refl

-- A poll of which a request fails sends no alert and changes nothing of the data, of what the alerts
-- remember and of the region; only the first poll shows the error, a later one keeps what is shown.
pub fetch_data-failed :
    (init : Bool) (w : Setting) (message : String) (r : Responses) (a : App)
    → fails (needs_config init a) r ≡ true
    → fetch_data init w message r a ≡ (
      record a {
        loading = false;
        refreshing = false;
        error = if init then some (request message) else a.error;
      },
      [],
    )
unfolding fetch_data
fetch_data-failed init w message r a h =
    ap (λ o. settled (settle_batch init w message o a)) (promise_all-none (needs_config init a) r h)
    ∙ failed_run init w message a
