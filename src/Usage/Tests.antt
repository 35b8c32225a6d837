-- ===== src/Usage/Tests.antt =====
-- AnalyticsPage.jsx: a load that ends after the page was locked.
use lawn_eve_intel_dashboard.Common.{ℕ, ◌≡◌, refl, true, false, none, some}
use lawn_eve_intel_dashboard.Common.Text.{codes}
use lawn_eve_intel_dashboard.Usage.{Usage, served, lock, load_usage, submit_password}

abbrev unlocked : Usage ℕ ℕ
unlocked = record {
  stats = some 1;
  loading = true;
  needs_auth = false;
  unconfigured = none;
  gate = none;
  draft = codes " pw ";
  credential = codes "pw";
  auth_error = none;
  stored_auth = some (codes "pw");
  seen = true;
}

-- The statistics of a load in flight are shown again after the page was locked.
late_load : (load_usage (served (some 2)) (lock unlocked)).stats ≡ some 2
unfolding load_usage lock
late_load = refl

submitted : (submit_password unlocked).credential ≡ codes "pw"
unfolding submit_password
submitted = refl
