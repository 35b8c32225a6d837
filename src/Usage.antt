-- ===== src/Usage.antt =====
-- frontend/src/pages/AnalyticsPage.jsx and frontend/src/utils/analyticsAuth.js: who sees the usage
-- statistics `D`, and what the browser keeps of the password.
mod Tests
pub mod Charts
use lawn_eve_intel_dashboard.Common.{
  ℕ, ◌+◌, String, Bool, true, false, not, Option, none, some, List, [], ◌∷◌, leb, if◌then◌else◌,
}
use lawn_eve_intel_dashboard.Common.Text.{Text, trim}

pub record Usage (D G : Type 0) : Type 0 where
  pub stats : Option D
  pub loading : Bool
  pub needs_auth : Bool
  pub unconfigured : Option Text
  pub gate : Option G
  pub draft : Text
  pub credential : Text
  pub auth_error : Option String
  pub stored_auth : Option Text
  pub seen : Bool

-- How a load ends: not at all; with 401, 429 or 503, where a further request gives the gate; with
-- the statistics; or with another error. A body that is no JSON is `none`.
pub data Loads (D G : Type 0) : Type 0 where
  unreachable failed throttled : Loads D G
  denied : Option G → Loads D G
  unavailable : Option Text → Option G → Loads D G
  served : Option D → Loads D G

module _ {D G : Type 0} where
  abbrev pub could_not : Usage D G → Usage D G
  could_not u = record u { auth_error = some "Could not load usage stats." }

  abbrev pub answer : Loads D G → Usage D G → Usage D G
  answer unreachable u = could_not u
  answer failed u = could_not u
  answer throttled u = record u {
    stats = none;
    needs_auth = true;
    unconfigured = none;
    seen = false;
    auth_error = some "Too many attempts. Wait a minute, then try again.";
  }
  answer (denied g) u = record u {
    stats = none;
    needs_auth = true;
    unconfigured = none;
    seen = false;
    gate = g;
  }
  answer (unavailable none g) u = could_not (record u { stats = none; needs_auth = false })
  answer (unavailable (some detail) g) u = record u {
    stats = none;
    needs_auth = false;
    unconfigured = some detail;
    seen = false;
    gate = g;
  }
  answer (served none) u = could_not (record u { needs_auth = false; unconfigured = none })
  answer (served (some d)) u = record u {
    needs_auth = false;
    unconfigured = none;
    stats = some d;
    seen = true;
  }

  -- `load`.
  unfoldable pub load_usage : Loads D G → Usage D G → Usage D G
  load_usage l u = record (answer l (record u { auth_error = none })) { loading = false }

  -- `submitPassword`, up to the load that it leads to.
  abbrev pub keep_value : Text → Usage D G → Usage D G
  keep_value [] u = u
  keep_value (c ∷ s) u = record u { stored_auth = some (c ∷ s); credential = c ∷ s }

  unfoldable pub submit_password : Usage D G → Usage D G
  unfolding trim
  submit_password u = keep_value (trim u.draft) u

  -- `lock`.
  unfoldable pub lock : Usage D G → Usage D G
  lock u = record u {
    stored_auth = none;
    seen = false;
    draft = [];
    credential = [];
    stats = none;
    needs_auth = true;
  }

-- `regulars`: pairs of the days seen and the visitors.
unfoldable pub regulars : List (ℕ × ℕ) → ℕ → ℕ
regulars [] sum = sum
regulars (f ∷ fs) sum = regulars fs (if leb 5 f.0 then sum + f.1 else sum)
