-- ===== src/Notify/Store.antt =====
-- useNotifications.js: the settings that are stored, the permission, and when a notification is
-- shown.
use lawn_eve_intel_dashboard.Common.{
  ℕ, Bool, true, false, Option, some, List, [], ◌∷◌, if◌then◌else◌, or_else,
}
use lawn_eve_intel_dashboard.Notify.{
  Settings, defaults, Permission, unsupported, Notice, is_granted,
}

-- What is stored: nothing, a text that is no JSON, or fields, of which some may be missing.
pub record Fields : Type 0 where
  pub enabled : Option Bool
  pub campaigns : Option Bool
  pub pvp : Option Bool
  pub pvp_threshold : Option ℕ
  pub adm_critical : Option Bool

pub data Stored : Type 0 where
  nothing broken : Stored
  fields : Fields → Stored

-- `{ ...DEFAULTS, ...JSON.parse(stored) }`.
abbrev pub over_defaults : Fields → Settings
over_defaults f = record {
  enabled = or_else f.enabled defaults.enabled;
  campaigns = or_else f.campaigns defaults.campaigns;
  pvp = or_else f.pvp defaults.pvp;
  pvp_threshold = or_else f.pvp_threshold defaults.pvp_threshold;
  adm_critical = or_else f.adm_critical defaults.adm_critical;
}

abbrev pub all_fields : Settings → Fields
all_fields s = record {
  enabled = some s.enabled;
  campaigns = some s.campaigns;
  pvp = some s.pvp;
  pvp_threshold = some s.pvp_threshold;
  adm_critical = some s.adm_critical;
}

pub record Store : Type 0 where
  pub settings : Settings
  pub permission : Permission
  pub stored : Stored

-- The initial state of the hook. `permission` is what the browser says.
abbrev pub read_stored : Stored → Settings
read_stored nothing = defaults
read_stored broken = defaults
read_stored (fields f) = over_defaults f

unfoldable pub open_store : Stored → Permission → Store
open_store stored permission = record {
  settings = read_stored stored;
  permission = permission;
  stored = stored;
}

-- `saveSettings`. Where nothing can be written, the settings are changed all the same.
unfoldable pub save_settings : Bool → (Settings → Settings) → Store → Store
save_settings writable update s =
    let next = update s.settings in
    record s { settings = next; stored = if writable then fields (all_fields next) else s.stored }

abbrev pub is_supported : Permission → Bool
is_supported unsupported = false
is_supported _ = true

-- `requestPermission`, with the answer of the user.
unfoldable pub request_permission : Bool → Permission → Store → Store
unfolding save_settings
request_permission writable answer s =
    if is_supported s.permission
    then (let asked = record s { permission = answer } in
        if is_granted answer
        then save_settings writable (λ st. record st { enabled = true }) asked
        else asked)
    else s

-- `sendNotif`: what is shown, given the permission of the browser.
unfoldable pub send_notif : Permission → Notice → List Notice
send_notif permission n = if is_granted permission then n ∷ [] else []
