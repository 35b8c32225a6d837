-- ===== src/Dashboard.antt =====
-- frontend/src/App.jsx: the poll of the dashboard, and the figures of its header. ADM values are
-- tenths.
mod Tests
pub mod Figures
pub mod Failures
pub mod Guests
pub mod Layout
pub mod Tabs
use lawn_eve_intel_dashboard.Common.{
  ℕ, String, Bool, true, false, not, ◌&&◌, ◌||◌, Option, none, some, List, [], ◌∷◌, map,
  if◌then◌else◌, or_else, first_some,
}
use lawn_eve_intel_dashboard.Common.Assoc.{lookup}
use lawn_eve_intel_dashboard.Campaign.{Campaign}
use lawn_eve_intel_dashboard.Config.{
  Config, Constellation, System, or_nil, is_primary_constellation,
}
use lawn_eve_intel_dashboard.Config.Sets.{add, has}
use lawn_eve_intel_dashboard.Notify.{Sov, Activity, Poll, Snapshot, Notice, check_and_notify}
use lawn_eve_intel_dashboard.OpPage.{Setting, op_poll}
use lawn_eve_intel_dashboard.MapStyle.{SovView, is_hostile}

-- /api/config, with what only the dashboard reads of it. A region without an id has none.
pub record Site : Type 0 where
  pub config : Config
  pub region_id : Option ℕ
  pub has_ao : Option Bool
  pub host_ids : List ℕ
  pub neighbors : List System

pub record Traffic : Type 0 where
  pub ship_kills : ℕ
  pub pod_kills : ℕ
  pub npc_kills : ℕ
  pub jumps : ℕ

-- Why a poll ended early: a request failed, or the configuration has a constellation that lists no
-- systems.
pub data Failure : Type 0 where
  request : String → Failure
  no_systems : Failure

-- `region_ref` stands for `regionIdRef` and `regionId`, which are set together, and `config` for
-- `configRef` and `config`. `previous` is what the alerts remember, `feeds` are the regions whose
-- kills were asked for, the last one first.
pub record App : Type 0 where
  pub config : Option Site
  pub sovereignty : List (ℕ × SovView)
  pub activity : List (ℕ × Traffic)
  pub campaigns : List Campaign
  pub region : Option ℕ
  pub feeds : List (Option ℕ)
  pub loading : Bool
  pub refreshing : Bool
  pub error : Option Failure
  pub previous : Option Snapshot

-- What `checkedFetch` gives: the body, or the message of the error it throws.
pub data Fetched {ℓ} (A : Type ℓ) : Type ℓ where
  threw : String → Fetched A
  body : A → Fetched A

pub record Responses : Type 0 where
  pub site : Fetched Site
  pub sov : Fetched (List (ℕ × SovView))
  pub act : Fetched (List (ℕ × Traffic))
  pub camp : Fetched (List Campaign)

-- What `Promise.all` gives. Where several requests fail, the message is that of the first to fail,
-- which is an argument of the poll.
pub record Batch : Type 0 where
  pub fresh : Option Site
  pub sov : List (ℕ × SovView)
  pub act : List (ℕ × Traffic)
  pub camp : List Campaign

abbrev pub asked_site : Bool → Fetched Site → Option (Option Site)
asked_site false r = some none
asked_site true (threw e) = none
asked_site true (body s) = some (some s)

abbrev pub three :
    Option Site
    → Fetched (List (ℕ × SovView))
    → Fetched (List (ℕ × Traffic))
    → Fetched (List Campaign)
    → Option Batch
three fresh (body s) (body a) (body c) = some (record { fresh = fresh; sov = s; act = a; camp = c })
three fresh (body s) (body a) (threw e) = none
three fresh (body s) (threw e) c = none
three fresh (threw e) a c = none

abbrev pub with_site : Option (Option Site) → Responses → Option Batch
with_site none r = none
with_site (some fresh) r = three fresh r.sov r.act r.camp

unfoldable pub promise_all : Bool → Responses → Option Batch
promise_all need r = with_site (asked_site need r.site) r

abbrev pub is_missing {ℓ} : {A : Type ℓ} → Option A → Bool
is_missing none = true
is_missing (some a) = false

-- `regionIdRef.current == null && cfgFresh.region?.id`.
abbrev pub take_site : Option Site → App → App
take_site none a = a
take_site (some s) a = record a { config = some s; region = first_some a.region s.region_id }

abbrev pub take_batch : Batch → App → App
take_batch b a = record a {
  sovereignty = b.sov;
  activity = b.act;
  campaigns = b.camp;
  feeds = a.region ∷ a.feeds;
  error = none;
}

-- What the alerts read of sovereignty and activity.
abbrev pub sov_of : ℕ × SovView → ℕ × Sov
sov_of e = (e.0, record { is_friendly = e.1.is_friendly; adm = e.1.adm })

abbrev pub activity_of : ℕ × Traffic → ℕ × Activity
activity_of e = (e.0, record { ship_kills = e.1.ship_kills; pod_kills = e.1.pod_kills })

-- The arguments of `checkAndNotify`: those of the operation page, with `holds_sov`.
unfoldable pub app_poll : Config → List (ℕ × Constellation) → Batch → Poll
unfolding op_poll
app_poll cfg table b =
    record (op_poll cfg table b.camp (map sov_of b.sov) (map activity_of b.act)) {
      holds_sov = or_else cfg.holds_sov true;
    }

-- `Object.values(c.systems)` throws where there are none.
abbrev pub lists_systems : List (ℕ × Constellation) → Bool
lists_systems [] = true
lists_systems (c ∷ cs) = not (is_missing c.1.systems) && lists_systems cs

abbrev pub fail : Bool → Failure → App → App
fail init e a = if init then record a { error = some e } else a

unfoldable pub notify_table :
    Bool → Setting → Config → Option (List (ℕ × Constellation)) → Batch → App → App × List Notice
unfolding app_poll
notify_table init w cfg none b a = (a, [])
notify_table init w cfg (some table) b a =
    if lists_systems table
    then (let r =
          check_and_notify w.now w.settings w.permission a.previous (app_poll cfg table b) in
        (record a { previous = some r.0 }, r.1))
    else (fail init no_systems a, [])

abbrev pub notify_site : Bool → Setting → Option Site → Batch → App → App × List Notice
notify_site init w none b a = (a, [])
notify_site init w (some s) b a = notify_table init w s.config s.config.constellations b a

abbrev pub settle_batch : Bool → Setting → String → Option Batch → App → App × List Notice
settle_batch init w message none a = (fail init (request message) a, [])
settle_batch init w message (some b) a =
    let c = take_batch b (take_site b.fresh a) in notify_site init w c.config b c

-- `finally`.
abbrev pub settled : App × List Notice → App × List Notice
settled r = (record r.0 { loading = false; refreshing = false }, r.1)

-- `needConfig`.
abbrev pub needs_config : Bool → App → Bool
needs_config init a = init || is_missing a.config

-- `fetchData`, with what its requests give.
unfoldable pub fetch_data : Bool → Setting → String → Responses → App → App × List Notice
unfolding promise_all notify_table
fetch_data init w message r a =
    settled (settle_batch init w message (promise_all (needs_config init a) r) a)

-- `changeRegion`.
unfoldable pub change_region : ℕ → App → App
change_region id a = record a { region = some id; feeds = some id ∷ a.feeds }
