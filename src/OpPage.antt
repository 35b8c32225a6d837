-- ===== src/OpPage.antt =====
-- frontend/src/pages/EntosisPage.jsx: the intel poll of the operation page, which feeds the board,
-- the map and the alerts.
mod Tests
pub mod Feeds
pub mod Homes
pub mod Body
pub mod Cards
pub mod Alarm
use lawn_eve_intel_dashboard.Common.{
  ℕ, suc, ◌-◌, String, Bool, true, Option, none, some, List, [], ◌∷◌, ◌==◌, if◌then◌else◌, or_else,
}
use lawn_eve_intel_dashboard.Common.Assoc.{insert}
use lawn_eve_intel_dashboard.Campaign.{Campaign}
use lawn_eve_intel_dashboard.Config.{
  Config, Constellation, System, or_nil, is_primary_constellation,
}
use lawn_eve_intel_dashboard.Config.Sets.{add}
use lawn_eve_intel_dashboard.Notify.{
  Settings, Permission, Sov, Activity, Poll, Snapshot, Notice, check_and_notify,
}

-- What a poll gets from an endpoint: no response or an error status; a body that is no JSON; JSON
-- of another shape; or what it asked for.
pub data Feed {ℓ} (A : Type ℓ) : Type ℓ where
  missing : Feed A
  malformed : Feed A
  odd : Feed A
  good : A → Feed A

-- A kill of the feed.
pub record OpKill : Type 0 where
  pub killmail_id : ℕ
  pub system_id : ℕ

-- The state of the page that the poll reads and writes, with the requests of the kill feed that are
-- in flight, and with what the alerts remember.
pub record Intel : Type 0 where
  pub campaigns : List Campaign
  pub sovereignty : List (ℕ × Sov)
  pub activity : List (ℕ × Activity)
  pub config : Option Config
  pub kill_feed : List OpKill
  pub kill_requests : ℕ
  pub previous : Option Snapshot

-- `names[s.system_id] = s.name`, for all the constellations.
abbrev pub add_system_names : List System → List (ℕ × String) → List (ℕ × String)
add_system_names [] names = names
add_system_names (s ∷ ss) names = add_system_names ss (insert s.system_id s.name names)

pub system_names : List (ℕ × Constellation) → List (ℕ × String) → List (ℕ × String)
system_names [] names = names
system_names (c ∷ cs) names = system_names cs (add_system_names (or_nil c.1.systems) names)

-- `primaryIds.add(s.system_id)`, where the constellation is primary.
abbrev pub add_primary : Bool → List System → List ℕ → List ℕ
add_primary primary [] ids = ids
add_primary primary (s ∷ ss) ids =
    add_primary primary ss (if primary then add ◌==◌ s.system_id ids else ids)

unfoldable pub primary_ids : List (ℕ × Constellation) → List ℕ → List ℕ
unfolding add is_primary_constellation
primary_ids [] ids = ids
primary_ids (c ∷ cs) ids =
    primary_ids cs (add_primary (is_primary_constellation c.1) (or_nil c.1.systems) ids)

-- The arguments of the call of `checkAndNotify`, which does not pass `holdsSov`.
unfoldable pub op_poll :
    Config → List (ℕ × Constellation) → List Campaign → List (ℕ × Sov) → List (ℕ × Activity) → Poll
unfolding primary_ids system_names
op_poll cfg table camp sov act = record {
  campaigns = camp;
  sovereignty = sov;
  activity = act;
  primary_ids = primary_ids table [];
  names = system_names table [];
  alliance_short = or_else cfg.alliance_short "PRIMARY";
  holds_sov = true;
}

-- The clock, the settings and the permission that an alert depends on.
pub record Setting : Type 0 where
  pub now : ℕ
  pub settings : Settings
  pub permission : Permission

abbrev pub notify :
    Setting
    → Config
    → Option (List (ℕ × Constellation))
    → List Campaign
    → List (ℕ × Sov)
    → List (ℕ × Activity)
    → Intel
    → Intel × List Notice
notify w cfg none camp sov act i = (i, [])
notify w cfg (some table) camp sov act i =
    let r =
      check_and_notify w.now w.settings w.permission i.previous (op_poll cfg table camp sov act) in
    (record i { previous = some r.0 }, r.1)

abbrev pub notify_config :
    Setting
    → Option Config
    → List Campaign
    → List (ℕ × Sov)
    → List (ℕ × Activity)
    → Intel
    → Intel × List Notice
notify_config w none camp sov act i = (i, [])
notify_config w (some cfg) camp sov act i = notify w cfg cfg.constellations camp sov act i

-- The alerts, where there are campaigns and sovereignty.
abbrev pub alert :
    Setting
    → Option (List Campaign)
    → Option (List (ℕ × Sov))
    → List (ℕ × Activity)
    → Intel
    → Intel × List Notice
alert w none sov act i = (i, [])
alert w (some camp) none act i = (i, [])
alert w (some camp) (some sov) act i = notify_config w i.config camp sov act i

-- The request of /api/zkill/feed, whose answer the poll does not wait for.
unfoldable pub ask_kill_feed : Intel → Intel
ask_kill_feed i = record i { kill_requests = suc i.kill_requests }

-- How it ends: with an error status, with no response or a body that is no JSON, with JSON that is no
-- list, or with the kills.
pub data KillReply : Type 0 where
  refused : KillReply
  failed : KillReply
  no_list : KillReply
  kills : List OpKill → KillReply

unfoldable pub kill_feed_done : KillReply → Intel → Intel
kill_feed_done refused i = record i { kill_feed = []; kill_requests = i.kill_requests - 1 }
kill_feed_done failed i = record i { kill_requests = i.kill_requests - 1 }
kill_feed_done no_list i = record i { kill_requests = i.kill_requests - 1 }
kill_feed_done (kills ks) i = record i { kill_feed = ks; kill_requests = i.kill_requests - 1 }

-- The rest of the poll, from the activity on, from the sovereignty on, and as a whole.
unfoldable pub read_activity :
    Setting
    → Option (List Campaign)
    → Option (List (ℕ × Sov))
    → Feed (List (ℕ × Activity))
    → Intel
    → Intel × List Notice
unfolding ask_kill_feed
read_activity w camp sov malformed i = (i, [])
read_activity w camp sov missing i = alert w camp sov [] (ask_kill_feed i)
read_activity w camp sov odd i = alert w camp sov [] (ask_kill_feed i)
read_activity w camp sov (good act) i =
    alert w camp sov act (ask_kill_feed (record i { activity = act }))

unfoldable pub read_sovereignty :
    Setting
    → Option (List Campaign)
    → Feed (List (ℕ × Sov))
    → Feed (List (ℕ × Activity))
    → Intel
    → Intel × List Notice
unfolding read_activity
read_sovereignty w camp malformed fa i = (i, [])
read_sovereignty w camp missing fa i = read_activity w camp none fa i
read_sovereignty w camp odd fa i = read_activity w camp none fa i
read_sovereignty w camp (good sov) fa i =
    read_activity w camp (some sov) fa (record i { sovereignty = sov })

-- `fetchIntel`. A body that is no JSON ends it by an exception.
unfoldable pub fetch_intel :
    Setting
    → Feed (List Campaign)
    → Feed (List (ℕ × Sov))
    → Feed (List (ℕ × Activity))
    → Intel
    → Intel × List Notice
unfolding read_sovereignty
fetch_intel w malformed fs fa i = (i, [])
fetch_intel w missing fs fa i = read_sovereignty w none fs fa i
fetch_intel w odd fs fa i = read_sovereignty w none fs fa i
fetch_intel w (good camp) fs fa i =
    read_sovereignty w (some camp) fs fa (record i { campaigns = camp })
