-- ===== src/Bell/Tests.antt =====
-- The settings of the alerts, on small inputs.
use lawn_eve_intel_dashboard.Common.{◌≡◌, refl, true, none, some, [], ◌∷◌, map}
use lawn_eve_intel_dashboard.Common.Text.{codes}
use lawn_eve_intel_dashboard.Common.Int.{pos, negsuc}
use lawn_eve_intel_dashboard.Notify.{Poll, granted, check_and_notify}
use lawn_eve_intel_dashboard.Notify.Store.{nothing, open_store}
use lawn_eve_intel_dashboard.Bell.{
  Bell, click_bell, type_threshold, act, controls, parse_int, threshold_of, change_threshold,
}
use lawn_eve_intel_dashboard.Bell.Runs.{
  first, later, Reach, visit, acted, loaded, InRange, Reach-IsQuiet,
}

abbrev quiet_poll : Poll
quiet_poll = record {
  campaigns = [];
  sovereignty = [];
  activity = [];
  primary_ids = 1 ∷ [];
  names = [];
  alliance_short = "LAWN";
  holds_sov = true;
}

abbrev opened : Bell
opened = act true click_bell (loaded nothing granted)

opened-Reach : Reach true true opened
unfolding controls
opened-Reach = acted click_bell true (visit granted) first

abbrev typed : Bell
typed = act true (type_threshold (codes "70")) opened

typed-Reach : Reach true true typed
unfolding controls act open_store
typed-Reach =
    acted (type_threshold (codes "70")) true opened-Reach (later (later (later (later first))))

Reach-IsQuiet_example :
    InRange typed.store.settings.pvp_threshold
    × ((check_and_notify 400 typed.store.settings granted
          (some (check_and_notify 400 typed.store.settings granted none quiet_poll).0)
          quiet_poll).1
        ≡ [])
Reach-IsQuiet_example = Reach-IsQuiet granted 400 quiet_poll typed-Reach

typed_seventy : typed.store.settings.pvp_threshold ≡ 50
unfolding act open_store change_threshold
typed_seventy = refl

thresholds :
    map threshold_of (codes "" ∷ codes "-4" ∷ codes " 12x" ∷ codes "0" ∷ []) ≡ 1 ∷ 1 ∷ 12 ∷ 1 ∷ []
unfolding threshold_of
thresholds = refl

parsed : map parse_int (codes "+7" ∷ codes "-3.5" ∷ []) ≡ some (pos 7) ∷ some (negsuc 2) ∷ []
unfolding parse_int
parsed = refl
