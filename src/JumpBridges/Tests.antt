-- ===== src/JumpBridges/Tests.antt =====
-- JumpBridgeManager.jsx: a draft without its second system, and a login.
use lawn_eve_intel_dashboard.Common.{◌≡◌, refl, true, false, none, some, []}
use lawn_eve_intel_dashboard.Common.Text.{codes}
use lawn_eve_intel_dashboard.TimerAuth.{no_auth, ok}
use lawn_eve_intel_dashboard.JumpBridges.{
  Manager, empty_draft, denied, add_jump_bridge, log_in, log_out,
}

abbrev manager : Manager
manager = record {
  auth = no_auth;
  show_form = true;
  draft = record empty_draft { system_a = codes "J9A"; system_b = codes "  " };
  password = codes "pw";
  is_authenticated = false;
  auth_message = "";
  stored = none;
  refreshes = 0;
  changes = 0;
  sent = [];
}

needs_both : (add_jump_bridge (denied 401) manager).refreshes ≡ 0
unfolding add_jump_bridge
needs_both = refl

login : (log_in ok manager).stored ≡ some (codes "pw")
unfolding log_in
login = refl

logout : (log_out (log_in ok manager)).stored ≡ none
unfolding log_out
logout = refl
