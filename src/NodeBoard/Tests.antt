-- ===== src/NodeBoard/Tests.antt =====
-- EntosisPage.jsx: the card of a running node.
use lawn_eve_intel_dashboard.Common.{◌≡◌, refl, true, none, some, [], length}
use lawn_eve_intel_dashboard.Common.Text.{codes, text_eq}
use lawn_eve_intel_dashboard.TimerAuth.{no_auth}
use lawn_eve_intel_dashboard.NodeBoard.{CardNode, running, buttons_of}
use lawn_eve_intel_dashboard.NodeBoard.Writes.{Page, accepted, refused, add_node, claim_node}

abbrev node : CardNode
node = record { id = 4; status = running; claimed_by = some (codes "Bo"); campaign_id = none }

abbrev page : Page
page = record {
  auth = no_auth;
  character = none;
  callsign = [];
  callsign_input = [];
  password = codes "pw";
  is_auth = true;
  auth_error = none;
  stored_password = none;
  stored_callsign = none;
  add_form_for = some none;
  add_error = [];
  patch_error = [];
  sent = [];
}

five_buttons : length (buttons_of (some (codes "Bo")) true node) ≡ 5
unfolding buttons_of text_eq
five_buttons = refl

no_callsign : length (claim_node 4 accepted page).sent ≡ 1
unfolding claim_node
no_callsign = refl

refused_add : (add_node (codes "J9A") [] none (refused 500 none) page).add_error ≡ codes "Error 500"
unfolding add_node
refused_add = refl
