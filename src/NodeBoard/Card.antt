-- ===== src/NodeBoard/Card.antt =====
-- EntosisPage.jsx, NodeCard: which buttons a node has, and what they send.
use lawn_eve_intel_dashboard.Common.{
  ◌≡◌, Bool, true, false, ◌&&◌, Option, none, some, List, ◌++◌, map, any,
}
use lawn_eve_intel_dashboard.Common.Text.{Text}
use lawn_eve_intel_dashboard.NodeBoard.{
  NodeStatus, unclaimed, running, contested, captured, lost, CardNode, Button, claim, release,
  delete, set, next_statuses, same_pilot, has_text, is_running, is_unclaimed, buttons_of, only_if,
}

abbrev pub is_final : NodeStatus → Bool
is_final captured = true
is_final lost = true
is_final _ = false

-- The button changes the status of its node, and to what.
abbrev pub target : Button → Option NodeStatus
target claim = some running
target release = some unclaimed
target delete = none
target (set s) = some s

abbrev pub has_target : Option NodeStatus → Bool
has_target none = false
has_target (some s) = true

abbrev pub ends : Option NodeStatus → Bool
ends none = false
ends (some s) = is_final s

abbrev pub is_release : Button → Bool
is_release release = true
is_release _ = false

abbrev pub is_delete : Button → Bool
is_delete delete = true
is_delete _ = false

abbrev pub is_open : NodeStatus → Bool
is_open running = true
is_open contested = true
is_open _ = false

-- What the buttons are, for a pilot and for who may or may not manage nodes.
pub record Offers (name : Option Text) (manages : Bool) (n : CardNode) : Type 0 where
  pub final :
      (is_final n.status && any (λ b. has_target (target b)) (buttons_of name manages n)) ≡ false
  pub finishing : any (λ b. ends (target b)) (buttons_of name manages n) ≡ is_open n.status
  pub releasing :
      any is_release (buttons_of name manages n)
      ≡ (has_text n.claimed_by && same_pilot name n.claimed_by && is_running n.status)
  pub deleting : any is_delete (buttons_of name manages n) ≡ manages

abbrev shape : NodeStatus → Bool → Bool → List Button
shape s mine manages =
    only_if (is_unclaimed s) claim
    ++ (only_if (mine && is_running s) release
        ++ (map set (next_statuses s) ++ only_if manages delete))
