-- ===== src/NodeBoard.antt =====
-- frontend/src/pages/EntosisPage.jsx: the buttons on the card of a node of an operation.
mod Tests
pub mod Card
pub mod Writes
use lawn_eve_intel_dashboard.Common.{
  ℕ, Bool, true, false, not, ◌&&◌, Option, none, some, List, [], ◌∷◌, ◌++◌, map, if◌then◌else◌,
}
use lawn_eve_intel_dashboard.Common.Text.{Text, text_eq, is_nil}
use lawn_eve_intel_dashboard.TimerAuth.{Auth, Check, ok, invalid, locked, error}

pub data NodeStatus : Type 0 where
  unclaimed running contested captured lost other : NodeStatus

-- A node as its card shows it. An empty pilot is `none`.
pub record CardNode : Type 0 where
  pub id : ℕ
  pub status : NodeStatus
  pub claimed_by : Option Text
  pub campaign_id : Option ℕ

-- `NEXT_STATUSES[node.status] || []`.
unfoldable pub next_statuses : NodeStatus → List NodeStatus
next_statuses unclaimed = running ∷ contested ∷ []
next_statuses running = contested ∷ captured ∷ lost ∷ []
next_statuses contested = running ∷ captured ∷ lost ∷ []
next_statuses captured = []
next_statuses lost = []
next_statuses other = []

pub data Button : Type 0 where
  claim release delete : Button
  set : NodeStatus → Button

-- `myName && node.claimed_by === myName`.
abbrev pub same_pilot : Option Text → Option Text → Bool
same_pilot none claimed = false
same_pilot (some []) claimed = false
same_pilot (some (c ∷ s)) none = false
same_pilot (some (c ∷ s)) (some pilot) = text_eq pilot (c ∷ s)

abbrev pub is_unclaimed : NodeStatus → Bool
is_unclaimed unclaimed = true
is_unclaimed _ = false

abbrev pub is_running : NodeStatus → Bool
is_running running = true
is_running _ = false

-- `node.claimed_by`, and a stored password, as a test.
abbrev pub has_text : Option Text → Bool
has_text none = false
has_text (some pilot) = not (is_nil pilot)

abbrev pub only_if {ℓ} : {A : Type ℓ} → Bool → A → List A
only_if b a = if b then a ∷ [] else []

-- The buttons of `NodeCard`.
unfoldable pub buttons_of : Option Text → Bool → CardNode → List Button
unfolding text_eq next_statuses
buttons_of my_name can_manage n =
    only_if (is_unclaimed n.status) claim
    ++ (only_if (has_text n.claimed_by && same_pilot my_name n.claimed_by && is_running n.status)
          release
        ++ (map set (next_statuses n.status) ++ only_if can_manage delete))

-- `eventEnded`.
abbrev pub event_ended : Bool → CardNode → Bool
event_ended flag n = flag && has_campaign n.campaign_id
  where
    has_campaign : Option ℕ → Bool
    has_campaign none = false
    has_campaign (some id) = true
