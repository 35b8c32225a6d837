-- ===== src/Share/Button.antt =====
-- frontend/src/components/common/ShareButton.jsx: publishing what is on the screen. A link is kept
-- with the visibility that its request asked for.
use lawn_eve_intel_dashboard.Common.{String, Bool, true, false, Option, none, some, List, [], ◌∷◌}

pub data Visibility : Type 0 where
  link alliance : Visibility

pub record Link : Type 0 where
  pub url : String
  pub published_as : Visibility

-- `asked` is the visibility of the request in flight.
pub record Sharing : Type 0 where
  pub share : Option Link
  pub visibility : Visibility
  pub busy : Bool
  pub error : Option String
  pub asked : Option Visibility

abbrev pub unshared : Sharing
unshared = record { share = none; visibility = link; busy = false; error = none; asked = none }

-- How a request ends: with the link, or with the message that is shown.
pub data Outcome : Type 0 where
  published : String → Outcome
  failed : String → Outcome

-- `publish` up to its request.
unfoldable pub publish : Visibility → Sharing → Sharing
publish vis s = record s { busy = true; error = none; asked = some vis }

abbrev pub outcome_of : Visibility → Outcome → Sharing → Sharing
outcome_of vis (published url) s = record s {
  share = some (record { url = url; published_as = vis });
  visibility = vis;
}
outcome_of vis (failed message) s = record s { error = some message }

-- The rest of `publish`, with its `finally`.
unfoldable pub finish : Visibility → Outcome → Sharing → Sharing
finish vis o s = record (outcome_of vis o s) { busy = false; asked = none }

-- The button after a failure with no link yet.
unfoldable pub retry : Sharing → Sharing
retry s = record s { error = none }

abbrev pub other_one : Visibility → Visibility
other_one link = alliance
other_one alliance = link

-- The buttons, and whether they can be pressed. The copy of the link goes to the clipboard.
pub data Press : Type 0 where
  press_retry press_share press_copy press_switch : Press

abbrev pub first_press : Bool → Option String → List Press
first_press busy (some message) = press_retry ∷ []
first_press true none = []
first_press false none = press_share ∷ []

abbrev pub switch_press : Bool → List Press
switch_press true = []
switch_press false = press_switch ∷ []

abbrev pub presses : Bool → Option String → Option Link → List Press
presses busy message none = first_press busy message
presses busy message (some l) = press_copy ∷ switch_press busy

-- The buttons that can be pressed.
unfoldable pub enabled_presses : Sharing → List Press
enabled_presses s = presses s.busy s.error s.share

unfoldable pub press : Press → Sharing → Sharing
unfolding publish retry
press press_retry s = retry s
press press_share s = publish s.visibility s
press press_copy s = s
press press_switch s = publish (other_one s.visibility) s
