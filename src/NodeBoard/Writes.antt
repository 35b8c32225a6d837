-- ===== src/NodeBoard/Writes.antt =====
-- EntosisPage.jsx: the writes to the nodes of an operation. A write is a function of the state and of
-- the reply to its request.
use lawn_eve_intel_dashboard.Common.{
  ℕ, Bool, true, false, not, Option, none, some, List, [], ◌∷◌, ◌++◌, ◌==◌, if◌then◌else◌,
  first_some,
}
use lawn_eve_intel_dashboard.Common.Text.{Text, codes, show, is_nil, trim}
use lawn_eve_intel_dashboard.TimerAuth.{Auth, Check, ok, invalid, locked, error}
use lawn_eve_intel_dashboard.NodeBoard.{
  NodeStatus, unclaimed, running, CardNode, Button, claim, release, delete, set, has_text,
}

-- What is written of a node. A field that is not sent is `none`.
pub record Patch : Type 0 where
  pub claimed_by : Option (Option Text)
  pub status : NodeStatus

-- What the page has sent. `header` is the password that goes with it.
pub data Request : Type 0 where
  create : Text → Option Text → Option ℕ → Option Text → Request
  update : ℕ → Patch → Request
  remove : ℕ → Option Text → Request
  remove_all : Option Text → Request
  read_nodes login set_callsign_first : Request

-- The reply to a write: none, an error status with the error of its body, or success.
pub data WriteReply : Type 0 where
  unreachable accepted : WriteReply
  refused : ℕ → Option Text → WriteReply

-- `sent` has the last request first.
pub record Page : Type 0 where
  pub auth : Auth
  pub character : Option Text
  pub callsign : Text
  pub callsign_input : Text
  pub password : Text
  pub is_auth : Bool
  pub auth_error : Option Check
  pub stored_password : Option Text
  pub stored_callsign : Option Text
  pub add_form_for : Option (Option ℕ)
  pub add_error : Text
  pub patch_error : Text
  pub sent : List Request

-- `canManage`, `myName`, `canClaim` and `writeHeaders`.
unfoldable pub can_manage : Page → Bool
can_manage p = if p.auth.sso_enabled then p.auth.authorized else p.is_auth

unfoldable pub my_name : Page → Option Text
my_name p = if p.auth.sso_enabled then p.character else some p.callsign

unfoldable pub can_claim : Page → Bool
can_claim p = if p.auth.sso_enabled then p.auth.logged_in else not (is_nil p.callsign)

abbrev pub header_of : Page → Option Text
header_of p = if p.auth.sso_enabled then none else some p.password

abbrev pub send : Request → Page → Page
send r p = record p { sent = r ∷ p.sent }

-- `saveCallsign`.
unfoldable pub save_callsign : Page → Page
unfolding trim
save_callsign p = record p {
  callsign = trim p.callsign_input;
  stored_callsign = some (trim p.callsign_input);
}

-- The check of the password: on mount with the one that is stored, and by `handleAuth`.
abbrev pub shown_error : Check → Option Check
shown_error ok = none
shown_error invalid = some invalid
shown_error locked = some locked
shown_error error = none

abbrev pub passes_check : Check → Bool
passes_check ok = true
passes_check _ = false

unfoldable pub mount_check : Check → Page → Page
mount_check c p =
    if has_text p.stored_password
    then record p { is_auth = passes_check c; auth_error = first_some (shown_error c) p.auth_error }
    else p

unfoldable pub handle_auth : Check → Page → Page
handle_auth c p = record p {
  is_auth = passes_check c;
  auth_error = shown_error c;
  stored_password = if passes_check c then some p.password else p.stored_password;
}

abbrev pub refusal : Text → ℕ → Option Text → Text
refusal before status none = before ++ show status
refusal before status (some e) = if is_nil e then before ++ show status else e

abbrev pub add_refusal : Bool → ℕ → Option Text → Text
add_refusal sso status e =
    if status == 401
    then (if sso
        then codes "Not authorized — log in with EVE"
        else codes "Auth failed — re-enter FC password")
    else refusal (codes "Error ") status e

-- `addNode`: only a node that was added closes the form and reads the nodes again.
abbrev pub add_done : WriteReply → Page → Page
add_done accepted p = send read_nodes (record p { add_form_for = none; add_error = [] })
add_done unreachable p = record p { add_error = codes "Network error — try again" }
add_done (refused status e) p = record p { add_error = add_refusal p.auth.sso_enabled status e }

abbrev pub given : Text → Option Text
given [] = none
given (c ∷ s) = some (c ∷ s)

unfoldable pub add_node : Text → Text → Option ℕ → WriteReply → Page → Page
unfolding show
add_node system label campaign r p =
    add_done r
      (send (create system (given label) campaign (header_of p)) (record p { add_error = [] }))

-- `patchNode`: it reads the nodes again, whatever the reply.
abbrev pub patch_text : WriteReply → Text
patch_text accepted = []
patch_text unreachable = codes "Network error — update not saved"
patch_text (refused status none) = codes "Update failed (" ++ (show status ++ codes ")")
patch_text (refused status (some e)) =
    if is_nil e then codes "Update failed (" ++ (show status ++ codes ")") else e

unfoldable pub patch_node : ℕ → Patch → WriteReply → Page → Page
unfolding show
patch_node id patch r p =
    send read_nodes (send (update id patch) (record p { patch_error = patch_text r }))

-- `claimNode`: who may not claim is sent to log in, or told to set a callsign.
unfoldable pub claim_node : ℕ → WriteReply → Page → Page
unfolding patch_node can_claim my_name
claim_node id r p =
    if can_claim p
    then patch_node id (record { claimed_by = some (my_name p); status = running }) r p
    else if p.auth.sso_enabled
    then send login p
    else send set_callsign_first p

-- `unclaimNode`.
unfoldable pub unclaim_node : ℕ → WriteReply → Page → Page
unfolding patch_node
unclaim_node id r p = patch_node id (record { claimed_by = some (some []); status = unclaimed }) r p

-- `deleteNode` and `clearAll`: an error status is not looked at, and a request that fails ends the
-- handler by an exception.
abbrev pub remove_done : WriteReply → Page → Page
remove_done unreachable p = p
remove_done accepted p = send read_nodes p
remove_done (refused status e) p = send read_nodes p

unfoldable pub delete_node : ℕ → WriteReply → Page → Page
delete_node id r p = remove_done r (send (remove id (header_of p)) p)

unfoldable pub clear_nodes : Bool → WriteReply → Page → Page
clear_nodes confirmed r p =
    if confirmed then remove_done r (send (remove_all (header_of p)) p) else p

-- `toggleAddFor`.
unfoldable pub toggle_add_for : Option ℕ → Page → Page
toggle_add_for key p = record p { add_error = []; add_form_for = toggled p.add_form_for }
  where
    same : Option ℕ → Option ℕ → Bool
    same none none = true
    same none (some b) = false
    same (some a) none = false
    same (some a) (some b) = a == b

    toggled : Option (Option ℕ) → Option (Option ℕ)
    toggled none = some key
    toggled (some cur) = if same cur key then none else some key

-- What the buttons of a card do.
unfoldable pub press : Button → CardNode → WriteReply → Page → Page
unfolding claim_node unclaim_node patch_node delete_node
press claim n r p = claim_node n.id r p
press release n r p = unclaim_node n.id r p
press delete n r p = delete_node n.id r p
press (set s) n r p = patch_node n.id (record { claimed_by = none; status = s }) r p
